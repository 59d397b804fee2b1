-- ===== src/Prelude/Text.antt =====
-- Python's `str` as the native text, walked by its characters: the `str` methods that the program
-- calls. `str.lower` is not here: it rests on the Unicode tables, so its users take it as an argument.
pub mod Lines
use Prim.Native.Nat.{ℕ, zero, suc, ◌+◌, ◌-◌, ◌/◌, ◌%◌}
use Prim.Native.Char.{code}
use Prim.Native.String.{String, [], ◌∷◌, ◌++◌}
use mathlib.Core.Bool.{Bool, true, false, not, ◌&&◌, ◌||◌}
use mathlib.Core.List.{List}
use mathlib.Core.List
use text.Mathlib.Text.{starts_with}
use nexus_controller.Prelude.Tests.{nat_beq, ltb, leb, if◌then◌else◌}

-- len(s)
abbrev pub length : String → ℕ
length [] = 0
length (c ∷ s) = suc (length s)

abbrev pub is_empty : String → Bool
is_empty [] = true
is_empty (c ∷ s) = false

-- s[:n]
unfoldable pub take : ℕ → String → String
take zero s = []
take (suc n) [] = []
take (suc n) (c ∷ s) = c ∷ take n s

-- s[:-1]
unfoldable pub drop_last : String → String
drop_last [] = []
drop_last (c ∷ s) = let rest = drop_last s in if is_empty s then [] else c ∷ rest

-- The code points with the property White_Space or a bidirectional class of B, S or WS: what
-- `str.isspace`, `split` and `strip` go by.
unfoldable pub is_space : ℕ → Bool
is_space c =
    leb 9 c && leb c 13
    || leb 28 c && leb c 32
    || nat_beq c 0x85
    || nat_beq c 0xa0
    || nat_beq c 0x1680
    || leb 0x2000 c && leb c 0x200a
    || nat_beq c 0x2028
    || nat_beq c 0x2029
    || nat_beq c 0x202f
    || nat_beq c 0x205f
    || nat_beq c 0x3000

-- s.lstrip(), s.rstrip(), s.strip()
unfoldable pub lstrip : String → String
lstrip [] = []
lstrip (c ∷ s) = let rest = lstrip s in if is_space (code c) then rest else c ∷ s

unfoldable pub rstrip : String → String
rstrip [] = []
rstrip (c ∷ s) = let r = rstrip s in if is_empty r && is_space (code c) then [] else c ∷ r

unfoldable pub strip : String → String
unfolding lstrip rstrip is_space
strip s = rstrip (lstrip s)

-- s.split(): the words between runs of white space. `spans` gives the word that `s` begins with,
-- which may be empty, and the words after it.
abbrev pub push_word : String → List String → List String
push_word w ws = if is_empty w then ws else List.◌∷◌ w ws

unfoldable pub spans : String → String × List String
spans [] = ("", List.[])
spans (c ∷ s) =
    let (w, ws) = spans s in if is_space (code c) then ("", push_word w ws) else (c ∷ w, ws)

unfoldable pub split : String → List String
unfolding spans is_space
split s = let (w, ws) = spans s in push_word w ws

-- sep.join(xs)
unfoldable pub join : String → List String → String
join sep List.[] = ""
join sep (List.◌∷◌ x List.[]) = x
join sep (List.◌∷◌ x (List.◌∷◌ y ys)) = x ++ (sep ++ join sep (List.◌∷◌ y ys))

-- An f-string or a `%` format: its parts one after the other.
unfoldable pub concat : List String → String
concat List.[] = ""
concat (List.◌∷◌ x xs) = x ++ concat xs

-- pat in s
unfoldable pub has_part : String → String → Bool
has_part pat [] = is_empty pat
has_part pat (c ∷ s) = starts_with (c ∷ s) pat || has_part pat s

-- any(p(ord(c)) for c in s)
unfoldable pub any_code : (ℕ → Bool) → String → Bool
any_code p [] = false
any_code p (c ∷ s) = p (code c) || any_code p s

-- s.replace(x, new) for a text x of one character
unfoldable pub replace_char : ℕ → String → String → String
replace_char x new [] = []
replace_char x new (c ∷ s) =
    let rest = replace_char x new s in if nat_beq (code c) x then new ++ rest else c ∷ rest

-- str(n) of a number that is not negative; the fuel n + 1 is more than the digits of n.
unfoldable pub digit : ℕ → String
digit zero = "0"
digit (suc zero) = "1"
digit (suc (suc zero)) = "2"
digit (suc (suc (suc zero))) = "3"
digit (suc (suc (suc (suc zero)))) = "4"
digit (suc (suc (suc (suc (suc zero))))) = "5"
digit (suc (suc (suc (suc (suc (suc zero)))))) = "6"
digit (suc (suc (suc (suc (suc (suc (suc zero))))))) = "7"
digit (suc (suc (suc (suc (suc (suc (suc (suc zero)))))))) = "8"
digit n = "9"

unfoldable pub decimal_from : ℕ → ℕ → String
unfolding digit
decimal_from zero n = ""
decimal_from (suc fuel) n =
    let front = decimal_from fuel (n / 10) in if ltb n 10 then digit n else front ++ digit (n % 10)

unfoldable pub decimal : ℕ → String
unfolding decimal_from
decimal n = decimal_from (suc n) n
