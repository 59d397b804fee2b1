-- ===== src/Metrics/Labels.antt =====
-- metrics.py: the escaping of a label's value, against the exposition format's reading of it.
use nexus_controller.Prelude.{
  String, ◌≡◌, refl, ap, ◌∙◌, inl, inr, true, false, Option, none, some, arith, nat_beq,
  if◌then◌else◌, nat_beq_iff, Bool-cases, nat_eq, string_eq, pair_eq,
}
use Prim.Native.Char.{Char, code}
use Prim.Native.String
use text.Mathlib.TextLemmas.{nil-append, cons-append}
use text.Mathlib.TextEquality.{Char-path}
use nexus_controller.Prelude.Text
use nexus_controller.Metrics.{escape}

abbrev push : Char → Option (String × String) → Option (String × String)
push c none = none
push c (some (s, rest)) = some (String.◌∷◌ c s, rest)

-- What stands for an escaped character.
abbrev meant : Char → Char
meant c = if nat_beq (code c) b'n' then "\n" else c

-- The format's reader, after the quotation mark that opens a value: the value up to the mark that closes
-- it, and the text behind that. `none` where a line ends within the value.
unfoldable pub read_value : String → Option (String × String)
read_value String.[] = none
read_value (String.◌∷◌ c String.[]) = if nat_beq (code c) b'"' then some ("", "") else none
read_value (String.◌∷◌ c (String.◌∷◌ d s)) =
    let after = read_value s in
    let rest = read_value (String.◌∷◌ d s) in
    if nat_beq (code c) b'"'
    then some ("", String.◌∷◌ d s)
    else (if nat_beq (code c) 10
        then none
        else (if nat_beq (code c) b'\\' then push (meant d) after else push c rest))

-- One pass over the text instead of three.
abbrev escape_char : Char → String → String
escape_char c rest =
    if nat_beq (code c) b'\\'
    then String.◌∷◌ "\\" (String.◌∷◌ "\\" rest)
    else (if nat_beq (code c) b'"'
        then String.◌∷◌ "\\" (String.◌∷◌ "\"" rest)
        else (if nat_beq (code c) 10
            then String.◌∷◌ "\\" (String.◌∷◌ "n" rest)
            else String.◌∷◌ c rest))

pair-append :
    (a b : Char) (s : String)
    → String.◌++◌ (String.◌∷◌ a (String.◌∷◌ b String.[])) s ≡ String.◌∷◌ a (String.◌∷◌ b s)
pair-append a b s = rw cons-append (rw cons-append (rw nil-append refl))

escape-cons : (c : Char) (s : String) → escape (String.◌∷◌ c s) ≡ escape_char c (escape s)
unfolding escape Text.replace_char
escape-cons c s =
    let a = Text.replace_char b'\\' "\\\\" s in
    let b = Text.replace_char b'"' "\\\"" a in
    elim (Bool-cases (nat_beq (code c) b'\\')) [
      | inl backslash ↦ ground (
        arith,
        ap (λ t. Text.replace_char 10 "\\n" (Text.replace_char b'"' "\\\"" t))
            (pair-append "\\" "\\" a),
      )
      | inr other ↦ elim (Bool-cases (nat_beq (code c) b'"')) [
        | inl quote ↦ ground (arith, ap (Text.replace_char 10 "\\n") (pair-append "\\" "\"" b))
        | inr plain ↦ ground (arith, pair-append "\\" "n" (Text.replace_char 10 "\\n" b))
      ]
    ]

-- The character that the reader takes for the escaped one is that one.
meant_same : (c d : Char) → nat_beq (code c) (code d) ≡ true → c ≡ d
meant_same c d h = Char-path c d ((nat_beq_iff (code c) (code d)).0 h)

read_plain :
    (c : Char) (t : String)
    → nat_beq (code c) b'"' ≡ false
    → nat_beq (code c) 10 ≡ false
    → nat_beq (code c) b'\\' ≡ false
    → read_value (String.◌∷◌ c t) ≡ push c (read_value t)
unfolding read_value
read_plain c String.[] q n b = ground (arith, q)
read_plain c (String.◌∷◌ d t) q n b = ground (arith, q, n, b)

read_quote : (t : String) → read_value (String.◌∷◌ "\"" t) ≡ some ("", t)
unfolding read_value
read_quote String.[] = refl
read_quote (String.◌∷◌ d t) = refl

read_pair :
    (d : Char) (t : String)
    → read_value (String.◌∷◌ "\\" (String.◌∷◌ d t)) ≡ push (meant d) (read_value t)
unfolding read_value
read_pair d t = refl

read-escape_char : (c : Char) (t : String) → read_value (escape_char c t) ≡ push c (read_value t)
read-escape_char c t = elim (Bool-cases (nat_beq (code c) b'\\')) [
  | inl backslash ↦ ground (arith, read_pair "\\" t, meant_same c "\\" backslash)
  | inr other ↦ elim (Bool-cases (nat_beq (code c) b'"')) [
    | inl quote ↦ ground (arith, read_pair "\"" t, meant_same c "\"" quote)
    | inr unquoted ↦ elim (Bool-cases (nat_beq (code c) 10)) [
      | inl newline ↦ ground (arith, read_pair "n" t, meant_same c "\n" newline)
      | inr plain ↦ ground (arith, read_plain c t)
    ]
  ]
]

append-escape_char :
    (c : Char) (s t : String) → String.◌++◌ (escape_char c s) t ≡ escape_char c (String.◌++◌ s t)
append-escape_char c s t = elim (Bool-cases (nat_beq (code c) b'\\')) [
  | inl backslash ↦ rw backslash (rw cons-append (rw cons-append refl))
  | inr other ↦ elim (Bool-cases (nat_beq (code c) b'"')) [
    | inl quote ↦ rw (other, quote) (rw cons-append (rw cons-append refl))
    | inr unquoted ↦ elim (Bool-cases (nat_beq (code c) 10)) [
      | inl newline ↦ rw (other, unquoted, newline) (rw cons-append (rw cons-append refl))
      | inr plain ↦ rw (other, unquoted, plain) (rw cons-append refl)
    ]
  ]
]

escape-nil : escape "" ≡ ""
unfolding escape Text.replace_char
escape-nil = refl

-- Whatever a label's text, the exposition format's reader gets back exactly that text from the escaped one
-- and goes on behind the closing quotation mark: no name or error text can end its value early, break the
-- line or forge a further label.
pub read_value-escape :
    (s rest : String) → read_value (String.◌++◌ (escape s) (String.◌∷◌ "\"" rest)) ≡ some (s, rest)
read_value-escape String.[] rest = rw escape-nil (rw nil-append (read_quote rest))
read_value-escape (String.◌∷◌ c s) rest =
    ap (λ t. read_value (String.◌++◌ t (String.◌∷◌ "\"" rest))) (escape-cons c s)
    ∙ ap read_value (append-escape_char c (escape s) (String.◌∷◌ "\"" rest))
    ∙ read-escape_char c (String.◌++◌ (escape s) (String.◌∷◌ "\"" rest))
    ∙ ap (push c) (read_value-escape s rest)
