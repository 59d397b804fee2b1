-- ===== src/Prelude/Text/Lines.antt =====
-- Lemmas on the text helpers: what a text without certain characters keeps, and how long a cut is.
use Prim.Native.Nat.{ℕ, zero, suc, ◌+◌, ◌≤◌}
use Prim.Native.Char.{code}
use Prim.Native.String.{String, [], ◌∷◌, ◌++◌}
use mathlib.Core.Path.{◌≡◌, refl}
use mathlib.Core.Bool.{Bool, false, ◌||◌}
use mathlib.Core.List.{List}
use mathlib.Core.Logic.{inl, inr}
use native.Mathlib.Omega.{arith}
use text.Mathlib.TextLemmas.{nil-append, cons-append}
use nexus_controller.Prelude.Tests.{Bool-cases}
use nexus_controller.Prelude.Text.{
  length, take, rstrip, is_space, any_code, spans, split, push_word, join,
}

pub any_code-append :
    (p : ℕ → Bool) (s t : String) → any_code p (s ++ t) ≡ (any_code p s || any_code p t)
unfolding any_code
any_code-append p [] t = rw nil-append
any_code-append p (c ∷ s) t = rw cons-append (ground (arith, any_code-append p s t))

pub length-append : (s t : String) → length (s ++ t) ≡ length s + length t
length-append [] t = rw nil-append (omega arith)
length-append (c ∷ s) t = rw cons-append (omega (arith, length-append s t))

pub length-take-le : (n : ℕ) (s : String) → length (take n s) ≤ n
unfolding take
length-take-le zero s = omega arith
length-take-le (suc n) [] = omega arith
length-take-le (suc n) (c ∷ s) = omega (arith, length-take-le n s)

pub length-rstrip-le : (s : String) → length (rstrip s) ≤ length s
unfolding rstrip
length-rstrip-le [] = omega arith
length-rstrip-le (c ∷ s) = ground (arith, length-rstrip-le s)

pub any_code-take :
    (p : ℕ → Bool) (n : ℕ) (s : String) → any_code p s ≡ false → any_code p (take n s) ≡ false
unfolding any_code take
any_code-take p zero s h = refl
any_code-take p (suc n) [] h = refl
any_code-take p (suc n) (c ∷ s) h = ground (arith, any_code-take p n s)

pub any_code-rstrip :
    (p : ℕ → Bool) (s : String) → any_code p s ≡ false → any_code p (rstrip s) ≡ false
unfolding any_code rstrip
any_code-rstrip p [] h = refl
any_code-rstrip p (c ∷ s) h = ground (arith, any_code-rstrip p s)

-- No text of the list holds a character that passes the test.
abbrev pub NoneHas : (ℕ → Bool) → List String → Type 0
NoneHas p List.[] = Unit {0}
NoneHas p (List.◌∷◌ w ws) = (any_code p w ≡ false) × NoneHas p ws

push_word-NoneHas :
    (p : ℕ → Bool) (w : String) (ws : List String)
    → any_code p w ≡ false
    → NoneHas p ws
    → NoneHas p (push_word w ws)
push_word-NoneHas p [] ws h k = k
push_word-NoneHas p (c ∷ w) ws h k = (h, k)

spans-NoneHas :
    (s : String) → (any_code is_space (spans s).0 ≡ false) × NoneHas is_space (spans s).1
unfolding any_code spans
spans-NoneHas [] = (refl, tt)
spans-NoneHas (c ∷ s) = elim (Bool-cases (is_space (code c))) [
  | inl space ↦
      rw space (refl, push_word-NoneHas is_space _ _ (spans-NoneHas s).0 (spans-NoneHas s).1)
  | inr other ↦ rw other (rw other ((spans-NoneHas s).0), (spans-NoneHas s).1)
]

pub split-NoneHas : (s : String) → NoneHas is_space (split s)
unfolding split
split-NoneHas s = push_word-NoneHas is_space _ _ (spans-NoneHas s).0 (spans-NoneHas s).1

pub NoneHas-weaken :
    (p q : ℕ → Bool) (ws : List String)
    → ((w : String) → any_code p w ≡ false → any_code q w ≡ false)
    → NoneHas p ws
    → NoneHas q ws
NoneHas-weaken p q List.[] f h = tt
NoneHas-weaken p q (List.◌∷◌ w ws) f h = (f w h.0, NoneHas-weaken p q ws f h.1)

pub any_code-join :
    (p : ℕ → Bool) (sep : String) (ws : List String)
    → any_code p sep ≡ false
    → NoneHas p ws
    → any_code p (join sep ws) ≡ false
unfolding any_code join
any_code-join p sep List.[] hs h = refl
any_code-join p sep (List.◌∷◌ w List.[]) hs h = h.0
any_code-join p sep (List.◌∷◌ w (List.◌∷◌ v ws)) hs h =
    rw any_code-append
      (rw any_code-append (ground (arith, any_code-join p sep (List.◌∷◌ v ws) hs h.1)))
