-- ===== src/Sso/Redirect.antt =====
-- sso.py: where `safe_next` may send the browser.
use nexus_controller.Prelude.{
  ℕ, ◌≤◌, String, ◌≡◌, refl, ap, ◌⊎◌, inl, inr, Bool, true, false, not, ◌||◌, arith, ltb, nat_beq,
  if◌then◌else◌, nat_beq_iff, nat_eq, string_eq, pair_eq,
}
use Prim.Native.Char.{code}
use text.Mathlib.Text.{starts_with}
use text.Mathlib.TextLemmas.{nil-append, cons-append}
use nexus_controller.Prelude.Text
use nexus_controller.Sso.{safe_next}

abbrev pub is_control : ℕ → Bool
is_control c = ltb c 32 || nat_beq c 127

slashes : String → String
slashes = Text.replace_char b'\\' "/"

cons-slash : (s : String) → Prim.Native.String.◌++◌ "/" s ≡ Prim.Native.String.String.◌∷◌ "/" s
cons-slash s = rw cons-append (rw nil-append refl)

length-slashes : (s : String) → Text.length (slashes s) ≡ Text.length s
unfolding slashes Text.replace_char
length-slashes Prim.Native.String.String.[] = refl
length-slashes (Prim.Native.String.String.◌∷◌ c s) =
    ground (arith, length-slashes s, ap Text.length (cons-slash (slashes s)))

no_backslash : (s : String) → Text.any_code (nat_beq b'\\') (slashes s) ≡ false
unfolding slashes Text.replace_char Text.any_code
no_backslash Prim.Native.String.String.[] = refl
no_backslash (Prim.Native.String.String.◌∷◌ c s) = ground (
  arith,
  no_backslash s,
  ap (Text.any_code (nat_beq b'\\')) (cons-slash (slashes s)),
  nat_beq_iff b'\\' (code c),
  nat_beq_iff (code c) b'\\',
)

no_control :
    (s : String) → Text.any_code is_control s ≡ false → Text.any_code is_control (slashes s) ≡ false
unfolding slashes Text.replace_char Text.any_code
no_control Prim.Native.String.String.[] h = refl
no_control (Prim.Native.String.String.◌∷◌ c s) h =
    ground (arith, no_control s, ap (Text.any_code is_control) (cons-slash (slashes s)))

pick :
    (bad away : Bool) (path : String)
    → ((if bad then "/" else (if away then "/" else path)) ≡ "/")
      ⊎ (((if bad then "/" else (if away then "/" else path)) ≡ path)
          × (bad ≡ false)
          × (away ≡ false))
pick true away path = inl refl
pick false true path = inl refl
pick false false path = inr (refl, refl, refl)

-- Whatever the caller supplies, the redirect is a path of this site: it begins with one slash and
-- not with two, holds no backslash and no control character, and is at most 512 characters long.
pub safe_next-local :
    (value : String)
    → (starts_with (safe_next value) "/" ≡ true)
      × (starts_with (safe_next value) "//" ≡ false)
      × (Text.any_code (nat_beq b'\\') (safe_next value) ≡ false)
      × (Text.any_code is_control (safe_next value) ≡ false)
      × (Text.length (safe_next value) ≤ 512)
unfolding safe_next slashes Text.any_code
safe_next-local value =
    let bad =
      Text.is_empty value || ltb 512 (Text.length value) || Text.any_code is_control value in
    let away = not (starts_with (slashes value) "/") || starts_with (slashes value) "//" in
    elim (pick bad away (slashes value)) [
      | inl root ↦ rw root (refl, refl, refl, refl, omega arith)
      | inr (kept, clean, inside) ↦ rw kept (
        ground arith,
        ground arith,
        no_backslash value,
        no_control value (ground arith),
        ground (arith, length-slashes value),
      )
    ]
