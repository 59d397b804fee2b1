-- ===== src/Sso.antt =====
-- sso.py: `verify` with its replay cache, and `safe_next`.
pub mod Redirect
pub mod Replay
use nexus_controller.Prelude.{
  ℕ, ◌+◌, String, Bool, true, false, not, ◌&&◌, ◌||◌, Option, none, some, List, [], ◌∷◌, ltb, leb,
  nat_beq, if◌then◌else◌, ◌==◌, nat_eq, string_eq, pair_eq, select,
}
use Prim.Native.Char.{code}
use text.Mathlib.Text.{starts_with}
use nexus_controller.Prelude.Text
use nexus_controller.Prelude.Dict
use nexus_controller.Prelude.Dict.{Dict}
use nexus_controller.Prelude.Int.{ℤ, pos, negsuc}

-- A value of a JSON object as far as `verify` tells values apart; Python's True and False are the
-- numbers 1 and 0.
pub data Claim : Type 0 where
  number : ℤ → Claim
  chars : String → Claim
  other : Claim

-- What `config()` returns, with the key that `_pubkey_bytes` reads out of it.
pub record Issuer : Type 0 where
  pub issuer : String
  pub audience : String
  pub kid : String
  pub pubkey : String

-- The libraries: `json.loads` of a decoded part, `none` where it or the decoding raises or the
-- value is no object; the decoded signature, `none` where that raises; Ed25519's `verify`.
pub record Codec : Type 0 where
  pub object : String → Option (Dict String Claim)
  pub signature : String → Option String
  pub signed_by : String → String → String → Bool

abbrev pub is_text : String → Option Claim → Bool
is_text s none = false
is_text s (some (chars t)) = t == s
is_text s (some (number n)) = false
is_text s (some other) = false

-- `isinstance(v, str) and v`: the text of a claim, "" if it has none
abbrev pub claim_text : Option Claim → String
claim_text none = ""
claim_text (some (chars t)) = t
claim_text (some (number n)) = ""
claim_text (some other) = ""

abbrev pub claim_number : Option Claim → Option ℤ
claim_number none = none
claim_number (some (chars t)) = none
claim_number (some (number n)) = some n
claim_number (some other) = none

-- token.split('.')
unfoldable pub split_dot : String → List String
split_dot Prim.Native.String.String.[] = "" ∷ []
split_dot (Prim.Native.String.String.◌∷◌ c s) =
    let rest = split_dot s in
    if nat_beq (code c) b'.'
    then "" ∷ rest
    else elim rest [ [] ↦ [] | w ∷ ws ↦ Prim.Native.String.String.◌∷◌ c w ∷ ws ]

-- What an assertion claims, apart from the issuer and the audience.
pub record Assertion : Type 0 where
  pub sub : String
  pub jti : String
  pub exp : ℤ
  pub iat : ℤ

unfoldable pub header_ok : Issuer → Dict String Claim → Bool
header_ok cfg header =
    is_text "EdDSA" (Dict.get "alg" header)
    && is_text "nxa" (Dict.get "typ" header)
    && (Text.is_empty cfg.kid || is_text cfg.kid (Dict.get "kid" header))

-- The claims, once the signature has been checked.
unfoldable pub claims : Issuer → Dict String Claim → Option Assertion
claims cfg payload =
    let sub = claim_text (Dict.get "sub" payload) in
    let jti = claim_text (Dict.get "jti" payload) in
    if not (is_text cfg.issuer (Dict.get "iss" payload))
      || not (is_text cfg.audience (Dict.get "aud" payload))
      || Text.is_empty sub
      || Text.is_empty jti
    then none
    else elim (claim_number (Dict.get "exp" payload)) [
      | none ↦ none
      | some exp ↦ elim (claim_number (Dict.get "iat" payload)) [
        | none ↦ none
        | some iat ↦ some (record { sub = sub; jti = jti; exp = exp; iat = iat })
      ]
    ]

unfoldable pub open_parts : Codec → Issuer → String → String → String → Option Assertion
open_parts k cfg h p s = elim (k.object h) [
  | none ↦ none
  | some header ↦ elim (k.object p) [
    | none ↦ none
    | some payload ↦ elim (k.signature s) [
      | none ↦ none
      | some sig ↦
          if header_ok cfg header && k.signed_by cfg.pubkey (Text.concat (h ∷ "." ∷ p ∷ [])) sig
          then claims cfg payload
          else none
    ]
  ]
]

-- Everything that `verify` asks of a token but the clock and the replay cache.
unfoldable pub assertion : Codec → Option Issuer → String → Option Assertion
assertion k none token = none
assertion k (some cfg) token =
    if not (nat_beq (Text.length cfg.pubkey) 32)
    then none
    else elim (split_dot token) [ h ∷ p ∷ s ∷ [] ↦ open_parts k cfg h p s | _ ↦ none ]

abbrev pub clock_skew : ℕ
clock_skew = 30

-- `now >= exp`
abbrev pub is_over : ℕ → ℤ → Bool
is_over now (pos n) = leb n now
is_over now (negsuc n) = true

-- `iat > now + CLOCK_SKEW`
abbrev pub is_early : ℕ → ℤ → Bool
is_early now (pos n) = ltb (now + clock_skew) n
is_early now (negsuc n) = false

-- The spent assertions with the times they expire at.
abbrev pub Seen : Type 0
Seen = Dict String ℤ

abbrev pub unexpired : ℕ → Seen → Seen
unexpired now seen = select (λ p. not (is_over now p.1)) seen

unfoldable pub remember : String → ℤ → ℕ → Seen → Bool × Seen
remember jti exp now seen =
    if Dict.has jti (unexpired now seen)
    then (false, unexpired now seen)
    else (true, Dict.set jti exp (unexpired now seen))

-- The subject, if the assertion is accepted, and the cache.
unfoldable pub spend : Option Assertion → ℕ → Seen → Option String × Seen
spend none now seen = (none, seen)
spend (some a) now seen =
    if is_over now a.exp || is_early now a.iat
    then (none, seen)
    else (let (fresh, after) = remember a.jti a.exp now seen in
        (if fresh then some a.sub else none, after))

-- `now` is the whole second that the caller or `time.time()` gives.
unfoldable pub verify : Codec → Option Issuer → String → ℕ → Seen → Option String × Seen
verify k cfg token now seen = spend (assertion k cfg token) now seen

unfoldable pub safe_next : String → String
safe_next value =
    let path = Text.replace_char b'\\' "/" value in
    if Text.is_empty value
      || ltb 512 (Text.length value)
      || Text.any_code (λ c. ltb c 32 || nat_beq c 127) value
    then "/"
    else (if not (starts_with path "/") || starts_with path "//" then "/" else path)
