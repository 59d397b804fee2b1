-- ===== src/Tests/Tickets.antt =====
-- Single sign-on at concrete inputs.
use nexus_controller.Prelude.{
  ℕ, zero, suc, ◌+◌, ◌-◌, ◌*◌, ◌/◌, ◌%◌, ◌≤◌, ◌<◌, max, min, String, ◌≡◌, refl, sym, ap, ◌∙◌, subst,
  ◌≢◌, ◌↔◌, ◌⊎◌, inl, inr, Bool, true, false, not, ◌&&◌, ◌||◌, Option, none, some, List, [], ◌∷◌,
  ◌++◌, map, arith, eq_iff, ltb, leb, nat_beq, if◌then◌else◌, ltb→lt, lt→ltb, leb→le, le→leb,
  leb-false→lt, nat_beq_iff, Bool-cases, Option-cases, true-and-false, Checked, ok, err, ◌==◌,
  beq_refl, nat_eq, string_eq, pair_beq, pair_beq_iff, pair_eq, length, take, length-append,
  length-take-le, select, any, length-select-le, any-map, any-select, any-ext, any-append, contains,
  contains-append, contains-select,
}
use text.Mathlib.Text.{starts_with}
use nexus_controller.Prelude.Text
use nexus_controller.Prelude.Dict.{Dict}
use nexus_controller.Prelude.Int.{pos}
use nexus_controller.Sso.{Claim, number, chars, Codec, Issuer, Seen, verify, safe_next}
use nexus_controller.Sso.Redirect.{is_control, safe_next-local}
use nexus_controller.Sso.Replay.{arrivals, verify-single_use}

abbrev portal : Issuer
portal = record {
  issuer = "https://id";
  audience = "ctl";
  kid = "";
  pubkey = "0123456789abcdef0123456789abcdef";
}

abbrev header : Dict String Claim
header = ("alg", chars "EdDSA") ∷ ("typ", chars "nxa") ∷ []

abbrev payload : Dict String Claim
payload =
    ("iss", chars "https://id")
    ∷ ("aud", chars "ctl")
    ∷ ("sub", chars "ann")
    ∷ ("jti", chars "t1")
    ∷ ("exp", number (pos 160))
    ∷ ("iat", number (pos 100))
    ∷ []

-- A part "h" is the header, every other part is the payload.
abbrev codec : Codec
codec = record {
  object = λ s. if s == "h" then some header else some payload;
  signature = λ s. some s;
  signed_by = λ key message sig. sig == "ok";
}

ann_in : (verify codec (some portal) "h.p.ok" 110 []).0 ≡ some "ann"
unfolding verify nexus_controller.Sso.spend nexus_controller.Sso.assertion
    nexus_controller.Sso.split_dot nexus_controller.Sso.open_parts nexus_controller.Sso.header_ok
    nexus_controller.Prelude.Dict.get nexus_controller.Sso.claims nexus_controller.Sso.remember
    nexus_controller.Prelude.Dict.has select
ann_in = refl

verify-single_use_example :
    (verify codec (some portal) "h.p.ok" 130 (
      arrivals codec
        (some portal)
        ((120, "h.p.bad") ∷ [])
        (verify codec (some portal) "h.p.ok" 110 []).1)).0
    ≡ none
verify-single_use_example =
    verify-single_use codec (some portal) "h.p.ok" "ann" 110 130 ((120, "h.p.bad") ∷ []) []
      (omega arith, tt) ann_in

safe_next-local_example :
    (starts_with (safe_next "/a\\b") "/" ≡ true)
    × (starts_with (safe_next "/a\\b") "//" ≡ false)
    × (Text.any_code (nat_beq b'\\') (safe_next "/a\\b") ≡ false)
    × (Text.any_code is_control (safe_next "/a\\b") ≡ false)
    × (Text.length (safe_next "/a\\b") ≤ 512)
safe_next-local_example = safe_next-local "/a\\b"
