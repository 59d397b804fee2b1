-- ===== src/Adapters/Errors.antt =====
-- adapters/base.py: `friendly_error` and its table of transport failures.
use nexus_controller.Prelude.{
  ◌≤◌, String, ◌≡◌, refl, ◌⊎◌, inl, inr, Bool, true, false, not, ◌||◌, Option, none, some, List, [],
  ◌∷◌, arith, leb, if◌then◌else◌, leb→le, Bool-cases, Option-cases, nat_eq, string_eq, pair_eq, any,
}
use nexus_controller.Prelude.Text
use text.Mathlib.Text.{starts_with}
use nexus_controller.Platform.{Platform}
use nexus_controller.Envelope.{Envelope}
use nexus_controller.Prelude.Text.Lines.{
  length-append as text_length-append, length-take-le as text_length-take-le,
}

-- _FRIENDLY_PATTERNS, the most specific first
unfoldable pub friendly_patterns : List (String × String)
friendly_patterns =
    ("no route to host", "no route to host")
    ∷ ("connection refused", "connection refused")
    ∷ ("name or service not known", "DNS lookup failed")
    ∷ ("failed to resolve", "DNS lookup failed")
    ∷ ("getaddrinfo", "DNS lookup failed")
    ∷ ("timed out", "timed out")
    ∷ ("timeout", "timed out")
    ∷ ("connection aborted", "connection dropped")
    ∷ ("connection reset", "connection dropped")
    ∷ ("certificate", "TLS error")
    ∷ ("ssl", "TLS error")
    ∷ ("newconnectionerror", "connection failed")
    ∷ ("max retries exceeded", "connection failed")
    ∷ []

-- The loop: the reason of the first pattern in the text.
unfoldable pub first_reason : String → List (String × String) → Option String
first_reason low [] = none
first_reason low ((pat, reason) ∷ patterns) =
    let rest = first_reason low patterns in if Text.has_part pat low then some reason else rest

-- A message that other layers go by, which stays as it is.
unfoldable pub is_verbatim : String → Bool
is_verbatim low = Text.has_part "fingerprint changed" low || starts_with low "await"

-- s if len(s) <= 120 else s[:117] + '…'
unfoldable pub shorten : String → String
shorten s = if leb (Text.length s) 120 then s else Text.concat (Text.take 117 s ∷ "…" ∷ [])

unfoldable pub friendly_error : (String → String) → String → String
friendly_error lower raw =
    let s = Text.strip raw in
    let low = lower s in
    if is_verbatim low
    then s
    else elim (first_reason low friendly_patterns) [ none ↦ shorten s | some reason ↦ reason ]

reasons_short :
    (low : String) (patterns : List (String × String)) (reason : String)
    → any (λ p. not (leb (Text.length p.1) 120)) patterns ≡ false
    → first_reason low patterns ≡ some reason
    → leb (Text.length reason) 120 ≡ true
unfolding first_reason any
reasons_short low [] reason h is = ground arith
reasons_short low ((pat, r) ∷ patterns) reason h is = elim (Bool-cases (Text.has_part pat low)) [
  | inl found ↦ ground arith
  | inr absent ↦ ground (arith, reasons_short low patterns reason)
]

table_short : any (λ p. not (leb (Text.length p.1) 120)) friendly_patterns ≡ false
unfolding any friendly_patterns
table_short = refl

cut_short : (s : String) → Text.length (Text.concat (Text.take 117 s ∷ "…" ∷ [])) ≤ 120
unfolding Text.concat
cut_short s = rw text_length-append (omega (arith, text_length-take-le 117 s))

shorten-short : (s : String) → Text.length (shorten s) ≤ 120
unfolding shorten
shorten-short s = elim (Bool-cases (leb (Text.length s) 120)) [
  | inl short ↦ rw short (leb→le (Text.length s) 120 short)
  | inr long ↦ rw long (cut_short s)
]

-- A reason that the fleet shows is at most 120 characters long, or it is one of the messages that other
-- layers go by, unchanged but for the space around it.
pub friendly_error-short :
    (lower : String → String) (raw : String)
    → (Text.length (friendly_error lower raw) ≤ 120)
      ⊎ ((is_verbatim (lower (Text.strip raw)) ≡ true)
          × (friendly_error lower raw ≡ Text.strip raw))
unfolding friendly_error
friendly_error-short lower raw =
    let s = Text.strip raw in
    elim (Bool-cases (is_verbatim (lower s))) [
      | inl kept ↦ inr (kept, rw kept refl)
      | inr other ↦ elim (Option-cases (first_reason (lower s) friendly_patterns)) [
        | inl unknown ↦ inl (rw (other, unknown) (shorten-short s))
        | inr (reason, is) ↦ inl (
            rw (other, is)
              (leb→le (Text.length reason) 120
                (reasons_short (lower s) friendly_patterns reason table_short is)))
      ]
    ]
