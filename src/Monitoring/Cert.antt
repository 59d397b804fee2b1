-- ===== src/Monitoring/Cert.antt =====
-- monitoring.py: the days that a certificate has left, and the condition that it fires.
use nexus_controller.Prelude.{
  ℕ, ◌+◌, ◌-◌, ◌*◌, ◌/◌, String, ◌≡◌, false, Option, none, some, [], ◌∷◌, arith, ltb, leb,
  if◌then◌else◌, nat_eq, string_eq, pair_eq,
}
use mathlib.Core.Option
use nexus_controller.Prelude.Text
use nexus_controller.Prelude.Int.{ℤ, pos, negsuc}
use nexus_controller.Platform.{Platform, in_utc}
use nexus_controller.Envelope.{Severity, warning, info, Cond}

abbrev pub cert_warn_days : ℕ
cert_warn_days = 14

abbrev pub cert_info_days : ℕ
cert_info_days = 30

-- 86400 seconds, in microseconds
abbrev pub day : ℕ
day = 86400000000

-- (t - now) // 86400 s: floor division, so an expiry one hour ago is -1 day.
unfoldable pub days_between : ℕ → ℕ → ℤ
days_between t now = if leb now t then pos ((t - now) / day) else negsuc ((now - t - 1) / day)

-- `now or datetime.now(utc)`: the second clock is the wall clock.
abbrev pub now_or : Option ℕ → ℕ → ℕ
now_or none clock = clock
now_or (some now) clock = now

unfoldable pub cert_days_left : Platform → String → ℕ → Option ℤ
unfolding days_between
cert_days_left p not_after now =
    if Text.is_empty not_after
    then none
    else elim (p.from_iso (Text.replace_char b'Z' "+00:00" not_after)) [
      | none ↦ none
      | some t ↦ some (days_between (in_utc t) now)
    ]

days_cond : String → Option ℤ → Option Cond
days_cond stamp none = none
days_cond stamp (some (negsuc n)) = some (record {
  severity = warning;
  detail =
      Text.concat
        ("TLS certificate expired " ∷ Text.decimal (n + 1) ∷ " day(s) ago (" ∷ stamp ∷ ")" ∷ []);
})
days_cond stamp (some (pos days)) =
    if ltb cert_info_days days
    then none
    else some (record {
      severity = if leb days cert_warn_days then warning else info;
      detail =
          Text.concat
            ("TLS certificate expires in " ∷ Text.decimal days ∷ " day(s) (" ∷ stamp ∷ ")" ∷ []);
    })

unfoldable pub cert_condition : Platform → String → ℕ → Option Cond
unfolding cert_days_left days_cond
cert_condition p not_after now = days_cond (Text.take 10 not_after) (cert_days_left p not_after now)

abbrev pub severity_of : Option Cond → Option Severity
severity_of none = none
severity_of (some c) = some c.severity

-- What the expiry of a certificate that the parser reads at `t` comes to: a warning from the 14th
-- day before it on and for ever after, an info from the 30th to the 15th day, nothing before. A
-- day counts once it is whole, so the warning starts when fewer than 15 days of 24 hours are left.
unfoldable pub expiry_severity : ℕ → ℕ → Option Severity
expiry_severity t now =
    if ltb t (now + 15 * day)
    then some warning
    else (if ltb t (now + 31 * day) then some info else none)

-- For a text that is not empty and that the parser reads as the instant `t`, the condition fires
-- with the severity that `expiry_severity` gives: below 15 whole days a warning, also once the
-- certificate has expired, below 31 whole days an info, else no condition.
pub cert_condition-severity :
    (p : Platform) (not_after : String) (now t : ℕ)
    → Text.is_empty not_after ≡ false
    → Option.map in_utc (p.from_iso (Text.replace_char b'Z' "+00:00" not_after)) ≡ some t
    → severity_of (cert_condition p not_after now) ≡ expiry_severity t now
unfolding cert_condition expiry_severity
cert_condition-severity p not_after now t h e = ground arith
