-- ===== src/Monitoring/Causes.antt =====
-- monitoring.py: `host_conditions` against a table of causes, row by row.
pub mod Rows
use nexus_controller.Prelude.{
  ℕ, zero, suc, ◌+◌, ◌-◌, ◌*◌, ◌/◌, ◌%◌, ◌≤◌, ◌<◌, max, min, String, ◌≡◌, refl, sym, ap, ◌∙◌, subst,
  ◌≢◌, ◌↔◌, ◌⊎◌, inl, inr, Bool, true, false, not, ◌&&◌, ◌||◌, Option, none, some, List, [], ◌∷◌,
  ◌++◌, map, arith, eq_iff, ltb, leb, nat_beq, if◌then◌else◌, ltb→lt, lt→ltb, leb→le, le→leb,
  leb-false→lt, nat_beq_iff, Bool-cases, Option-cases, true-and-false, Checked, Checked-cases,
  ok-injective, ok, err, ◌==◌, beq_refl, nat_eq, string_eq, pair_beq, pair_beq_iff, pair_eq, length,
  take, length-append, length-take-le, select, any, length-select-le, any-map, any-select, any-ext,
  any-append, contains, contains-append, contains-select,
}
use mathlib.Core.Bool.{and-true, and-false, or-false, or_comm}
use nexus_controller.Prelude.Text
use nexus_controller.Prelude.Dict
use nexus_controller.Prelude.Dict.{get-set, at}
use nexus_controller.Platform.{Platform}
use nexus_controller.Envelope.{
  Severity, critical, warning, info, Cond, Service, CheckView, Envelope,
}
use nexus_controller.Monitoring.Alerts.{one_line, alert_text_max}
use nexus_controller.Monitoring.Cert.{cert_condition, now_or}
use nexus_controller.Monitoring.Conditions.{
  Conds, add, add_opt, alert_texts, is_down, services_down, has_failed, failed_checks, n_alerts,
  is_unhealthy, down_conditions, up_conditions, host_conditions,
}

-- A condition, how severe it is, and whether its cause is there.
pub record Cause : Type 0 where
  pub key : String
  pub severity : Severity
  pub holds : Bool

abbrev pub severity_or_info : Option Cond → Severity
severity_or_info none = info
severity_or_info (some c) = c.severity

abbrev pub is_some {ℓ} : {A : Type ℓ} → Option A → Bool
is_some none = false
is_some (some a) = true

-- Alerts: the agent lists one, the NAS counts one, or the NAS lists one that is not blank.
abbrev pub has_alert : Envelope → Bool
has_alert env =
    ltb 0 (length env.summary.alerts)
    || ltb 0 env.nas.alerts
    || any (λ a. not (Text.is_empty (one_line a alert_text_max))) env.nas.alert_list

abbrev pub is_dead_service : Service → Bool
is_dead_service sv = sv.enabled == "enabled" && not (sv.active == "active")

abbrev pub up_causes : Platform → ℕ → Envelope → List Cause
up_causes p clock env =
    let cert = cert_condition p env.cert_not_after (now_or env.now clock) in
    record { key = "alerts"; severity = warning; holds = has_alert env }
    ∷ record {
      key = "pool_degraded";
      severity = critical;
      holds =
          ltb 0 env.nas.pools_degraded || ltb 0 env.summary.zfs_pools && not env.summary.zfs_online;
    }
    ∷ record { key = "cluster_unhealthy"; severity = critical; holds = at not env.spark_healthy }
    ∷ record {
      key = "services_down";
      severity = warning;
      holds = any is_dead_service env.summary.services;
    }
    ∷ record {
      key = "check_failed";
      severity = warning;
      holds = any (λ (c : CheckView). at not c.ok) env.svc_checks;
    }
    ∷ record { key = "stale"; severity = warning; holds = env.stale }
    ∷ record { key = "cert_expiring"; severity = severity_or_info cert; holds = is_some cert }
    ∷ record { key = "version_lag"; severity = info; holds = not (Text.is_empty env.version_lag) }
    ∷ record {
      key = "security_updates";
      severity = info;
      holds = ltb 0 env.summary.updates_security;
    }
    ∷ []

abbrev pub down_causes : Platform → Envelope → List Cause
down_causes p env =
    let waits = Text.has_part "await" (p.lower env.error) in
    let repinned = Text.has_part "fingerprint changed" (p.lower env.error) in
    record { key = "cert_changed"; severity = critical; holds = not waits && repinned }
    ∷ record { key = "unreachable"; severity = critical; holds = not waits && not repinned }
    ∷ []

-- A paused host has no cause, one that did not answer only those of its error.
abbrev pub causes : Platform → ℕ → Envelope → List Cause
causes p clock env =
    if env.disabled then [] else (if env.ok then up_causes p clock env else down_causes p env)

-- The condition of the key fires with a severity that passes the test.
unfoldable pub fires_as : (Severity → Bool) → String → Conds → Bool
fires_as test key conds = at (λ c. test c.severity) (Dict.get key conds)

abbrev pub caused_as : (Severity → Bool) → String → List Cause → Bool
caused_as test key rows = any (λ r. r.key == key && (r.holds && test r.severity)) rows

pub fires_as-add :
    (test : Severity → Bool) (j : String) (b : Bool) (k : String) (s : Severity) (t : String)
    (conds : Conds)
    → fires_as test j (add b k s t conds) ≡ (if b && k == j then test s else fires_as test j conds)
unfolding add fires_as
fires_as-add test j true k s t conds =
    ground (arith, get-set k j (record { severity = s; detail = t }) conds)
fires_as-add test j false k s t conds = refl

pub fires_as-add_opt :
    (test : Severity → Bool) (j k : String) (c : Option Cond) (conds : Conds)
    → fires_as test j (add_opt k c conds)
      ≡ (if is_some c && k == j then test (severity_or_info c) else fires_as test j conds)
unfolding add_opt fires_as
fires_as-add_opt test j k none conds = refl
fires_as-add_opt test j k (some c) conds = ground (arith, get-set k j c conds)

pub fires_as-nil : (test : Severity → Bool) (j : String) → fires_as test j [] ≡ false
unfolding fires_as Dict.get
fires_as-nil test j = refl

any-length : {A : Type 0} (q : A → Bool) (xs : List A) → ltb 0 (length (select q xs)) ≡ any q xs
unfolding any select
any-length q [] = refl
any-length q (x ∷ xs) = elim (Bool-cases (q x)) [
  | inl one ↦ rw one (ground arith)
  | inr other ↦ rw other (any-length q xs)
]

pub services_down-any :
    (env : Envelope) → ltb 0 (services_down env.summary) ≡ any is_dead_service env.summary.services
unfolding services_down is_down
services_down-any env = any-length is_dead_service env.summary.services

pub failed_checks-any :
    (env : Envelope)
    → ltb 0 (length (failed_checks env)) ≡ any (λ (c : CheckView). at not c.ok) env.svc_checks
unfolding failed_checks
failed_checks-any env =
    any-length has_failed env.svc_checks
    ∙ any-ext has_failed (λ c. at not c.ok) env.svc_checks (λ c. ground arith)

texts-any :
    (alerts : List String)
    → ltb 0 (length (alert_texts alerts))
      ≡ any (λ a. not (Text.is_empty (one_line a alert_text_max))) alerts
unfolding alert_texts
texts-any alerts =
    any-length (λ t. not (Text.is_empty t)) (map (λ a. one_line a alert_text_max) alerts)
    ∙ any-map (λ t. not (Text.is_empty t)) (λ a. one_line a alert_text_max) alerts

texts-le : (alerts : List String) → length (alert_texts alerts) ≤ length alerts
unfolding alert_texts select
texts-le [] = omega arith
texts-le (a ∷ alerts) = ground (arith, texts-le alerts)

pub n_alerts-any : (env : Envelope) → ltb 0 (n_alerts env) ≡ has_alert env
unfolding n_alerts
n_alerts-any env = rw (← texts-any env.nas.alert_list) (
    ground (
      arith,
      length-append (alert_texts env.summary.alerts) (alert_texts env.nas.alert_list),
      texts-le env.summary.alerts,
    ))

pub same_unhealthy : (o : Option Bool) → is_unhealthy o ≡ at not o
same_unhealthy none = refl
same_unhealthy (some b) = refl

pub ruleset cause_laws = (
  fires_as-add, fires_as-add_opt, fires_as-nil, services_down-any, failed_checks-any, n_alerts-any,
  same_unhealthy, and-true, and-false, or-false,
)
