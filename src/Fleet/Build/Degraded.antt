-- ===== src/Fleet/Build/Degraded.antt =====
-- app.py: how the roll-up counts the hosts of a payload that was built.
use nexus_controller.Prelude.{
  ℕ, zero, suc, max, String, ◌≡◌, refl, sym, ap, ◌∙◌, inl, inr, Bool, true, false, not, ◌&&◌, ◌||◌,
  Option, none, some, List, [], ◌∷◌, arith, ltb, nat_beq, if◌then◌else◌, ltb→lt, lt→ltb,
  Option-cases, ◌==◌, nat_eq, string_eq, pair_eq, length, select, any,
}
use mathlib.Core.Bool.{and-true, and-false}
use nexus_controller.Prelude.Dict
use nexus_controller.Prelude.Dict.{Dict, at, get-set}
use nexus_controller.Platform.{Platform}
use nexus_controller.Envelope.{Severity, Cond, Ack, Entry, Envelope}
use nexus_controller.Monitoring.Conditions.{
  Conds, add, add_opt, up_conditions, n_alerts, services_down, failed_checks, host_conditions,
  is_alerting, health_entries, has_failed,
}
use nexus_controller.Monitoring.Fires.{host_conditions-up, health_entries-fires}
use nexus_controller.Monitoring.Acks.{Acks, current_ack, split_acked}
use nexus_controller.Fleet.{is_there, host_alerts, is_degraded}
use nexus_controller.Fleet.Build.{if_any, fold_health}

abbrev alarms : String → Conds → Bool
alarms key conds = at (λ c. is_alerting c.severity) (Dict.get key conds)

alarms-add :
    (test : Bool) (k j : String) (s : Severity) (t : String) (conds : Conds)
    → alarms j (add test k s t conds) ≡ (if test && k == j then is_alerting s else alarms j conds)
unfolding add
alarms-add test k j s t conds =
    ground (arith, get-set k j (record { severity = s; detail = t }) conds)

alarms-cert :
    (k j : String) (c : Option Cond) (conds : Conds)
    → alarms j (add_opt k c conds)
      ≡ (if is_there c && k == j then at (λ x. is_alerting x.severity) c else alarms j conds)
unfolding add_opt
alarms-cert k j none conds = refl
alarms-cert k j (some c) conds = ground (arith, get-set k j c conds)

unfoldable alarm : String → Conds → Bool
alarm key conds = alarms key conds

alarm-add :
    (test : Bool) (k j : String) (s : Severity) (t : String) (conds : Conds)
    → alarm j (add test k s t conds) ≡ (if test && k == j then is_alerting s else alarm j conds)
unfolding alarm
alarm-add test k j s t conds = alarms-add test k j s t conds

alarm-add_opt :
    (k j : String) (c : Option Cond) (conds : Conds)
    → alarm j (add_opt k c conds)
      ≡ (if is_there c && k == j then at (λ x. is_alerting x.severity) c else alarm j conds)
unfolding alarm
alarm-add_opt k j c conds = alarms-cert k j c conds

alarm-nil : (j : String) → alarm j [] ≡ false
unfolding alarm Dict.get
alarm-nil j = refl

ruleset alarm_laws = (alarm-add, alarm-add_opt, alarm-nil, and-true, and-false)

module _ (p : Platform) (clock : ℕ) (env : Envelope) where
  alerts-alarm : alarm "alerts" (up_conditions p clock env) ≡ ltb 0 (n_alerts env)
  unfolding up_conditions
  alerts-alarm = simp alarm_laws (ground arith)

  services-alarm :
      alarm "services_down" (up_conditions p clock env) ≡ ltb 0 (services_down env.summary)
  unfolding up_conditions
  services-alarm = simp alarm_laws (ground arith)

  pools-alarm :
      alarm "pool_degraded" (up_conditions p clock env)
      ≡ (ltb 0 env.nas.pools_degraded || ltb 0 env.summary.zfs_pools && not env.summary.zfs_online)
  unfolding up_conditions
  pools-alarm = simp alarm_laws (ground arith)

  stale-alarm : alarm "stale" (up_conditions p clock env) ≡ env.stale
  unfolding up_conditions
  stale-alarm = simp alarm_laws (ground arith)

  checks-alarm :
      alarm "check_failed" (up_conditions p clock env) ≡ ltb 0 (length (failed_checks env))
  unfolding up_conditions
  checks-alarm = simp alarm_laws (ground arith)

positive : (n : ℕ) → not (nat_beq n 0) ≡ ltb 0 n
positive zero = refl
positive (suc n) = ground arith

any-length : {A : Type 0} (q : A → Bool) (xs : List A) → any q xs ≡ ltb 0 (length (select q xs))
unfolding any select
any-length q [] = refl
any-length q (x ∷ xs) = ground (arith, any-length q xs)

max-positive : (m n : ℕ) → ltb 0 m ≡ true → ltb 0 (max m n) ≡ true
max-positive m n h = lt→ltb 0 (max m n) (ground (arith, ltb→lt 0 m))

alerts-count : (env : Envelope) → ltb 0 (host_alerts env) ≡ true → ltb 0 (n_alerts env) ≡ true
unfolding n_alerts
alerts-count env h = max-positive (host_alerts env) _ h

-- An entry of the health list for each alarm.
entry-of :
    (p : Platform) (clock : ℕ) (env : Envelope) (key : String)
    → health_entries p clock env ≡ []
    → alarm key (host_conditions p clock env) ≡ false
unfolding alarm any
entry-of p clock env key none_there = ground (
  arith,
  health_entries-fires p clock env key (λ s. true),
  ap (any (λ e. e.key == key && true)) none_there,
)

-- What the roll-up looks at in an envelope without a health list is a condition of the host.
raw-clean :
    (p : Platform) (clock : ℕ) (env : Envelope)
    → env.disabled ≡ false
    → env.ok ≡ true
    → env.health ≡ none
    → env.health_acked ≡ none
    → health_entries p clock env ≡ []
    → is_degraded env ≡ false
unfolding is_degraded failed_checks
raw-clean p clock env monitored up unset unacked clean =
    let quiet = λ (key : String).
      ap (alarm key) (sym (host_conditions-up p clock env monitored up))
      ∙ entry-of p clock env key clean in
    ground (
      arith,
      unset,
      unacked,
      quiet "alerts",
      quiet "services_down",
      quiet "pool_degraded",
      quiet "stale",
      quiet "check_failed",
      alerts-alarm p clock env,
      services-alarm p clock env,
      pools-alarm p clock env,
      stale-alarm p clock env,
      checks-alarm p clock env,
      alerts-count env,
      positive (host_alerts env),
      positive (services_down env.summary),
      positive env.summary.zfs_pools,
      positive env.nas.pools_degraded,
      any-length has_failed env.svc_checks,
    )

split-nothing :
    (entries : List Entry) (acks : Acks) (id : String) (now : ℕ)
    → (split_acked entries acks id now).0 ≡ []
    → (split_acked entries acks id now).1 ≡ []
    → entries ≡ []
unfolding split_acked
split-nothing [] acks id now h k = refl
split-nothing (e ∷ entries) acks id now h k = elim (Option-cases (current_ack acks id now e)) [
  | inl open_one ↦ ground arith
  | inr (a, is) ↦ ground arith
]

folded :
    (env : Envelope) (live : List Entry) (acked : List (Entry × Ack))
    → env.health ≡ none
    → env.health_acked ≡ none
    → (live ≡ [] → acked ≡ [] → is_degraded env ≡ false)
    → is_degraded (record env {
      health = if_any live env.health;
      health_acked = if_any acked env.health_acked;
    })
      ≡ not (nat_beq (length live) 0)
unfolding is_degraded
folded env [] [] unset unacked clean = ground (arith, clean refl refl)
folded env [] (a ∷ acked) unset unacked clean = ground arith
folded env (e ∷ live) acked unset unacked clean = ground arith

-- The roll-up of a payload that was built counts a host that answers as degraded exactly if the host has a
-- condition of the severity warning or higher that nobody has acknowledged.
pub fold_health-degraded :
    (p : Platform) (clock : ℕ) (acks : Acks) (env : Envelope)
    → env.disabled ≡ false
    → env.ok ≡ true
    → env.health ≡ none
    → env.health_acked ≡ none
    → is_degraded (fold_health p clock acks env)
      ≡ not (nat_beq (length (split_acked (health_entries p clock env) acks env.id clock).0) 0)
unfolding fold_health
fold_health-degraded p clock acks env monitored up unset unacked =
    let entries = health_entries p clock env in
    let split = split_acked entries acks env.id clock in
    folded env split.0 split.1 unset unacked (λ none_live none_acked.
      raw-clean p clock env monitored up unset unacked
        (split-nothing entries acks env.id clock none_live none_acked))
