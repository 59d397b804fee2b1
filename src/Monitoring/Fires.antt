-- ===== src/Monitoring/Fires.antt =====
-- What `host_conditions` fires for a host, and which of it reaches the status dot.
use mathlib.Core.Bool.{and-true, and-false, or-false, or_comm}
use nexus_controller.Prelude.{
  ℕ, String, ◌≡◌, refl, ◌∙◌, Bool, true, false, not, ◌&&◌, ◌||◌, Option, none, some, [], arith, ltb,
  if◌then◌else◌, ◌==◌, nat_eq, string_eq, pair_eq, length, any, any-map, any-select, any-ext,
}
use nexus_controller.Prelude.Text
use nexus_controller.Prelude.Dict
use nexus_controller.Prelude.Dict.{has-set, unique-set, any-at, at}
use nexus_controller.Platform.{Platform}
use nexus_controller.Envelope.{Severity, Cond, Envelope}
use nexus_controller.Monitoring.Cert.{cert_condition, now_or}
use nexus_controller.Monitoring.Conditions.{
  Conds, add, add_opt, n_alerts, services_down, failed_checks, is_unhealthy, down_conditions,
  up_conditions, host_conditions, is_alerting, health_entries,
}

and_swap : (a b c : Bool) → (a && (b && c)) ≡ (b && (a && c))
and_swap a b c = ground arith

has-add :
    (test : Bool) (k j : String) (s : Severity) (t : String) (conds : Conds)
    → Dict.has j (add test k s t conds) ≡ (test && k == j || Dict.has j conds)
unfolding add
has-add test k j s t conds = ground (arith, has-set k j (record { severity = s; detail = t }) conds)

abbrev pub is_some {ℓ} : {A : Type ℓ} → Option A → Bool
is_some none = false
is_some (some a) = true

has-add_opt :
    (k j : String) (c : Option Cond) (conds : Conds)
    → Dict.has j (add_opt k c conds) ≡ (is_some c && k == j || Dict.has j conds)
unfolding add_opt
has-add_opt k j none conds = refl
has-add_opt k j (some c) conds = has-set k j c conds

abbrev pub fires : Platform → ℕ → Envelope → String → Bool
fires p clock env key = Dict.has key (host_conditions p clock env)

pub host_conditions-up :
    (p : Platform) (clock : ℕ) (env : Envelope)
    → env.disabled ≡ false
    → env.ok ≡ true
    → host_conditions p clock env ≡ up_conditions p clock env
unfolding host_conditions
host_conditions-up p clock env monitored up = ground arith

ruleset conds_laws = (has-add, has-add_opt, and-true, and-false, or-false)

-- For a host that is monitored and answered, each condition fires exactly when its cause is there;
-- a degraded NAS pool and an offline ZFS pool are the same condition, and no condition of an
-- unreachable host fires.
pub up_fires :
    (p : Platform) (clock : ℕ) (env : Envelope)
    → env.disabled ≡ false
    → env.ok ≡ true
    → (fires p clock env "alerts" ≡ ltb 0 (n_alerts env))
      × (fires p clock env "pool_degraded" ≡ (
          ltb 0 env.nas.pools_degraded
          || ltb 0 env.summary.zfs_pools && not env.summary.zfs_online))
      × (fires p clock env "cluster_unhealthy" ≡ is_unhealthy env.spark_healthy)
      × (fires p clock env "services_down" ≡ ltb 0 (services_down env.summary))
      × (fires p clock env "check_failed" ≡ ltb 0 (length (failed_checks env)))
      × (fires p clock env "stale" ≡ env.stale)
      × (fires p clock env "cert_expiring"
          ≡ is_some (cert_condition p env.cert_not_after (now_or env.now clock)))
      × (fires p clock env "version_lag" ≡ not (Text.is_empty env.version_lag))
      × (fires p clock env "security_updates" ≡ ltb 0 env.summary.updates_security)
      × (fires p clock env "unreachable" ≡ false)
      × (fires p clock env "cert_changed" ≡ false)
unfolding up_conditions Dict.has
up_fires p clock env monitored up = rw (host_conditions-up p clock env monitored up) (
    simp conds_laws (
      refl,
      or_comm (ltb 0 env.summary.zfs_pools && not env.summary.zfs_online)
          (ltb 0 env.nas.pools_degraded),
      refl,
      refl,
      refl,
      refl,
      refl,
      refl,
      refl,
      refl,
      refl,
    ))

-- A host that is monitored and did not answer fires nothing while it waits for its first poll, and
-- else one critical condition alone: a changed fingerprint if its error says so, else
-- `unreachable`. None of its other conditions fire, whatever its last envelope says.
pub down_fires :
    (p : Platform) (clock : ℕ) (env : Envelope) (key : String)
    → env.disabled ≡ false
    → env.ok ≡ false
    → fires p clock env key ≡ (
        not (Text.has_part "await" (p.lower env.error))
        && (if Text.has_part "fingerprint changed" (p.lower env.error)
            then "cert_changed" == key
            else "unreachable" == key))
unfolding host_conditions down_conditions add Dict.has Dict.set
down_fires p clock env key monitored down = ground arith

-- A paused host fires nothing.
pub paused_fires :
    (p : Platform) (clock : ℕ) (env : Envelope) (key : String)
    → env.disabled ≡ true
    → fires p clock env key ≡ false
unfolding host_conditions Dict.has
paused_fires p clock env key paused = ground arith

unique-add :
    (test : Bool) (k : String) (s : Severity) (t : String) (conds : Conds)
    → Dict.unique conds ≡ true
    → Dict.unique (add test k s t conds) ≡ true
unfolding add
unique-add true k s t conds h = unique-set k _ conds h
unique-add false k s t conds h = h

unique-add_opt :
    (k : String) (c : Option Cond) (conds : Conds)
    → Dict.unique conds ≡ true
    → Dict.unique (add_opt k c conds) ≡ true
unfolding add_opt
unique-add_opt k none conds h = h
unique-add_opt k (some c) conds h = unique-set k c conds h

unique-nil : Dict.unique {K = String} {V = Cond} [] ≡ true
unfolding Dict.unique
unique-nil = refl

unique-up :
    (p : Platform) (clock : ℕ) (env : Envelope) → Dict.unique (up_conditions p clock env) ≡ true
unfolding up_conditions
unique-up p clock env = search (unique-add, unique-add_opt, unique-nil) depth 12

unique-down : (p : Platform) (err : String) → Dict.unique (down_conditions p err) ≡ true
unfolding down_conditions add Dict.unique Dict.set Dict.has
unique-down p err = ground arith

pub unique-host_conditions :
    (p : Platform) (clock : ℕ) (env : Envelope) → Dict.unique (host_conditions p clock env) ≡ true
unfolding host_conditions
unique-host_conditions p clock env =
    ground (arith, unique-up p clock env, unique-down p env.error, unique-nil)

-- The status dot's list holds an entry with a key and a severity exactly when the host fires that
-- condition with that severity and it is a warning or critical: conditions of level info never
-- reach the dot.
pub health_entries-fires :
    (p : Platform) (clock : ℕ) (env : Envelope) (key : String) (test : Severity → Bool)
    → any (λ e. e.key == key && test e.severity) (health_entries p clock env)
      ≡ at
          (λ c. is_alerting c.severity && test c.severity)
          (Dict.get key (host_conditions p clock env))
unfolding health_entries
health_entries-fires p clock env key test =
    rw (any-map, any-select)
      (any-ext _ _ (host_conditions p clock env)
          (λ kc. and_swap (is_alerting kc.1.severity) (kc.0 == key) (test kc.1.severity))
        ∙ any-at (λ c. is_alerting c.severity && test c.severity) key (host_conditions p clock env)
            (unique-host_conditions p clock env))
