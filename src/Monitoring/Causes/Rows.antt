-- ===== src/Monitoring/Causes/Rows.antt =====
-- monitoring.py: the branches of `host_conditions`, key by key, against the table of causes.
use nexus_controller.Prelude.{
  ℕ, String, ◌≡◌, subst, inl, inr, Bool, false, arith, eq_iff, Bool-cases, ◌==◌, nat_eq, string_eq,
  pair_eq, any,
}
use nexus_controller.Prelude.Dict
use nexus_controller.Prelude.Dict.{get-set, at}
use nexus_controller.Platform.{Platform}
use nexus_controller.Envelope.{Severity, Envelope}
use nexus_controller.Monitoring.Conditions.{add, down_conditions, up_conditions, host_conditions}
use nexus_controller.Monitoring.Causes.{
  up_causes, down_causes, causes, fires_as, caused_as, fires_as-nil, cause_laws,
}

-- Both sides for one key of a host that answered.
abbrev UpAgrees : Platform → ℕ → Envelope → (Severity → Bool) → String → Type 0
UpAgrees p clock env test key =
    fires_as test key (up_conditions p clock env) ≡ caused_as test key (up_causes p clock env)

-- A split on whether a text is a given one.
by_key : (P : String → Type 0) (k key : String) → P k → ((k == key) ≡ false → P key) → P key
by_key P k key same other = elim (Bool-cases (k == key)) [
  | inl is ↦ subst P ((eq_iff k key).0 is) same
  | inr differs ↦ other differs
]

module _ (p : Platform) (clock : ℕ) (env : Envelope) (test : Severity → Bool) where
  at_alerts : UpAgrees p clock env test "alerts"
  unfolding up_conditions any
  at_alerts = simp cause_laws (ground arith)

  at_pool_degraded : UpAgrees p clock env test "pool_degraded"
  unfolding up_conditions any
  at_pool_degraded = simp cause_laws (ground arith)

  at_cluster_unhealthy : UpAgrees p clock env test "cluster_unhealthy"
  unfolding up_conditions any
  at_cluster_unhealthy = simp cause_laws (ground arith)

  at_services_down : UpAgrees p clock env test "services_down"
  unfolding up_conditions any
  at_services_down = simp cause_laws (ground arith)

  at_check_failed : UpAgrees p clock env test "check_failed"
  unfolding up_conditions any
  at_check_failed = simp cause_laws (ground arith)

  at_stale : UpAgrees p clock env test "stale"
  unfolding up_conditions any
  at_stale = simp cause_laws (ground arith)

  at_cert_expiring : UpAgrees p clock env test "cert_expiring"
  unfolding up_conditions any
  at_cert_expiring = simp cause_laws (ground arith)

  at_version_lag : UpAgrees p clock env test "version_lag"
  unfolding up_conditions any
  at_version_lag = simp cause_laws (ground arith)

  at_security_updates : UpAgrees p clock env test "security_updates"
  unfolding up_conditions any
  at_security_updates = simp cause_laws (ground arith)

  -- No condition of a host that answered has another key.
  up_other :
      (key : String)
      → ("alerts" == key) ≡ false
      → ("pool_degraded" == key) ≡ false
      → ("cluster_unhealthy" == key) ≡ false
      → ("services_down" == key) ≡ false
      → ("check_failed" == key) ≡ false
      → ("stale" == key) ≡ false
      → ("cert_expiring" == key) ≡ false
      → ("version_lag" == key) ≡ false
      → ("security_updates" == key) ≡ false
      → UpAgrees p clock env test key
  unfolding up_conditions any
  up_other key n1 n2 n3 n4 n5 n6 n7 n8 n9 = simp (cause_laws, n1, n2, n3, n4, n5, n6, n7, n8, n9)

  up_agrees : (key : String) → UpAgrees p clock env test key
  up_agrees key =
      let agrees = UpAgrees p clock env test in
      by_key agrees "alerts" key at_alerts λ n1.
        by_key agrees "pool_degraded" key at_pool_degraded λ n2.
          by_key agrees "cluster_unhealthy" key at_cluster_unhealthy λ n3.
            by_key agrees "services_down" key at_services_down λ n4.
              by_key agrees "check_failed" key at_check_failed λ n5.
                by_key agrees "stale" key at_stale λ n6.
                  by_key agrees "cert_expiring" key at_cert_expiring λ n7.
                    by_key agrees "version_lag" key at_version_lag λ n8.
                      by_key agrees "security_updates" key at_security_updates
                        λ n9. up_other key n1 n2 n3 n4 n5 n6 n7 n8 n9

  down_agrees :
      (key : String)
      → fires_as test key (down_conditions p env.error) ≡ caused_as test key (down_causes p env)
  unfolding down_conditions fires_as any add Dict.get Dict.set
  down_agrees key = ground arith

-- The conditions of a host are those of the table, whatever state it is in: for each key, a condition of
-- that key fires, with a severity that passes a test, exactly if the table has a row of that key whose cause
-- is there and whose severity passes it. A paused host has no row; one that did not answer has the changed
-- fingerprint or, without it, `unreachable`, both critical, and neither if its error has "await" in it;
-- one that answered has the nine others: alerts (listed by the agent, counted by the NAS or listed there
-- with a text), a pool that is degraded or offline, a cluster that is not healthy, a service that is enabled
-- and not active, a check that failed, a stale poll, a certificate that expires, a version that lags,
-- security updates.
pub host_conditions-caused :
    (p : Platform) (clock : ℕ) (env : Envelope) (test : Severity → Bool) (key : String)
    → fires_as test key (host_conditions p clock env) ≡ caused_as test key (causes p clock env)
unfolding host_conditions any
host_conditions-caused p clock env test key = elim (Bool-cases env.disabled) [
  | inl paused ↦ rw paused (fires_as-nil test key)
  | inr monitored ↦ elim (Bool-cases env.ok) [
    | inl up ↦ simp (monitored, up) (up_agrees p clock env test key)
    | inr down ↦ simp (monitored, down) (down_agrees p clock env test key)
  ]
]
