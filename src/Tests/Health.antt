-- ===== src/Tests/Health.antt =====
-- Conditions, certificates, diffs and acknowledgements at concrete inputs.
use nexus_controller.Prelude.{
  ◌≡◌, Bool, true, false, none, [], ◌∷◌, nat_eq, string_eq, pair_eq, any,
}
use nexus_controller.Monitoring.Causes.{fires_as, caused_as, causes}
use nexus_controller.Monitoring.Causes.Rows.{host_conditions-caused}
use nexus_controller.Prelude.Dict
use nexus_controller.Platform.{Platform}
use nexus_controller.Envelope.{Severity, critical, warning, info, Envelope, base_envelope}
use nexus_controller.Monitoring.Conditions.{host_conditions}
use nexus_controller.Monitoring.Snapshot.{recovered, diff_snapshots, snapshot_conditions}
use nexus_controller.Monitoring.Diff.{is_about, host_calls, diff_snapshots-calls}

abbrev plain : Platform
plain = record { lower = λ s. s; from_iso = λ s. none }

abbrev healthy : Envelope
healthy = record (base_envelope "h1" "nas") { ok = true }

abbrev stale : Envelope
stale = record healthy { stale = true; version_lag = "2.0" }

abbrev dead : Envelope
dead = record (base_envelope "h1" "nas") { error = "timed out" }

diff_snapshots-calls_example :
    any (is_about "h1" "stale" recovered) (
      diff_snapshots
        (snapshot_conditions plain 0 (stale ∷ []))
        (snapshot_conditions plain 5 (healthy ∷ [])))
    ≡ host_calls
        (Dict.get "h1" (snapshot_conditions plain 0 (stale ∷ [])))
        (Dict.get "h1" (snapshot_conditions plain 5 (healthy ∷ [])))
        "stale"
        recovered
diff_snapshots-calls_example =
    diff_snapshots-calls plain 0 5 (stale ∷ []) (healthy ∷ []) "h1" "stale" recovered

abbrev is_warning : Severity → Bool
is_warning critical = false
is_warning warning = true
is_warning info = false

-- A host with one enabled service that is dead.
abbrev limping : Envelope
limping = record stale {
  summary = record stale.summary {
    services = record { enabled = "enabled"; active = "failed" } ∷ [];
  };
}

host_conditions-caused_example :
    fires_as is_warning "services_down" (host_conditions plain 0 limping)
    ≡ caused_as is_warning "services_down" (causes plain 0 limping)
host_conditions-caused_example = host_conditions-caused plain 0 limping is_warning "services_down"
