-- ===== src/Fleet/Build.antt =====
-- app.py: `_disabled_envelope`, `scoped_fleet` and `_build_fleet_finish`, from the envelopes of a fan-out to
-- the fleet's payload.
pub mod Degraded
use nexus_controller.Prelude.{
  ℕ, String, true, Option, none, some, List, [], ◌∷◌, ◌++◌, map, if◌then◌else◌, nat_eq, string_eq,
  pair_eq, select, contains,
}
use nexus_controller.Prelude.Text
use nexus_controller.Prelude.Dict
use nexus_controller.Prelude.Dict.{Dict}
use nexus_controller.Prelude.Sort.{sort_by}
use nexus_controller.Platform.{Platform}
use nexus_controller.Envelope.{Ack, Entry, Envelope, base_envelope}
use nexus_controller.Access.Scope.{scope_allows}
use nexus_controller.Monitoring.Conditions.{health_entries}
use nexus_controller.Monitoring.Acks.{Acks, split_acked}
use nexus_controller.Fleet.{Rollup, compute_rollup, Node}
use nexus_controller.Checks.Schedule.{Store, attach_svc_checks}

-- The envelope of a host whose monitoring is paused.
unfoldable pub disabled_envelope : Node → Envelope
disabled_envelope node = record (base_envelope node.id node.name) {
  disabled = true;
  error = "monitoring disabled";
}

-- The payload of /api/fleet/summary.
pub record Fleet : Type 0 where
  pub nodes : List Envelope
  pub rollup : Rollup
  pub generated_at : String

unfoldable pub scoped_fleet : Fleet → Option (List String) → Fleet
scoped_fleet data_ none = data_
scoped_fleet data_ (some scope) =
    let nodes = select (λ r. scope_allows (some scope) r.tags) data_.nodes in
    record data_ { nodes = nodes; rollup = compute_rollup nodes }

-- `_health_since`: when each active condition of a host was first seen.
abbrev pub Since : Type 0
Since = Dict (String × String) String

-- The expiry of a host's certificate, from the cache of the polls.
unfoldable pub with_cert : Dict String String → Envelope → Envelope
with_cert certs r = if r.disabled then r else elim (Dict.get r.id certs) [
  | none ↦ r
  | some not_after ↦ record r { cert_not_after = not_after }
]

-- since.setdefault(k, now)
unfoldable pub set_default : String × String → String → Since → Since
set_default k now since = if Dict.has k since then since else Dict.set k now since

unfoldable pub stamp_entries : String → String → List Entry → Since → Since
stamp_entries id now [] since = since
stamp_entries id now (e ∷ es) since = stamp_entries id now es (set_default (id, e.key) now since)

-- `if xs: r[key] = xs`
abbrev pub if_any {ℓ} : {A : Type ℓ} → List A → Option (List A) → Option (List A)
if_any [] before = before
if_any (x ∷ xs) before = some (x ∷ xs)

-- The conditions of a host that nobody has acknowledged, and those that somebody has.
unfoldable pub fold_health : Platform → ℕ → Acks → Envelope → Envelope
fold_health p clock acks r =
    let (entries, acked) = split_acked (health_entries p clock r) acks r.id clock in
    record r { health = if_any entries r.health; health_acked = if_any acked r.health_acked }

-- The loop's effect on `_health_since`, and the keys that it finds live.
unfoldable pub stamp_all : Platform → ℕ → String → List Envelope → Since → Since
stamp_all p clock now [] since = since
stamp_all p clock now (r ∷ results) since =
    stamp_all p clock now results (stamp_entries r.id now (health_entries p clock r) since)

unfoldable pub live_keys : Platform → ℕ → List Envelope → List (String × String)
live_keys p clock [] = []
live_keys p clock (r ∷ results) =
    map (λ e. (r.id, e.key)) (health_entries p clock r) ++ live_keys p clock results

unfoldable pub build_fleet_finish :
    Platform
    → ℕ
    → String
    → Acks
    → Dict String String
    → Store
    → List Envelope
    → Since
    → Fleet × Since
build_fleet_finish p clock now acks certs st results since =
    let attached = map (with_cert certs) (attach_svc_checks st results) in
    let nodes = sort_by (λ r. p.lower r.name) (map (fold_health p clock acks) attached) in
    (
      record { nodes = nodes; rollup = compute_rollup nodes; generated_at = now },
      Dict.retain (contains (live_keys p clock attached)) (stamp_all p clock now attached since),
    )
