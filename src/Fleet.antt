-- ===== src/Fleet.antt =====
-- app.py: `compute_rollup` and `expire_pauses`.
pub mod Order
pub mod Pauses
pub mod Versions
pub mod Window
pub mod Build
pub mod Cache
use nexus_controller.Prelude.{
  ℕ, ◌+◌, String, Bool, true, false, not, ◌&&◌, ◌||◌, Option, none, some, List, [], ◌∷◌, leb,
  nat_beq, if◌then◌else◌, length, any,
}
use nexus_controller.Prelude.Text
use nexus_controller.Platform.{Platform, Datetime, in_utc}
use nexus_controller.Envelope.{Entry, Ack, Envelope}
use nexus_controller.Monitoring.Conditions.{services_down, has_failed}

pub record Rollup : Type 0 where
  pub total : ℕ
  pub healthy : ℕ
  pub unreachable : ℕ
  pub disabled : ℕ
  pub alerts : ℕ
  pub degraded : ℕ
  pub services_down : ℕ
  pub storage_used : ℕ
  pub storage_size : ℕ
  pub vms : ℕ
  pub containers : ℕ
  pub updates_hosts : ℕ
  pub security_hosts : ℕ
  pub updates_pending : ℕ
  pub security_pending : ℕ

abbrev pub no_hosts : Rollup
no_hosts = record {
  total = 0;
  healthy = 0;
  unreachable = 0;
  disabled = 0;
  alerts = 0;
  degraded = 0;
  services_down = 0;
  storage_used = 0;
  storage_size = 0;
  vms = 0;
  containers = 0;
  updates_hosts = 0;
  security_hosts = 0;
  updates_pending = 0;
  security_pending = 0;
}

abbrev pub one_if : Bool → ℕ
one_if b = if b then 1 else 0

abbrev pub entries_of : Option (List Entry) → List Entry
entries_of none = []
entries_of (some es) = es

abbrev pub is_there {ℓ} : {A : Type ℓ} → Option A → Bool
is_there none = false
is_there (some a) = true

abbrev pub host_alerts : Envelope → ℕ
host_alerts env = length env.summary.alerts + env.nas.alerts

-- A built envelope carries its health list, and that decides; a raw one is judged by its blocks.
unfoldable pub is_degraded : Envelope → Bool
is_degraded env =
    if is_there env.health || is_there env.health_acked
    then not (nat_beq (length (entries_of env.health)) 0)
    else (not (nat_beq (host_alerts env) 0)
        || not (nat_beq (services_down env.summary) 0)
        || (not (nat_beq env.summary.zfs_pools 0) && not env.summary.zfs_online)
        || not (nat_beq env.nas.pools_degraded 0)
        || env.stale
        || any has_failed env.svc_checks)

-- The body of the loop; `total` is left for the end.
unfoldable pub count_host : Rollup → Envelope → Rollup
count_host r env =
    let updates = env.summary.updates_available in
    let security = env.summary.updates_security in
    let has_updates = not (nat_beq updates 0) in
    let has_security = has_updates && not (nat_beq security 0) in
    if env.disabled
    then record r { disabled = r.disabled + 1 }
    else (if not env.ok then record r { unreachable = r.unreachable + 1 } else record r {
      healthy = r.healthy + 1;
      alerts = r.alerts + host_alerts env;
      storage_used = r.storage_used + env.used_bytes;
      storage_size = r.storage_size + env.size_bytes;
      services_down = r.services_down + services_down env.summary;
      vms =
          (r.vms + (env.virt.vms + env.virt.containers))
          + (env.instances.vms + env.instances.containers);
      containers = (r.containers + env.virt.containers) + env.instances.containers;
      updates_hosts = r.updates_hosts + one_if has_updates;
      updates_pending = r.updates_pending + (if has_updates then updates else 0);
      security_hosts = r.security_hosts + one_if has_security;
      security_pending = r.security_pending + (if has_security then security else 0);
      degraded = r.degraded + one_if (is_degraded env);
    })

unfoldable pub count_hosts : Rollup → List Envelope → Rollup
count_hosts r [] = r
count_hosts r (env ∷ results) = count_hosts (count_host r env) results

unfoldable pub compute_rollup : List Envelope → Rollup
compute_rollup results = record (count_hosts no_hosts results) { total = length results }

-- A record of the registry, with the fields that `expire_pauses` reads; `disabled_until` is "" for
-- None.
pub record Node : Type 0 where
  pub id : String
  pub name : String
  pub disabled : Bool
  pub disabled_until : String

-- Whether the maintenance window of a paused host has an end that can be read and has passed.
unfoldable pub is_expired : Platform → ℕ → Node → Bool
is_expired p now n =
    if not (n.disabled && not (Text.is_empty n.disabled_until))
    then false
    else elim (p.from_iso (Text.replace_char b'Z' "+00:00" n.disabled_until)) [
      | none ↦ false
      | some t ↦ leb (in_utc t) now
    ]

abbrev pub resume : Node → Node
resume n = record n { disabled = false; disabled_until = "" }

-- The registry afterwards, and the names of the hosts that are resumed.
unfoldable pub expire_pauses : Platform → ℕ → List Node → List Node × List String
expire_pauses p now [] = ([], [])
expire_pauses p now (n ∷ nodes) =
    let (rest, names) = expire_pauses p now nodes in
    if is_expired p now n
    then (resume n ∷ rest, (if Text.is_empty n.name then n.id else n.name) ∷ names)
    else (n ∷ rest, names)
