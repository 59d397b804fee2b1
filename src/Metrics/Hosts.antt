-- ===== src/Metrics/Hosts.antt =====
-- metrics.py: `_host_lines`, `_check_lines` and `render`.
pub mod Silent
use nexus_controller.Prelude.{
  ℕ, ◌+◌, String, Bool, true, false, not, ◌&&◌, ◌||◌, Option, none, some, List, [], ◌∷◌, ◌++◌, map,
  nat_beq, if◌then◌else◌, nat_eq, string_eq, pair_eq, length,
}
use nexus_controller.Prelude.Sort.{sort_by}
use nexus_controller.Prelude.Text
use nexus_controller.Prelude.Dict
use nexus_controller.Prelude.Dict.{Dict}
use nexus_controller.Envelope.{Severity, critical, warning, info, Entry, Envelope}
use nexus_controller.Fleet.{Rollup, entries_of}
use nexus_controller.Checks.{Check}
use nexus_controller.Checks.Schedule.{Result}
use nexus_controller.Metrics.{Floats, Number, flag, whole, real, Labels, line}

-- `summary.updates`, `virt` and `instances`, with what the exposition alone reads of them.
pub record Updates : Type 0 where
  pub available : ℕ
  pub security : ℕ
  pub reboot_required : Bool

-- `vms_running` and `running` are `none` where the block has no such key.
pub record Guests : Type 0 where
  pub vms : ℕ
  pub containers : ℕ
  pub vms_running : Option ℕ
  pub containers_running : ℕ
  pub running : Option ℕ

-- An envelope with its load, its guests and its updates, each `none` where it is missing or empty.
pub record Host (Float : Type 0) : Type 0 where
  pub env : Envelope
  pub cpu_pct : Option Float
  pub memory_pct : Option Float
  pub virt : Option Guests
  pub instances : Option Guests
  pub updates : Option Updates

abbrev pub severity_text : Severity → String
severity_text critical = "critical"
severity_text warning = "warning"
severity_text info = "info"

abbrev pub or_zero : Option ℕ → ℕ
or_zero none = 0
or_zero (some n) = n

abbrev pub is_some {ℓ} : {A : Type ℓ} → Option A → Bool
is_some none = false
is_some (some a) = true

abbrev pub no_guests : Guests
no_guests = record {
  vms = 0;
  containers = 0;
  vms_running = none;
  containers_running = 0;
  running = none;
}

abbrev pub or_no_guests : Option Guests → Guests
or_no_guests none = no_guests
or_no_guests (some g) = g

-- {**labels, …}
abbrev pub with_labels : Labels → Labels → Labels
with_labels labels [] = labels
with_labels labels ((k, v) ∷ more) = with_labels (Dict.set k v labels) more

unfoldable pub host_labels : Envelope → Labels
host_labels env =
    ("host", some env.id)
    ∷ ("name", some env.name)
    ∷ ("host_type", some (if Text.is_empty env.host_type then "nexus" else env.host_type))
    ∷ ("category", some (if Text.is_empty env.category then "Unknown" else env.category))
    ∷ []

module _ {Float : Type 0} (fl : Floats Float) where
  -- `if x is not None: out.append(line(name, labels, x))`
  unfoldable pub line_if : String → Labels → Option Float → List String
  line_if name labels none = []
  line_if name labels (some x) = line fl name labels (real x) ∷ []

  unfoldable pub storage_lines : Envelope → Labels → List String
  storage_lines env labels =
      if nat_beq env.size_bytes 0
      then []
      else line fl "nexus_host_storage_bytes" (with_labels labels (("kind", some "used") ∷ []))
          (whole env.used_bytes)
        ∷ line fl "nexus_host_storage_bytes" (with_labels labels (("kind", some "size") ∷ []))
            (whole env.size_bytes)
        ∷ []

  unfoldable pub issue_line : Labels → Entry → String
  issue_line labels e =
      line fl "nexus_host_health_issue"
        (with_labels labels
          (("key", some e.key) ∷ ("severity", some (severity_text e.severity)) ∷ []))
        (whole 1)

  unfoldable pub guest_line : Labels → String → String → ℕ → String
  guest_line labels kind state n =
      line fl "nexus_host_guests"
        (with_labels labels (("kind", some kind) ∷ ("state", some state) ∷ [])) (whole n)

  -- The running guests: a node's LXD block may have one total for both kinds.
  unfoldable pub running_guests : Guests → Guests → Bool → ℕ × ℕ
  running_guests v i has_instances =
      if has_instances && is_some i.running && not (is_some i.vms_running)
      then (or_zero i.running, 0)
      else (
        or_zero v.vms_running + or_zero i.vms_running,
        v.containers_running + i.containers_running,
      )

  unfoldable pub guest_lines : Host Float → Labels → List String
  guest_lines r labels =
      let v = or_no_guests r.virt in
      let i = or_no_guests r.instances in
      let (vms_running, containers_running) = running_guests v i (is_some r.instances) in
      if is_some r.virt || is_some r.instances
      then guest_line labels "vm" "total" (v.vms + i.vms)
        ∷ guest_line labels "vm" "running" vms_running
        ∷ guest_line labels "container" "total" (v.containers + i.containers)
        ∷ guest_line labels "container" "running" containers_running
        ∷ []
      else []

  unfoldable pub update_lines : Option Updates → Labels → List String
  update_lines none labels = []
  update_lines (some u) labels =
      line fl "nexus_host_updates_pending" labels (whole u.available)
      ∷ line fl "nexus_host_security_updates_pending" labels (whole u.security)
      ∷ line fl "nexus_host_reboot_required" labels (flag u.reboot_required)
      ∷ []

  -- The series of a host that answered.
  unfoldable pub up_lines : Host Float → Labels → List String
  up_lines r labels =
      let env = r.env in
      let health = entries_of env.health in
      (line fl "nexus_host_alerts" labels (whole (length env.summary.alerts + env.nas.alerts))
        ∷ line fl "nexus_host_health_issues" labels (whole (length health))
        ∷ map (issue_line labels) health)
      ++ guest_lines r labels
      ++ update_lines r.updates labels
      ++ (line fl "nexus_host_version_lag" labels (flag (not (Text.is_empty env.version_lag)))
          ∷ line fl "nexus_host_stale" labels (flag env.stale)
          ∷ [])

  unfoldable pub host_lines : Host Float → List String
  host_lines r =
      let env = r.env in
      let labels = host_labels env in
      let up = up_lines r labels in
      let paused = line fl "nexus_host_paused" labels (flag env.disabled) in
      if env.disabled
      then paused ∷ []
      else (paused ∷ line fl "nexus_host_up" labels (flag env.ok) ∷ [])
        ++ line_if "nexus_host_cpu_percent" labels r.cpu_pct
        ++ line_if "nexus_host_memory_percent" labels r.memory_pct
        ++ storage_lines env labels
        ++ (if env.ok then up else [])

  unfoldable pub check_labels : Check → Dict String String → Labels
  check_labels c names =
      ("check", some c.id)
      ∷ ("name", some c.name)
      ∷ ("service", some c.service)
      ∷ ("target", some c.target)
      ∷ ("host", Dict.get c.node_id names)
      ∷ []

  abbrev pub latency_line : Labels → Option ℕ → List String
  latency_line labels none = []
  latency_line labels (some ms) =
      line fl "nexus_check_latency_seconds" labels (real (fl.thousandth ms)) ∷ []

  unfoldable pub check_lines : Check → Option Result → Dict String String → List String
  check_lines c none names = []
  check_lines c (some r) names = elim r.ok [
    | none ↦ []
    | some up ↦
        if r.paused
        then []
        else line fl "nexus_check_up" (check_labels c names) (flag up)
          ∷ latency_line (check_labels c names) r.latency_ms
  ]

  unfoldable pub all_host_lines : List (Host Float) → List String
  all_host_lines [] = []
  all_host_lines (r ∷ nodes) = host_lines r ++ all_host_lines nodes

  unfoldable pub all_check_lines :
      List Check → Dict String Result → Dict String String → List String
  all_check_lines [] res names = []
  all_check_lines (c ∷ cs) res names =
      check_lines c (Dict.get c.id res) names ++ all_check_lines cs res names

  -- The fleet's payload.
  pub record Fleet : Type 0 where
    pub nodes : List (Host Float)
    pub rollup : Rollup
    pub generated_at : String

  unfoldable pub rollup_lines : Rollup → List String
  rollup_lines ro =
      "# TYPE nexus_fleet_hosts gauge"
      ∷ line fl "nexus_fleet_hosts" (("state", some "healthy") ∷ []) (whole ro.healthy)
      ∷ line fl "nexus_fleet_hosts" (("state", some "unreachable") ∷ []) (whole ro.unreachable)
      ∷ line fl "nexus_fleet_hosts" (("state", some "paused") ∷ []) (whole ro.disabled)
      ∷ line fl "nexus_fleet_hosts" (("state", some "degraded") ∷ []) (whole ro.degraded)
      ∷ "# TYPE nexus_fleet_storage_bytes gauge"
      ∷ line fl "nexus_fleet_storage_bytes" (("kind", some "used") ∷ []) (whole ro.storage_used)
      ∷ line fl "nexus_fleet_storage_bytes" (("kind", some "size") ∷ []) (whole ro.storage_size)
      ∷ []

  unfoldable pub generated_lines : String → List String
  generated_lines iso = elim (fl.timestamp iso) [
    | none ↦ []
    | some ts ↦
        "# TYPE nexus_fleet_generated_timestamp_seconds gauge"
        ∷ line fl "nexus_fleet_generated_timestamp_seconds" [] (real ts)
        ∷ []
  ]

  -- A comment line before the lines that it is about, if there are any.
  abbrev pub headed : String → List String → List String
  headed help [] = []
  headed help (l ∷ lines) = help ∷ l ∷ lines

  unfoldable pub fleet_lines : (String → String) → Option Fleet → List String
  fleet_lines lower none = []
  fleet_lines lower (some fleet) =
      generated_lines fleet.generated_at
      ++ rollup_lines fleet.rollup
      ++ headed "# HELP nexus_host_up 1 when the last poll reached the host."
          (all_host_lines (sort_by (λ r. lower r.env.name) fleet.nodes))

  unfoldable pub render_lines :
      (String → String)
      → Option Fleet
      → List Check
      → Dict String Result
      → Dict String String
      → String
      → List String
  render_lines lower fleet checks results names version =
      ("# HELP nexus_controller_info Nexus Controller build."
        ∷ "# TYPE nexus_controller_info gauge"
        ∷ line fl "nexus_controller_info" (("version", some version) ∷ []) (whole 1)
        ∷ [])
      ++ fleet_lines lower fleet
      ++ headed "# HELP nexus_check_up 1 when the service check passed on its last run."
          (all_check_lines checks results names)

  unfoldable pub render :
      (String → String)
      → Option Fleet
      → List Check
      → Dict String Result
      → Dict String String
      → String
      → String
  render lower fleet checks results names version =
      Text.concat
        (Text.join "\n" (render_lines lower fleet checks results names version) ∷ "\n" ∷ [])
