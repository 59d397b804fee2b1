-- ===== src/Envelope.antt =====
-- The fan-out envelope of one host (`base_envelope` of adapters/base.py and what the adapters and
-- the fleet build add to it), with the fields that the modelled code reads. A block that is missing
-- (`env.get('nas') or {}`) is the block of the values that the code reads out of `{}`.
use nexus_controller.Prelude.{ℕ, String, Bool, true, false, Option, none, List, []}

pub data Severity : Type 0 where
  critical warning info : Severity

pub record Cond : Type 0 where
  pub severity : Severity
  pub detail : String

pub record Service : Type 0 where
  pub enabled : String
  pub active : String

pub record Summary : Type 0 where
  pub alerts : List String
  pub services : List Service
  pub zfs_pools : ℕ
  pub zfs_online : Bool
  pub updates_available : ℕ
  pub updates_security : ℕ

pub record Nas : Type 0 where
  pub alerts : ℕ
  pub alert_list : List String
  pub pools_degraded : ℕ

-- The virtual machines and containers of a hypervisor, or of a node that runs LXD.
pub record Guests : Type 0 where
  pub vms : ℕ
  pub containers : ℕ

-- A pinned check's latest result; `ok` is `none` while it is not probed.
pub record CheckView : Type 0 where
  pub name : String
  pub ok : Option Bool

pub record Ack : Type 0 where
  pub author : String
  pub note : String
  pub ts : ℕ
  pub until : Option ℕ

pub record Entry : Type 0 where
  pub key : String
  pub severity : Severity
  pub detail : String

-- `error` and `id` are "" where the source has None. `health` and `health_acked` are `none` where
-- the envelope has no such key.
pub record Envelope : Type 0 where
  pub id : String
  pub name : String
  pub host_type : String
  pub category : String
  pub tags : List String
  pub version : String
  pub ok : Bool
  pub disabled : Bool
  pub error : String
  pub summary : Summary
  pub nas : Nas
  pub spark_healthy : Option Bool
  pub svc_checks : List CheckView
  pub stale : Bool
  pub cert_not_after : String
  pub now : Option ℕ
  pub version_lag : String
  pub health : Option (List Entry)
  pub health_acked : Option (List (Entry × Ack))
  pub used_bytes : ℕ
  pub size_bytes : ℕ
  pub virt : Guests
  pub instances : Guests

abbrev pub no_summary : Summary
no_summary = record {
  alerts = [];
  services = [];
  zfs_pools = 0;
  zfs_online = true;
  updates_available = 0;
  updates_security = 0;
}

-- `base_envelope(node)`: a host that has not answered yet.
abbrev pub base_envelope : String → String → Envelope
base_envelope id name = record {
  id = id;
  name = name;
  host_type = "nexus";
  category = "Unknown";
  tags = [];
  version = "";
  ok = false;
  disabled = false;
  error = "";
  summary = no_summary;
  nas = record { alerts = 0; alert_list = []; pools_degraded = 0 };
  spark_healthy = none;
  svc_checks = [];
  stale = false;
  cert_not_after = "";
  now = none;
  version_lag = "";
  health = none;
  health_acked = none;
  used_bytes = 0;
  size_bytes = 0;
  virt = record { vms = 0; containers = 0 };
  instances = record { vms = 0; containers = 0 };
}
