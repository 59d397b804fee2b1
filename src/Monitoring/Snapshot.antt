-- ===== src/Monitoring/Snapshot.antt =====
-- monitoring.py: `snapshot_conditions` and `diff_snapshots`, with their events and their order.
use nexus_controller.Prelude.{
  ℕ, String, Bool, ◌&&◌, ◌||◌, Option, none, some, List, [], ◌∷◌, ◌++◌, ltb, leb, nat_beq,
  if◌then◌else◌, ◌==◌, nat_eq, string_eq, pair_eq,
}
use nexus_controller.Prelude.Text
use nexus_controller.Prelude.Dict
use nexus_controller.Prelude.Dict.{Dict}
use nexus_controller.Platform.{Platform}
use nexus_controller.Envelope.{Severity, critical, warning, info, Cond, Envelope}
use nexus_controller.Monitoring.Conditions.{Conds, host_conditions}

pub record HostEntry : Type 0 where
  pub name : String
  pub conditions : Conds

abbrev pub Snapshot : Type 0
Snapshot = Dict String HostEntry

pub data Kind : Type 0 where
  firing changed recovered : Kind

pub record Event : Type 0 where
  pub host_id : String
  pub host : String
  pub key : String
  pub kind : Kind
  pub severity : Severity
  pub detail : String

-- The dict comprehension: a later envelope with the same id overwrites an earlier one.
unfoldable pub snap_step : Platform → ℕ → Snapshot → Envelope → Snapshot
snap_step p clock snap r =
    if Text.is_empty r.id
    then snap
    else Dict.set r.id (record { name = r.name; conditions = host_conditions p clock r }) snap

unfoldable pub snapshot_from : Platform → ℕ → Snapshot → List Envelope → Snapshot
snapshot_from p clock snap [] = snap
snapshot_from p clock snap (r ∷ results) = snapshot_from p clock (snap_step p clock snap r) results

unfoldable pub snapshot_conditions : Platform → ℕ → List Envelope → Snapshot
snapshot_conditions p clock results = snapshot_from p clock [] results

-- (prev.get(hid) or {}).get('conditions', {})
abbrev pub conds_of : Option HostEntry → Conds
conds_of none = []
conds_of (some entry) = entry.conditions

abbrev pub event : String → String → Kind → String → Cond → Event
event hid name kind key c = record {
  host_id = hid;
  host = name;
  key = key;
  kind = kind;
  severity = c.severity;
  detail = c.detail;
}

-- What a condition of the new snapshot reports, given its old value.
unfoldable pub appear : String → String → String → Cond → Option Cond → List Event → List Event
appear hid name key c none rest = event hid name firing key c ∷ rest
appear hid name key c (some old) rest =
    if old.detail == c.detail then rest else event hid name changed key c ∷ rest

unfoldable pub new_events : String → String → Conds → Conds → List Event
new_events hid name pconds [] = []
new_events hid name pconds ((key, c) ∷ cconds) =
    appear hid name key c (Dict.get key pconds) (new_events hid name pconds cconds)

unfoldable pub gone_events : String → String → Conds → Conds → List Event
gone_events hid name [] cconds = []
gone_events hid name ((key, c) ∷ pconds) cconds =
    let rest = gone_events hid name pconds cconds in
    if Dict.has key cconds then rest else event hid name recovered key c ∷ rest

unfoldable pub all_events : Snapshot → Snapshot → List Event
all_events prev [] = []
all_events prev ((hid, entry) ∷ cur) =
    let pconds = conds_of (Dict.get hid prev) in
    (new_events hid entry.name pconds entry.conditions
      ++ gone_events hid entry.name pconds entry.conditions)
    ++ all_events prev cur

-- SEVERITY, and the `order` of the kinds
abbrev pub severity_rank : Severity → ℕ
severity_rank critical = 0
severity_rank warning = 1
severity_rank info = 2

abbrev pub kind_rank : Kind → ℕ
kind_rank firing = 0
kind_rank changed = 1
kind_rank recovered = 2

-- (order, severity) <= (order, severity), as Python compares tuples
unfoldable pub key_le : Event → Event → Bool
key_le a b =
    ltb (kind_rank a.kind) (kind_rank b.kind)
    || nat_beq (kind_rank a.kind) (kind_rank b.kind)
      && leb (severity_rank a.severity) (severity_rank b.severity)

-- `events.sort(key=…)`, which is stable
unfoldable pub insert_event : Event → List Event → List Event
insert_event e [] = e ∷ []
insert_event e (x ∷ xs) =
    let later = x ∷ insert_event e xs in if key_le e x then e ∷ x ∷ xs else later

unfoldable pub sort_events : List Event → List Event
sort_events [] = []
sort_events (e ∷ es) = insert_event e (sort_events es)

unfoldable pub diff_snapshots : Snapshot → Snapshot → List Event
diff_snapshots prev cur = sort_events (all_events prev cur)
