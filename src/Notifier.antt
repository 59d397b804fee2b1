-- ===== src/Notifier.antt =====
-- app.py: `_monitor_cycle`, which turns one fan-out into notifications, and the state `_mon` that it
-- keeps between cycles. Clock readings are microseconds; the cooldown is in seconds, as in the source.
pub mod Machine
pub mod Refines
pub mod Runs
pub mod Lasting
pub mod Items
pub mod Loops
use nexus_controller.Prelude.{
  ℕ, ◌+◌, ◌*◌, String, Bool, true, false, not, ◌&&◌, ◌||◌, Option, none, some, List, [], ◌∷◌, ◌++◌,
  map, ltb, if◌then◌else◌, ◌==◌, nat_eq, string_eq, pair_eq, select, contains,
}
use nexus_controller.Prelude.Text
use nexus_controller.Prelude.Dict
use nexus_controller.Prelude.Dict.{Dict}
use nexus_controller.Platform.{Platform}
use nexus_controller.Envelope.{Severity, info, Cond, Envelope}
use nexus_controller.Monitoring.Alerts.{one_line, alert_text_max}
use nexus_controller.Monitoring.Conditions.{Conds}
use nexus_controller.Monitoring.Snapshot.{
  HostEntry, Snapshot, Kind, firing, changed, recovered, Event, event, snapshot_conditions,
}
use nexus_controller.Monitoring.Acks.{Acks, ack_key, prune_acks, second}

-- (host_id, condition key)
abbrev pub Pk : Type 0
Pk = String × String

pub record Mon : Type 0 where
  pub present_streak : Dict Pk ℕ
  pub active : List Pk
  pub detail : Dict Pk String
  pub last_fire : Dict Pk ℕ
  pub seeded : Bool

abbrev pub start : Mon
start = record { present_streak = []; active = []; detail = []; last_fire = []; seeded = false }

-- `tuning()['flap_cycles']` and NOTIFY_COOLDOWN
pub record Settings : Type 0 where
  pub flap : ℕ
  pub cooldown : ℕ

-- A condition that is present, with what `snap[hid]` says of it.
pub record Item : Type 0 where
  pub pk : Pk
  pub host : String
  pub cond : Cond

unfoldable pub host_items : String → String → Conds → List Item
host_items hid name [] = []
host_items hid name ((key, c) ∷ conds) =
    record { pk = (hid, key); host = name; cond = c } ∷ host_items hid name conds

unfoldable pub all_present : Snapshot → List Item
all_present [] = []
all_present ((hid, entry) ∷ snap) = host_items hid entry.name entry.conditions ++ all_present snap

abbrev pub pks : List Item → List Pk
pks = map (λ i. i.pk)

abbrev pub pk_key : Pk → String
pk_key pk = ack_key pk.0 pk.1

-- `ack_key(h, k) in acks`
abbrev pub is_acked : Acks → Pk → Bool
is_acked acks pk = Dict.has (pk_key pk) acks

unfoldable pub paused_ids : List Envelope → List String
paused_ids results = map (λ r. r.id) (select (λ r. r.disabled) results)

-- What one cycle works on: the present conditions that are not acked, and `gone_pk`.
pub record View : Type 0 where
  pub snap : Snapshot
  pub present : List Item
  pub acked : List Pk
  pub paused : List String

unfoldable pub view : Snapshot → Acks → List String → View
view snap acks paused = record {
  snap = snap;
  present = select (λ i. not (is_acked acks i.pk)) (all_present snap);
  acked = select (is_acked acks) (pks (all_present snap));
  paused = paused;
}

unfoldable pub gone_pk : View → Pk → Bool
gone_pk v pk = (contains v.paused pk.0 || not (Dict.has pk.0 v.snap)) || contains v.acked pk

-- set.add
unfoldable pub set_add : Pk → List Pk → List Pk
set_add pk s = if contains s pk then s else s ++ pk ∷ []

abbrev pub or_zero : Option ℕ → ℕ
or_zero none = 0
or_zero (some n) = n

-- The first two loops: what is paused, removed or acked is no longer tracked.
unfoldable pub drop_gone : View → Mon → Mon
drop_gone v m = record m {
  active = select (λ pk. not (gone_pk v pk)) m.active;
  detail = Dict.retain (λ pk. not (contains m.active pk && gone_pk v pk)) m.detail;
  last_fire = Dict.retain (λ pk. not (contains m.active pk && gone_pk v pk)) m.last_fire;
  present_streak = Dict.retain (λ pk. not (gone_pk v pk)) m.present_streak;
}

-- `for pk in present: streak[pk] = streak.get(pk, 0) + 1`
unfoldable pub count_up : List Item → Dict Pk ℕ → Dict Pk ℕ
count_up [] streak = streak
count_up (i ∷ items) streak =
    count_up items (Dict.set i.pk (or_zero (Dict.get i.pk streak) + 1) streak)

unfoldable pub advance : View → Mon → Mon
advance v m = record m {
  present_streak = Dict.retain (contains (pks v.present)) (count_up v.present m.present_streak);
}

-- The first cycle after a start adopts what it finds.
unfoldable pub adopt : ℕ → List Item → Mon → Mon
adopt now [] m = m
adopt now (i ∷ items) m = adopt now items (record m {
  last_fire = Dict.set i.pk now m.last_fire;
  detail = Dict.set i.pk i.cond.detail m.detail;
})

unfoldable pub seed : ℕ → View → Mon → Mon
seed now v m = record (adopt now v.present (record m { active = pks v.present })) { seeded = true }

-- What the state says of one condition.
pub record Track : Type 0 where
  pub streak : ℕ
  pub is_active : Bool
  pub told : Option String
  pub last : ℕ

unfoldable pub track : Mon → Pk → Track
track m pk = record {
  streak = or_zero (Dict.get pk m.present_streak);
  is_active = contains m.active pk;
  told = Dict.get pk m.detail;
  last = or_zero (Dict.get pk m.last_fire);
}

abbrev pub is_told : Option String → String → Bool
is_told none text = false
is_told (some t) text = text == t

-- The three `continue`s of the firing loop, and the kind of the event if none is taken.
unfoldable pub verdict : Settings → ℕ → Cond → Track → Option Kind
verdict s now c t =
    if t.is_active && is_told t.told c.detail
    then none
    else (if ltb t.streak s.flap
        then none
        else (if ltb now (t.last + s.cooldown * second)
            then none
            else some (if t.is_active then changed else firing)))

unfoldable pub fire_as : ℕ → Item → Option Kind → Mon → Mon × List Event
fire_as now i none m = (m, [])
fire_as now i (some kind) m = (
  record m {
    active = set_add i.pk m.active;
    detail = Dict.set i.pk i.cond.detail m.detail;
    last_fire = Dict.set i.pk now m.last_fire;
  },
  event i.pk.0 i.host kind i.pk.1 i.cond ∷ [],
)

unfoldable pub fire_all : Settings → ℕ → List Item → Mon → Mon × List Event
fire_all s now [] m = (m, [])
fire_all s now (i ∷ items) m =
    let (m1, e) = fire_as now i (verdict s now i.cond (track m i.pk)) m in
    let (m2, es) = fire_all s now items m1 in (m2, e ++ es)

-- _COND_LABEL.get(key, key)
unfoldable pub cond_label : String → String
cond_label key =
    if key == "unreachable"
    then "reachable again"
    else (if key == "cert_changed"
        then "certificate re-pinned"
        else (if key == "cert_expiring"
            then "certificate renewed"
            else (if key == "alerts"
                then "alerts cleared"
                else (if key == "pool_degraded"
                    then "pools healthy"
                    else (if key == "cluster_unhealthy"
                        then "cluster healthy"
                        else (if key == "services_down"
                            then "services back up"
                            else (if key == "check_failed"
                                then "service checks passing"
                                else (if key == "stale"
                                    then "polling again"
                                    else (if key == "version_lag"
                                        then "version in sync"
                                        else (if key == "security_updates"
                                            then "security updates cleared"
                                            else key))))))))))

unfoldable pub recovered_detail : String → Option String → String
recovered_detail key none = cond_label key
recovered_detail key (some was) =
    if Text.is_empty was
    then cond_label key
    else Text.concat (cond_label key ∷ " (was: " ∷ one_line was alert_text_max ∷ ")" ∷ [])

abbrev pub name_or : Option HostEntry → String → String
name_or none hid = hid
name_or (some entry) hid = entry.name

unfoldable pub recovery : View → Mon → Pk → Event
recovery v m pk = record {
  host_id = pk.0;
  host = name_or (Dict.get pk.0 v.snap) pk.0;
  key = pk.1;
  kind = recovered;
  severity = info;
  detail = recovered_detail pk.1 (Dict.get pk m.detail);
}

-- The last loop: what was active and is not present any more.
unfoldable pub recover_all : View → Mon → Mon × List Event
recover_all v m =
    let lost = select (λ pk. not (contains (pks v.present) pk)) m.active in
    (
      record m {
        active = select (contains (pks v.present)) m.active;
        detail = Dict.retain (λ pk. not (contains lost pk)) m.detail;
      },
      map (recovery v m) lost,
    )

unfoldable pub cycle : Settings → ℕ → View → Mon → Mon × List Event
cycle s now v m =
    let tracked = advance v (drop_gone v m) in
    if not m.seeded
    then (seed now v tracked, [])
    else (let (fired, fire) = fire_all s now v.present tracked in
        let (rest, recover) = recover_all v fired in (rest, fire ++ recover))

-- One whole cycle: the snapshot, the pruning of the acks, and `cycle`. The result holds the acks
-- that are stored back, the next state, and the events for the log and for `_dispatch`.
pub record Outcome : Type 0 where
  pub acks : Acks
  pub mon : Mon
  pub events : List Event

unfoldable pub monitor_cycle : Platform → Settings → ℕ → ℕ → List Envelope → Acks → Mon → Outcome
monitor_cycle p s clock now results acks m =
    let snap = snapshot_conditions p clock results in
    let (gone, acks1) = prune_acks acks (map pk_key (pks (all_present snap))) now in
    let (m1, events) = cycle s now (view snap acks1 (paused_ids results)) m in
    record { acks = acks1; mon = m1; events = events }
