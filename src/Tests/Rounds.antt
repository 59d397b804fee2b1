-- ===== src/Tests/Rounds.antt =====
-- Cycles of the monitor loop at concrete inputs.
use nexus_controller.Prelude.{
  ℕ, ◌+◌, ◌*◌, ◌≤◌, ◌≡◌, refl, ap, ◌∙◌, true, false, not, ◌&&◌, ◌||◌, none, some, List, [], ◌∷◌,
  ◌++◌, map, arith, nat_eq, string_eq, pair_beq, pair_eq, select, any, contains,
}
use nexus_controller.Prelude.Text
use nexus_controller.Prelude.Dict
use nexus_controller.Platform.{Platform}
use nexus_controller.Envelope.{Cond, critical, Envelope, base_envelope}
use nexus_controller.Monitoring.Snapshot.{snapshot_conditions, snapshot_from, snap_step}
use nexus_controller.Notifier.{
  paused_ids, verdict, is_told, Mon, start, Settings, Pk, track, monitor_cycle,
}
use nexus_controller.Notifier.Machine.{run, step, All, IsThere}
use nexus_controller.Notifier.Items.{is_gone, condition_at, seen_at}
use nexus_controller.Monitoring.Conditions.{host_conditions, down_conditions, add}
use nexus_controller.Monitoring.Acks.{prune_acks, spent_keys, delete_all}
use nexus_controller.Notifier.Runs.{Input, cycles, round_of, cycles-run, tells_of, cooldown_holds}
use nexus_controller.Notifier.Lasting.{any_fires, lasting_is_told}

abbrev plain : Platform
plain = record { lower = λ s. s; from_iso = λ s. none }

abbrev dead : Envelope
dead = record (base_envelope "h1" "nas") { error = "timed out" }

abbrev two_strikes : Settings
two_strikes = record { flap = 2; cooldown = 900 }

abbrev seeded : Mon
seeded = record start { seeded = true }

-- A monitor that has told of the condition at 100 s.
abbrev told_once : Mon
told_once = record {
  present_streak = (("h1", "unreachable"), 2) ∷ [];
  active = ("h1", "unreachable") ∷ [];
  detail = (("h1", "unreachable"), "old text") ∷ [];
  last_fire = (("h1", "unreachable"), 100000000) ∷ [];
  seeded = true;
}

abbrev pk : Pk
pk = ("h1", "unreachable")

abbrev at_time : ℕ → Input
at_time t = record { clock = t; now = t; results = dead ∷ []; acks = [] }

abbrev two_inputs : List Input
two_inputs = at_time 110000000 ∷ at_time 120000000 ∷ []

first_tracked : (round_of plain two_strikes pk (at_time 110000000)).gone ≡ false
unfolding round_of is_gone contains paused_ids select Dict.has snapshot_conditions snapshot_from
    snap_step Dict.set condition_at Dict.get host_conditions down_conditions add Text.has_part
    prune_acks spent_keys delete_all monitor_cycle seen_at track
first_tracked = refl

first_there : Dict.at (λ c. true) (round_of plain two_strikes pk (at_time 110000000)).seen ≡ true
unfolding round_of is_gone contains paused_ids select Dict.has snapshot_conditions snapshot_from
    snap_step Dict.set condition_at Dict.get host_conditions down_conditions add Text.has_part
    prune_acks spent_keys delete_all monitor_cycle seen_at track
first_there = refl

second_tracked : (round_of plain two_strikes pk (at_time 120000000)).gone ≡ false
unfolding round_of is_gone contains paused_ids select Dict.has snapshot_conditions snapshot_from
    snap_step Dict.set condition_at Dict.get host_conditions down_conditions add Text.has_part
    prune_acks spent_keys delete_all monitor_cycle seen_at track
second_tracked = refl

second_there : Dict.at (λ c. true) (round_of plain two_strikes pk (at_time 120000000)).seen ≡ true
unfolding round_of is_gone contains paused_ids select Dict.has snapshot_conditions snapshot_from
    snap_step Dict.set condition_at Dict.get host_conditions down_conditions add Text.has_part
    prune_acks spent_keys delete_all monitor_cycle seen_at track
second_there = refl

two_inputs-IsThere : All IsThere (map (round_of plain two_strikes pk) two_inputs)
two_inputs-IsThere = ((first_tracked, first_there), ((second_tracked, second_there), tt))

abbrev one_input : List Input
one_input = at_time 110000000 ∷ []

abbrev outage : Cond
outage = record { severity = critical; detail = "timed out" }

later_tracked : (round_of plain two_strikes pk (at_time 2000000000)).gone ≡ false
unfolding round_of is_gone contains paused_ids select Dict.has snapshot_conditions snapshot_from
    snap_step Dict.set condition_at Dict.get host_conditions down_conditions add Text.has_part
    prune_acks spent_keys delete_all monitor_cycle seen_at track
later_tracked = refl

later_seen : (round_of plain two_strikes pk (at_time 2000000000)).seen ≡ some outage
unfolding round_of is_gone contains paused_ids select Dict.has snapshot_conditions snapshot_from
    snap_step Dict.set condition_at Dict.get host_conditions down_conditions add Text.has_part
    prune_acks spent_keys delete_all monitor_cycle seen_at track
later_seen = refl

one_run :
    (run two_strikes (map (round_of plain two_strikes pk) one_input) (track told_once pk)).0.last
    ≡ 100000000
unfolding round_of is_gone contains paused_ids select Dict.has snapshot_conditions snapshot_from
    snap_step Dict.set condition_at Dict.get host_conditions down_conditions add Text.has_part
    prune_acks spent_keys delete_all monitor_cycle seen_at track run step verdict pair_beq
one_run = refl

last_kept : (track (cycles plain two_strikes one_input told_once).0 pk).last ≡ 100000000
last_kept = ap (λ t. t.last) (cycles-run plain two_strikes pk one_input told_once refl).0 ∙ one_run

late_enough :
    (track (cycles plain two_strikes one_input told_once).0 pk).last + 900 * 1000000 ≤ 2000000000
late_enough = rw last_kept (omega arith)

lasting_is_told_example :
    let (before, reports) = cycles plain two_strikes one_input told_once in
    let out = monitor_cycle plain two_strikes 2000000000 2000000000 (dead ∷ []) [] before in
    (((track told_once pk).is_active || any_fires pk (reports ++ out.events ∷ [])) ≡ true)
    × ((track out.mon pk).is_active ≡ true)
    × ((track out.mon pk).told ≡ some "timed out")
    × (tells_of pk out.events
        ≡ not ((track before pk).is_active && is_told (track before pk).told "timed out"))
lasting_is_told_example =
    lasting_is_told plain two_strikes pk one_input (at_time 2000000000) outage told_once refl
      ((first_tracked, first_there), tt) later_tracked later_seen (omega arith) late_enough

soon_tracked : (round_of plain two_strikes pk (at_time 2010000000)).gone ≡ false
unfolding round_of is_gone contains paused_ids select Dict.has snapshot_conditions snapshot_from
    snap_step Dict.set condition_at Dict.get host_conditions down_conditions add Text.has_part
    prune_acks spent_keys delete_all monitor_cycle seen_at track
soon_tracked = refl

soon_clock : (round_of plain two_strikes pk (at_time 2010000000)).now ≡ 2010000000
unfolding round_of
soon_clock = refl

-- The text has changed since the word at 100 s.
told_again :
    tells_of pk
      (monitor_cycle plain two_strikes 2000000000 2000000000 (dead ∷ []) [] told_once).events
    ≡ true
unfolding monitor_cycle nexus_controller.Notifier.cycle nexus_controller.Notifier.view
    nexus_controller.Notifier.fire_all nexus_controller.Notifier.all_present
    nexus_controller.Notifier.host_items nexus_controller.Notifier.fire_as
    nexus_controller.Notifier.advance nexus_controller.Notifier.drop_gone
    nexus_controller.Notifier.count_up nexus_controller.Notifier.gone_pk
    nexus_controller.Notifier.recover_all nexus_controller.Notifier.set_add paused_ids delete_all
    spent_keys any snapshot_conditions snapshot_from select snap_step Dict.set host_conditions
    down_conditions Text.has_part add Dict.has prune_acks verdict track contains Dict.get
    Dict.retain pair_beq
told_again = refl

cooldown_holds_example :
    All
      (λ es. tells_of pk es ≡ false)
      (cycles plain two_strikes
        (at_time 2010000000 ∷ [])
        (monitor_cycle plain two_strikes 2000000000 2000000000 (dead ∷ []) [] told_once).mon).1
cooldown_holds_example =
    cooldown_holds plain two_strikes pk (at_time 2000000000) (at_time 2010000000 ∷ []) told_once
      refl told_again ((soon_tracked, rw soon_clock (omega arith)), tt)
