-- ===== src/Notifier/Refines.antt =====
-- app.py: one run of `_monitor_cycle`, compared with the machine of Notifier/Machine.
use nexus_controller.Prelude.{
  ℕ, ◌≡◌, ap, ◌∙◌, true, Option, List, ◌++◌, map, arith, nat_eq, string_eq, pair_eq, any,
  any-append,
}
use nexus_controller.Platform.{Platform}
use nexus_controller.Envelope.{Envelope}
use nexus_controller.Monitoring.Snapshot.{Kind, Event}
use nexus_controller.Monitoring.Diff.{is_about}
use nexus_controller.Monitoring.Snapshot.{snapshot_conditions}
use nexus_controller.Monitoring.Shape.{snapshot_conditions-IsSnapshot}
use nexus_controller.Monitoring.Acks.{Acks, prune_acks}
use nexus_controller.Notifier.Items.{distinct-view, find-view, gone_pk-view, is_gone, seen_at}
use nexus_controller.Notifier.{
  pk_key, all_present, view, paused_ids, monitor_cycle, Pk, Mon, Settings, pks, View, gone_pk,
  drop_gone, advance, Track, track, fire_all, recover_all, cycle,
}
use nexus_controller.Notifier.Machine.{forget, count, settle, step}
use nexus_controller.Notifier.Loops.{
  seeded-fire_all, find_item, distinct, is_kind, track-drop_gone, track-advance, track-fire_all,
  any-fire_all, any-recover_all, track-recover_all,
}

rounds : Settings → ℕ → View → Mon → Mon × List Event
rounds s now v tracked =
    let (fired, fire) = fire_all s now v.present tracked in
    let (rest, recover) = recover_all v fired in (rest, fire ++ recover)

cycle-seeded :
    (s : Settings) (now : ℕ) (v : View) (m : Mon)
    → m.seeded ≡ true
    → cycle s now v m ≡ rounds s now v (advance v (drop_gone v m))
unfolding cycle rounds
cycle-seeded s now v m seeded = ground arith

pub seeded-cycle :
    (s : Settings) (now : ℕ) (v : View) (m : Mon)
    → m.seeded ≡ true
    → (cycle s now v m).0.seeded ≡ true
unfolding rounds recover_all advance drop_gone
seeded-cycle s now v m seeded =
    rw (cycle-seeded s now v m seeded)
      (seeded-fire_all s now v.present (advance v (drop_gone v m)) ∙ seeded)

rounds-settle :
    (s : Settings) (now : ℕ) (v : View) (m : Mon) (pk : Pk)
    → distinct v.present ≡ true
    → track (rounds s now v m).0 pk ≡ (settle s now (find_item pk v.present) (track m pk)).0
unfolding rounds settle
rounds-settle s now v m pk d =
    let after = fire_all s now v.present m in
    ground (arith, track-fire_all s now v.present m pk d, track-recover_all v after.0 pk)

rounds-tells :
    (s : Settings) (now : ℕ) (v : View) (m : Mon) (pk : Pk) (kind : Kind)
    → distinct v.present ≡ true
    → any (is_about pk.0 pk.1 kind) (rounds s now v m).1
      ≡ is_kind kind (settle s now (find_item pk v.present) (track m pk)).1
unfolding rounds settle
rounds-tells s now v m pk kind d =
    let after = fire_all s now v.present m in
    rw any-append (
      ground (
        arith,
        any-fire_all s now v.present m pk kind d,
        any-recover_all v after.0 pk kind,
        ap (λ t. t.is_active) (track-fire_all s now v.present m pk d),
      ))

track-tracked :
    (v : View) (m : Mon) (pk : Pk)
    → distinct v.present ≡ true
    → track (advance v (drop_gone v m)) pk
      ≡ count (find_item pk v.present) (forget (gone_pk v pk) (track m pk))
track-tracked v m pk d =
    track-advance v (drop_gone v m) pk d
    ∙ ap (count (find_item pk v.present)) (track-drop_gone v m pk)

-- After the first cycle, whatever the state: for each condition the cycle does to its track what
-- the machine's step does, and the events about it are the one that the step reports, if any.
pub cycle-step :
    (s : Settings) (now : ℕ) (v : View) (m : Mon) (pk : Pk) (kind : Kind)
    → m.seeded ≡ true
    → distinct v.present ≡ true
    → (track (cycle s now v m).0 pk
        ≡ (step s now (gone_pk v pk) (find_item pk v.present) (track m pk)).0)
      × (any (is_about pk.0 pk.1 kind) (cycle s now v m).1
          ≡ is_kind kind (step s now (gone_pk v pk) (find_item pk v.present) (track m pk)).1)
unfolding step
cycle-step s now v m pk kind seeded d = rw (cycle-seeded s now v m seeded) (
  rounds-settle s now v (advance v (drop_gone v m)) pk d
      ∙ ap (λ t. (settle s now (find_item pk v.present) t).0) (track-tracked v m pk d),
  rounds-tells s now v (advance v (drop_gone v m)) pk kind d
      ∙ ap (λ t. is_kind kind (settle s now (find_item pk v.present) t).1) (track-tracked v m pk d),
)

module _ (p : Platform) (s : Settings) (clock now : ℕ) (results : List Envelope) (acks : Acks)
    (m : Mon) where
  -- What one cycle does to the track of one condition, by the fan-out and by the acks that it keeps.
  unfoldable pub stepped : Pk → Track × Option Kind
  stepped pk =
      let snap = snapshot_conditions p clock results in
      let kept = (monitor_cycle p s clock now results acks m).acks in
      step s now (is_gone snap kept (paused_ids results) pk) (seen_at snap kept pk) (track m pk)

pub monitor_cycle-stepped :
    (p : Platform) (s : Settings) (clock now : ℕ) (results : List Envelope) (acks : Acks) (m : Mon)
    (pk : Pk) (kind : Kind)
    → m.seeded ≡ true
    → (track (monitor_cycle p s clock now results acks m).mon pk
        ≡ (stepped p s clock now results acks m pk).0)
      × (any (is_about pk.0 pk.1 kind) (monitor_cycle p s clock now results acks m).events
          ≡ is_kind kind (stepped p s clock now results acks m pk).1)
unfolding monitor_cycle stepped
monitor_cycle-stepped p s clock now results acks m pk kind seeded =
    let snap = snapshot_conditions p clock results in
    let kept = (prune_acks acks (map pk_key (pks (all_present snap))) now).1 in
    let ids = paused_ids results in
    let ok_snap = snapshot_conditions-IsSnapshot p clock results in
    let stepping =
      cycle-step s now (view snap kept ids) m pk kind seeded
        (distinct-view snap kept ids ok_snap) in
    rw (gone_pk-view snap kept ids pk ok_snap, find-view snap kept ids pk ok_snap) at stepping
