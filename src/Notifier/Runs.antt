-- ===== src/Notifier/Runs.antt =====
-- Many cycles in a row: what the events of a run say of one condition.
use nexus_controller.Prelude.{
  ℕ, ◌+◌, ◌*◌, ◌≡◌, refl, ap, ◌∙◌, subst, Bool, true, false, not, ◌||◌, Option, none, some, List,
  [], ◌∷◌, map, arith, nat_eq, string_eq, pair_eq, any,
}
use nexus_controller.Platform.{Platform}
use nexus_controller.Envelope.{Envelope}
use nexus_controller.Monitoring.Snapshot.{Kind, Event, snapshot_conditions}
use nexus_controller.Monitoring.Diff.{is_about}
use nexus_controller.Monitoring.Acks.{Acks, second}
use nexus_controller.Notifier.{Pk, Mon, start, Settings, track, monitor_cycle, paused_ids}
use nexus_controller.Notifier.Items.{is_gone, seen_at}
use nexus_controller.Notifier.Loops.{is_kind}
use nexus_controller.Notifier.Machine.{
  Round, run, step, All, is_silent, IsCooling, run-cooling, step-stamped,
}
use nexus_controller.Notifier.Refines.{stepped, monitor_cycle-stepped, seeded-cycle}

-- What a cycle is given: the two clocks, the fan-out, and the acks that are stored by then.
pub record Input : Type 0 where
  pub clock : ℕ
  pub now : ℕ
  pub results : List Envelope
  pub acks : Acks

module _ (p : Platform) (s : Settings) where
  -- The cycles of the monitor loop, with the events of each.
  unfoldable pub cycles : List Input → Mon → Mon × List (List Event)
  cycles [] m = (m, [])
  cycles (i ∷ inputs) m =
      let out = monitor_cycle p s i.clock i.now i.results i.acks m in
      let (m1, rest) = cycles inputs out.mon in (m1, out.events ∷ rest)

  -- What one cycle is for one condition.
  unfoldable pub round_of : Pk → Input → Round
  round_of pk i =
      let snap = snapshot_conditions p i.clock i.results in
      let kept = (monitor_cycle p s i.clock i.now i.results i.acks start).acks in
      record {
        now = i.now;
        gone = is_gone snap kept (paused_ids i.results) pk;
        seen = seen_at snap kept pk;
      }

-- The events of each cycle say of the condition what the list of words says.
abbrev pub Reports : Pk → List (List Event) → List (Option Kind) → Type 0
Reports pk [] [] = Unit {0}
Reports pk [] (k ∷ ks) = ⊥
Reports pk (es ∷ ess) [] = ⊥
Reports pk (es ∷ ess) (k ∷ ks) =
    ((kind : Kind) → any (is_about pk.0 pk.1 kind) es ≡ is_kind kind k) × Reports pk ess ks

module _ (p : Platform) (s : Settings) (pk : Pk) where
  pub track-round :
      (i : Input) (m : Mon)
      → m.seeded ≡ true
      → track (monitor_cycle p s i.clock i.now i.results i.acks m).mon pk
        ≡ (step s
            (round_of p s pk i).now
            (round_of p s pk i).gone
            (round_of p s pk i).seen
            (track m pk)).0
  unfolding round_of monitor_cycle stepped
  track-round i m seeded =
      (monitor_cycle-stepped p s i.clock i.now i.results i.acks m pk Kind.firing seeded).0

  pub told-round :
      (i : Input) (m : Mon)
      → m.seeded ≡ true
      → (kind : Kind)
      → any (is_about pk.0 pk.1 kind) (monitor_cycle p s i.clock i.now i.results i.acks m).events
        ≡ is_kind kind
            (step s
              (round_of p s pk i).now
              (round_of p s pk i).gone
              (round_of p s pk i).seen
              (track m pk)).1
  unfolding round_of monitor_cycle stepped
  told-round i m seeded kind =
      (monitor_cycle-stepped p s i.clock i.now i.results i.acks m pk kind seeded).1

  pub seeded-round :
      (i : Input) (m : Mon)
      → m.seeded ≡ true
      → (monitor_cycle p s i.clock i.now i.results i.acks m).mon.seeded ≡ true
  unfolding monitor_cycle
  seeded-round i m seeded = seeded-cycle s i.now _ m seeded

  pub track-cycles :
      (inputs : List Input) (m : Mon)
      → m.seeded ≡ true
      → track (cycles p s inputs m).0 pk ≡ (run s (map (round_of p s pk) inputs) (track m pk)).0
  unfolding cycles run
  track-cycles [] m seeded = refl
  track-cycles (i ∷ inputs) m seeded =
      track-cycles inputs (monitor_cycle p s i.clock i.now i.results i.acks m).mon
        (seeded-round i m seeded)
      ∙ ap (λ t. (run s (map (round_of p s pk) inputs) t).0) (track-round i m seeded)

  pub Reports-cycles :
      (inputs : List Input) (m : Mon)
      → m.seeded ≡ true
      → Reports pk (cycles p s inputs m).1 (run s (map (round_of p s pk) inputs) (track m pk)).1
  unfolding cycles run
  Reports-cycles [] m seeded = tt
  Reports-cycles (i ∷ inputs) m seeded = (
    told-round i m seeded,
    subst
        (λ t.
          Reports pk (cycles p s inputs (monitor_cycle p s i.clock i.now i.results i.acks m).mon).1
            (run s (map (round_of p s pk) inputs) t).1)
        (track-round i m seeded)
        (Reports-cycles inputs (monitor_cycle p s i.clock i.now i.results i.acks m).mon
          (seeded-round i m seeded)),
  )

-- Once the first cycle is over, for every condition of every host and every run of cycles: the state
-- at the end holds the track that the machine ends with, and the events of each cycle about the
-- condition are those that the machine reports in that round. So conditions do not interfere.
pub cycles-run :
    (p : Platform) (s : Settings) (pk : Pk) (inputs : List Input) (m : Mon)
    → m.seeded ≡ true
    → (track (cycles p s inputs m).0 pk ≡ (run s (map (round_of p s pk) inputs) (track m pk)).0)
      × Reports pk (cycles p s inputs m).1 (run s (map (round_of p s pk) inputs) (track m pk)).1
cycles-run p s pk inputs m seeded =
    (track-cycles p s pk inputs m seeded, Reports-cycles p s pk inputs m seeded)

-- Whether the events tell of a condition, as firing or as changed.
abbrev pub tells_of : Pk → List Event → Bool
tells_of pk es = any (is_about pk.0 pk.1 Kind.firing) es || any (is_about pk.0 pk.1 Kind.changed) es

pub is_kind-silent :
    (k : Option Kind) → (is_kind Kind.firing k || is_kind Kind.changed k) ≡ not (is_silent k)
is_kind-silent none = refl
is_kind-silent (some Kind.firing) = refl
is_kind-silent (some Kind.changed) = refl
is_kind-silent (some Kind.recovered) = refl

Reports-silent :
    (pk : Pk) (ess : List (List Event)) (ks : List (Option Kind))
    → Reports pk ess ks
    → All (λ k. is_silent k ≡ true) ks
    → All (λ es. tells_of pk es ≡ false) ess
Reports-silent pk [] [] r h = tt
Reports-silent pk [] (k ∷ ks) r h = absurd r
Reports-silent pk (es ∷ ess) [] r h = absurd r
Reports-silent pk (es ∷ ess) (k ∷ ks) r h = (
  ground (arith, r.0 Kind.firing, r.0 Kind.changed, is_kind-silent k),
  Reports-silent pk ess ks r.1 h.1,
)

-- A cycle tells of a condition exactly if the machine says a word of it that is not a recovery.
pub tells_of-round :
    (p : Platform) (s : Settings) (pk : Pk) (i : Input) (m : Mon)
    → m.seeded ≡ true
    → tells_of pk (monitor_cycle p s i.clock i.now i.results i.acks m).events
      ≡ not (
          is_silent
            (step s
              (round_of p s pk i).now
              (round_of p s pk i).gone
              (round_of p s pk i).seen
              (track m pk)).1)
tells_of-round p s pk i m seeded =
    rw (told-round p s pk i m seeded Kind.firing, told-round p s pk i m seeded Kind.changed)
      (is_kind-silent _)

pub now-round_of :
    (p : Platform) (s : Settings) (pk : Pk) (i : Input) → (round_of p s pk i).now ≡ i.now
unfolding round_of
now-round_of p s pk i = refl

-- What a cycle tells of, it stamps with its clock.
last-round :
    (p : Platform) (s : Settings) (pk : Pk) (i : Input) (m : Mon)
    → m.seeded ≡ true
    → tells_of pk (monitor_cycle p s i.clock i.now i.results i.acks m).events ≡ true
    → (track (monitor_cycle p s i.clock i.now i.results i.acks m).mon pk).last ≡ i.now
last-round p s pk i m seeded told =
    ap (λ t. t.last) (track-round p s pk i m seeded)
    ∙ step-stamped s (round_of p s pk i) (track m pk)
        (ground (arith, tells_of-round p s pk i m seeded))
    ∙ now-round_of p s pk i

-- Once the first cycle is over: after a cycle with an event that tells of a condition, as firing or as
-- changed, no later cycle has one within the cooldown of that cycle's clock, as long as the condition
-- stays tracked (not paused, removed or acked), whatever happens to it meanwhile.
pub cooldown_holds :
    (p : Platform) (s : Settings) (pk : Pk) (i : Input) (inputs : List Input) (m : Mon)
    → m.seeded ≡ true
    → tells_of pk (monitor_cycle p s i.clock i.now i.results i.acks m).events ≡ true
    → All (IsCooling (i.now + s.cooldown * second)) (map (round_of p s pk) inputs)
    → All
        (λ es. tells_of pk es ≡ false)
        (cycles p s inputs (monitor_cycle p s i.clock i.now i.results i.acks m).mon).1
cooldown_holds p s pk i inputs m seeded told cooling =
    let after = (monitor_cycle p s i.clock i.now i.results i.acks m).mon in
    let rounds = map (round_of p s pk) inputs in
    let seeded1 = seeded-round p s pk i m seeded in
    Reports-silent pk (cycles p s inputs after).1 (run s rounds (track after pk)).1
      (Reports-cycles p s pk inputs after seeded1)
      (run-cooling s (i.now + s.cooldown * second) rounds (track after pk)
        (ap (λ n. n + s.cooldown * second) (last-round p s pk i m seeded told)) cooling)
