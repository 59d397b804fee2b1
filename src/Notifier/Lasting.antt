-- ===== src/Notifier/Lasting.antt =====
-- A condition that lasts, over many cycles in a row: what becomes of it, and what is reported of it.
use nexus_controller.Prelude.{
  suc, ◌+◌, ◌*◌, ◌≤◌, ◌≡◌, refl, sym, ap, ◌∙◌, Bool, true, false, not, ◌&&◌, ◌||◌, Option, none,
  some, List, [], ◌∷◌, ◌++◌, map, arith, nat_eq, string_eq, pair_eq, length, any, any-append,
}
use nexus_controller.Platform.{Platform}
use nexus_controller.Envelope.{Cond}
use nexus_controller.Monitoring.Snapshot.{Kind, Event}
use nexus_controller.Monitoring.Diff.{is_about}
use nexus_controller.Monitoring.Acks.{second}
use nexus_controller.Notifier.{Pk, Mon, Settings, track, is_told, monitor_cycle}
use nexus_controller.Notifier.Loops.{is_kind}
use nexus_controller.Notifier.Machine.{
  Round, run, All, IsThere, run-streak, step-tells, step-speaks, is_firing, step-fires, run-fires,
}
use nexus_controller.Notifier.Runs.{
  Input, cycles, round_of, Reports, track-round, told-round, seeded-round, track-cycles,
  Reports-cycles, tells_of, tells_of-round, now-round_of,
}

seeded-cycles :
    (p : Platform) (s : Settings) (pk : Pk) (inputs : List Input) (m : Mon)
    → m.seeded ≡ true
    → (cycles p s inputs m).0.seeded ≡ true
unfolding cycles
seeded-cycles p s pk [] m seeded = seeded
seeded-cycles p s pk (i ∷ inputs) m seeded =
    seeded-cycles p s pk inputs (monitor_cycle p s i.clock i.now i.results i.acks m).mon
      (seeded-round p s pk i m seeded)

length-map {ℓ κ} :
    {A : Type ℓ} {B : Type κ} (f : A → B) (xs : List A) → length (map f xs) ≡ length xs
length-map f [] = refl
length-map f (x ∷ xs) = ap suc (length-map f xs)

streak-cycles :
    (p : Platform) (s : Settings) (pk : Pk) (inputs : List Input) (m : Mon)
    → m.seeded ≡ true
    → All IsThere (map (round_of p s pk) inputs)
    → length inputs ≤ (track (cycles p s inputs m).0 pk).streak
streak-cycles p s pk inputs m seeded there =
    let rounds = map (round_of p s pk) inputs in
    omega (
      arith,
      ap (λ t. t.streak) (track-cycles p s pk inputs m seeded),
      run-streak s rounds (track m pk) there,
      length-map (round_of p s pk) inputs,
    )

-- A condition that is there is tracked.
tracked-All : (rs : List Round) → All IsThere rs → All (λ r. r.gone ≡ false) rs
tracked-All [] h = tt
tracked-All (r ∷ rs) h = (h.0.0, tracked-All rs h.1)

is_kind-firing : (k : Option Kind) → is_kind Kind.firing k ≡ is_firing k
is_kind-firing none = refl
is_kind-firing (some Kind.firing) = refl
is_kind-firing (some Kind.changed) = refl
is_kind-firing (some Kind.recovered) = refl

-- Whether some cycle reports that the condition fires.
abbrev pub any_fires : Pk → List (List Event) → Bool
any_fires pk ess = any (any (is_about pk.0 pk.1 Kind.firing)) ess

Reports-fires :
    (pk : Pk) (ess : List (List Event)) (ks : List (Option Kind))
    → Reports pk ess ks
    → any_fires pk ess ≡ any is_firing ks
unfolding any
Reports-fires pk [] [] r = refl
Reports-fires pk [] (k ∷ ks) r = absurd r
Reports-fires pk (es ∷ ess) [] r = absurd r
Reports-fires pk (es ∷ ess) (k ∷ ks) r =
    ground (arith, r.0 Kind.firing, is_kind-firing k, Reports-fires pk ess ks r.1)

-- Whatever got up in a run was up before it, or a `firing` was reported.
fires-cycles :
    (p : Platform) (s : Settings) (pk : Pk) (inputs : List Input) (m : Mon)
    → m.seeded ≡ true
    → All IsThere (map (round_of p s pk) inputs)
    → (track (cycles p s inputs m).0 pk).is_active ≡ true
    → ((track m pk).is_active || any_fires pk (cycles p s inputs m).1) ≡ true
fires-cycles p s pk inputs m seeded there up =
    let rounds = map (round_of p s pk) inputs in
    rw
      (Reports-fires pk (cycles p s inputs m).1 (run s rounds (track m pk)).1
        (Reports-cycles p s pk inputs m seeded))
      (run-fires s rounds (track m pk) (tracked-All rounds there)
        (sym (ap (λ t. t.is_active) (track-cycles p s pk inputs m seeded)) ∙ up))

-- The same of one cycle.
fires-round :
    (p : Platform) (s : Settings) (pk : Pk) (i : Input) (m : Mon)
    → m.seeded ≡ true
    → (round_of p s pk i).gone ≡ false
    → (track (monitor_cycle p s i.clock i.now i.results i.acks m).mon pk).is_active ≡ true
    → ((track m pk).is_active
        || any
            (is_about pk.0 pk.1 Kind.firing)
            (monitor_cycle p s i.clock i.now i.results i.acks m).events)
      ≡ true
fires-round p s pk i m seeded tracked up =
    rw (told-round p s pk i m seeded Kind.firing, is_kind-firing _)
      (step-fires s (round_of p s pk i) (track m pk) tracked
        (sym (ap (λ t. t.is_active) (track-round p s pk i m seeded)) ∙ up))

module _ (p : Platform) (s : Settings) (pk : Pk) (i : Input) (c : Cond) (m : Mon)
    (seeded : m.seeded ≡ true) (tracked : (round_of p s pk i).gone ≡ false)
    (seen : (round_of p s pk i).seen ≡ some c) (long : s.flap ≤ (track m pk).streak + 1)
    (late : (track m pk).last + s.cooldown * second ≤ i.now) where
  told_now :
      ((track (monitor_cycle p s i.clock i.now i.results i.acks m).mon pk).is_active ≡ true)
      × ((track (monitor_cycle p s i.clock i.now i.results i.acks m).mon pk).told ≡ some c.detail)
  told_now =
      rw (track-round p s pk i m seeded, now-round_of p s pk i, tracked, seen)
        (step-tells s i.now c (track m pk) long late)

  speaks_now :
      tells_of pk (monitor_cycle p s i.clock i.now i.results i.acks m).events
      ≡ not ((track m pk).is_active && is_told (track m pk).told c.detail)
  speaks_now =
      tells_of-round p s pk i m seeded
      ∙ rw (now-round_of p s pk i, tracked, seen)
          (ap not (step-speaks s i.now c (track m pk) long late))

-- Once the first cycle is over: a condition that is there, tracked (not paused, removed or acked), in
-- at least `flap` cycles in a row, the last of them after the cooldown of the last word, is reported:
-- if it was not up before these cycles, one of them has a `firing` event of it. The last cycle leaves
-- it up, with its text as the one that is told, and has an event that tells of it, as firing or as
-- changed, exactly if it was not up with that text before.
pub lasting_is_told :
    (p : Platform) (s : Settings) (pk : Pk) (inputs : List Input) (i : Input) (c : Cond) (m : Mon)
    → m.seeded ≡ true
    → All IsThere (map (round_of p s pk) inputs)
    → (round_of p s pk i).gone ≡ false
    → (round_of p s pk i).seen ≡ some c
    → s.flap ≤ length inputs + 1
    → (track (cycles p s inputs m).0 pk).last + s.cooldown * second ≤ i.now
    → let (before, reports) = cycles p s inputs m in
      let out = monitor_cycle p s i.clock i.now i.results i.acks before in
      (((track m pk).is_active || any_fires pk (reports ++ out.events ∷ [])) ≡ true)
      × ((track out.mon pk).is_active ≡ true)
      × ((track out.mon pk).told ≡ some c.detail)
      × (tells_of pk out.events
          ≡ not ((track before pk).is_active && is_told (track before pk).told c.detail))
unfolding any
lasting_is_told p s pk inputs i c m seeded there tracked seen long late =
    let before = (cycles p s inputs m).0 in
    let seeded1 = seeded-cycles p s pk inputs m seeded in
    let grown = streak-cycles p s pk inputs m seeded there in
    let told = told_now p s pk i c before seeded1 tracked seen (omega arith) late in
    (
      rw any-append (
          ground (
            arith,
            fires-cycles p s pk inputs m seeded there,
            fires-round p s pk i before seeded1 tracked told.0,
          )),
      told.0,
      told.1,
      speaks_now p s pk i c before seeded1 tracked seen (omega arith) late,
    )
