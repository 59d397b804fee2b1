-- ===== src/Notifier/Machine.antt =====
-- One condition of one host as a state machine: what a cycle does to its track, given whether it is
-- gone (paused, removed or acked) and what the snapshot says of it now.
use nexus_controller.Prelude.{
  ℕ, ◌+◌, ◌*◌, ◌≤◌, ◌<◌, String, ◌≡◌, refl, sym, ap, ◌∙◌, Bool, true, false, ◌&&◌, ◌||◌, Option,
  none, some, List, [], ◌∷◌, arith, eq_iff, if◌then◌else◌, nat_eq, string_eq, pair_eq, length, any,
}
use nexus_controller.Envelope.{Cond}
use nexus_controller.Monitoring.Snapshot.{Kind, firing, changed, recovered}
use nexus_controller.Prelude.Dict
use nexus_controller.Monitoring.Acks.{second}
use nexus_controller.Notifier.{Settings, Track, verdict, is_told}

abbrev pub no_track : Track
no_track = record { streak = 0; is_active = false; told = none; last = 0 }

-- A condition that is gone is forgotten if it was active; else only its streak is.
unfoldable pub forget : Bool → Track → Track
forget false t = t
forget true t = if t.is_active then no_track else record t { streak = 0 }

unfoldable pub count : Option Cond → Track → Track
count none t = record t { streak = 0 }
count (some c) t = record t { streak = t.streak + 1 }

unfoldable pub tell : ℕ → Cond → Option Kind → Track → Track
tell now c none t = t
tell now c (some kind) t = record t { is_active = true; told = some c.detail; last = now }

unfoldable pub settle : Settings → ℕ → Option Cond → Track → Track × Option Kind
settle s now none t =
    if t.is_active then (record t { is_active = false; told = none }, some recovered) else (t, none)
settle s now (some c) t = (tell now c (verdict s now c t) t, verdict s now c t)

unfoldable pub step : Settings → ℕ → Bool → Option Cond → Track → Track × Option Kind
unfolding forget count settle tell
step s now gone seen t = settle s now seen (count seen (forget gone t))

-- One round: the clock, whether the condition is gone, and what the snapshot says of it.
pub record Round : Type 0 where
  pub now : ℕ
  pub gone : Bool
  pub seen : Option Cond

unfoldable pub run : Settings → List Round → Track → Track × List (Option Kind)
run s [] t = (t, [])
run s (r ∷ rs) t =
    let (t1, k) = step s r.now r.gone r.seen t in let (t2, ks) = run s rs t1 in (t2, k ∷ ks)

abbrev pub All {ℓ} : {A : Type ℓ} → (A → Type 0) → List A → Type 0
All P [] = Unit {0}
All P (x ∷ xs) = P x × All P xs

-- No new word of a condition: nothing, or that it recovered.
abbrev pub is_silent : Option Kind → Bool
is_silent none = true
is_silent (some firing) = false
is_silent (some changed) = false
is_silent (some recovered) = true

-- A tracked round inside the cooldown of the last word.
abbrev pub IsCooling : ℕ → Round → Type 0
IsCooling bound r = (r.gone ≡ false) × (r.now < bound)

step-cooling :
    (s : Settings) (r : Round) (t : Track)
    → IsCooling (t.last + s.cooldown * second) r
    → (is_silent (step s r.now r.gone r.seen t).1 ≡ true)
      × ((step s r.now r.gone r.seen t).0.last ≡ t.last)
unfolding step verdict
step-cooling s r t (tracked, cooling) = ground arith

-- A word of a condition that it is there stamps the track with the clock.
pub step-stamped :
    (s : Settings) (r : Round) (t : Track)
    → is_silent (step s r.now r.gone r.seen t).1 ≡ false
    → (step s r.now r.gone r.seen t).0.last ≡ r.now
unfolding step verdict
step-stamped s r t spoken = ground arith

pub run-cooling :
    (s : Settings) (bound : ℕ) (rs : List Round) (t : Track)
    → t.last + s.cooldown * second ≡ bound
    → All (IsCooling bound) rs
    → All (λ k. is_silent k ≡ true) (run s rs t).1
unfolding run
run-cooling s bound [] t e h = tt
run-cooling s bound (r ∷ rs) t e h =
    let kept = step-cooling s r t (h.0.0, omega arith) in
    (kept.0, run-cooling s bound rs (step s r.now r.gone r.seen t).0 (omega arith) h.1)

-- A tracked round in which the condition is there.
abbrev pub IsThere : Round → Type 0
IsThere r = (r.gone ≡ false) × (Dict.at (λ c. true) r.seen ≡ true)

streak-step :
    (s : Settings) (r : Round) (t : Track)
    → IsThere r
    → (step s r.now r.gone r.seen t).0.streak ≡ t.streak + 1
unfolding step
streak-step s r t h = ground arith

pub run-streak :
    (s : Settings) (rs : List Round) (t : Track)
    → All IsThere rs
    → (run s rs t).0.streak ≡ t.streak + length rs
unfolding run
run-streak s [] t h = omega arith
run-streak s (r ∷ rs) t h =
    omega (arith, streak-step s r t h.0, run-streak s rs (step s r.now r.gone r.seen t).0 h.1)

is_told-eq : (o : Option String) (text : String) → is_told o text ≡ true → o ≡ some text
is_told-eq none text h = cc
is_told-eq (some t) text h = ap some (sym ((eq_iff text t).0 h))

-- Once the streak and the cooldown allow it, a word is said exactly if the text is not the one that was
-- told last.
pub step-speaks :
    (s : Settings) (now : ℕ) (c : Cond) (t : Track)
    → s.flap ≤ t.streak + 1
    → t.last + s.cooldown * second ≤ now
    → is_silent (step s now false (some c) t).1 ≡ (t.is_active && is_told t.told c.detail)
unfolding step verdict
step-speaks s now c t long late = ground arith

abbrev pub is_firing : Option Kind → Bool
is_firing (some firing) = true
is_firing (some changed) = false
is_firing (some recovered) = false
is_firing none = false

-- A condition that is tracked gets up by a word `firing` alone.
pub step-fires :
    (s : Settings) (r : Round) (t : Track)
    → r.gone ≡ false
    → (step s r.now r.gone r.seen t).0.is_active ≡ true
    → (t.is_active || is_firing (step s r.now r.gone r.seen t).1) ≡ true
unfolding step verdict
step-fires s r t tracked up = ground arith

pub run-fires :
    (s : Settings) (rs : List Round) (t : Track)
    → All (λ r. r.gone ≡ false) rs
    → (run s rs t).0.is_active ≡ true
    → (t.is_active || any is_firing (run s rs t).1) ≡ true
unfolding run any
run-fires s [] t h up = ground arith
run-fires s (r ∷ rs) t h up =
    ground (arith, step-fires s r t h.0, run-fires s rs (step s r.now r.gone r.seen t).0 h.1 up)

-- Once the streak and the cooldown allow it, the condition is told, with its current text.
pub step-tells :
    (s : Settings) (now : ℕ) (c : Cond) (t : Track)
    → s.flap ≤ t.streak + 1
    → t.last + s.cooldown * second ≤ now
    → ((step s now false (some c) t).0.is_active ≡ true)
      × ((step s now false (some c) t).0.told ≡ some c.detail)
unfolding step verdict
step-tells s now c t long late = ground (arith, is_told-eq t.told c.detail)

-- The words about one condition that is tracked all along: `firing` only while it is not active,
-- `changed` and `recovered` only while it is.
unfoldable pub follows : Bool → List (Option Kind) → Bool
follows b [] = true
follows b (none ∷ ks) = follows b ks
follows false (some firing ∷ ks) = follows true ks
follows true (some firing ∷ ks) = false
follows false (some changed ∷ ks) = false
follows true (some changed ∷ ks) = follows true ks
follows false (some recovered ∷ ks) = false
follows true (some recovered ∷ ks) = follows false ks

step-follows :
    (s : Settings) (r : Round) (t : Track) (ks : List (Option Kind))
    → r.gone ≡ false
    → follows t.is_active ((step s r.now r.gone r.seen t).1 ∷ ks)
      ≡ follows (step s r.now r.gone r.seen t).0.is_active ks
unfolding step verdict follows
step-follows s r t ks h = ground arith

pub run-follows :
    (s : Settings) (rs : List Round) (t : Track)
    → All (λ r. r.gone ≡ false) rs
    → follows t.is_active (run s rs t).1 ≡ true
unfolding run
run-follows s [] t h = unfold follows in refl
run-follows s (r ∷ rs) t h =
    step-follows s r t (run s rs (step s r.now r.gone r.seen t).0).1 h.0
    ∙ run-follows s rs (step s r.now r.gone r.seen t).0 h.1
