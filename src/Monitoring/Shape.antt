-- ===== src/Monitoring/Shape.antt =====
-- monitoring.py: the keys of the snapshots that `snapshot_conditions` builds.
use nexus_controller.Prelude.{
  ℕ, String, ◌≡◌, refl, inl, inr, true, List, [], ◌∷◌, arith, Bool-cases, ◌==◌, nat_eq, string_eq,
  pair_eq,
}
use nexus_controller.Prelude.Text
use nexus_controller.Prelude.Dict
use nexus_controller.Prelude.Dict.{get-set, has-set, has-get, unique-set, unique-head, unique-tail}
use nexus_controller.Platform.{Platform}
use nexus_controller.Envelope.{Envelope}
use nexus_controller.Monitoring.Fires.{unique-host_conditions}
use nexus_controller.Monitoring.Snapshot.{
  HostEntry, Snapshot, snap_step, snapshot_from, snapshot_conditions, conds_of,
}

-- Every host's conditions are a dict too.
abbrev pub Uniques : Snapshot → Type 0
Uniques [] = Unit {0}
Uniques ((hid, entry) ∷ snap) = (Dict.unique entry.conditions ≡ true) × Uniques snap

pub unique-conds_of :
    (hid : String) (snap : Snapshot)
    → Uniques snap
    → Dict.unique (conds_of (Dict.get hid snap)) ≡ true
unfolding Dict.get Dict.unique
unique-conds_of hid [] u = refl
unique-conds_of hid ((h, entry) ∷ snap) u = ground (arith, unique-conds_of hid snap u.1)

Uniques-set :
    (hid : String) (entry : HostEntry) (snap : Snapshot)
    → Dict.unique entry.conditions ≡ true
    → Uniques snap
    → Uniques (Dict.set hid entry snap)
unfolding Dict.set
Uniques-set hid entry [] u h = (u, tt)
Uniques-set hid entry ((k, old) ∷ snap) u h = elim (Bool-cases (k == hid)) [
  | inl same ↦ rw same (u, h.1)
  | inr other ↦ rw other (h.0, Uniques-set hid entry snap u h.1)
]

pub record IsSnapshot (snap : Snapshot) : Type 0 where
  pub hosts : Dict.unique snap ≡ true
  pub conds : Uniques snap

snap_step-IsSnapshot :
    (p : Platform) (clock : ℕ) (snap : Snapshot) (r : Envelope)
    → IsSnapshot snap
    → IsSnapshot (snap_step p clock snap r)
unfolding snap_step
snap_step-IsSnapshot p clock snap r h = elim (Bool-cases (Text.is_empty r.id)) [
  | inl empty ↦ rw empty h
  | inr named ↦ rw named (record {
    hosts = unique-set r.id _ snap h.hosts;
    conds = Uniques-set r.id _ snap (unique-host_conditions p clock r) h.conds;
  })
]

snapshot_from-IsSnapshot :
    (p : Platform) (clock : ℕ) (snap : Snapshot) (results : List Envelope)
    → IsSnapshot snap
    → IsSnapshot (snapshot_from p clock snap results)
unfolding snapshot_from
snapshot_from-IsSnapshot p clock snap [] h = h
snapshot_from-IsSnapshot p clock snap (r ∷ results) h =
    snapshot_from-IsSnapshot p clock (snap_step p clock snap r) results
      (snap_step-IsSnapshot p clock snap r h)

pub snapshot_conditions-IsSnapshot :
    (p : Platform) (clock : ℕ) (results : List Envelope)
    → IsSnapshot (snapshot_conditions p clock results)
unfolding snapshot_conditions Dict.unique
snapshot_conditions-IsSnapshot p clock results =
    snapshot_from-IsSnapshot p clock [] results (record { hosts = refl; conds = tt })
