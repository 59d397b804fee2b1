-- ===== src/Monitoring/Digest.antt =====
-- monitoring.py: the order of the digest.
use nexus_controller.Prelude.{◌≡◌, true, false, List, [], ◌∷◌, arith, nat_eq, string_eq, pair_eq}
use nexus_controller.Monitoring.Snapshot.{
  Snapshot, Event, all_events, key_le, insert_event, sort_events, diff_snapshots,
}

-- Sorted by kind, then by severity: no event stands before one with a smaller key.
abbrev pub IsSorted : List Event → Type 0
IsSorted [] = Unit {0}
IsSorted (e ∷ []) = Unit {0}
IsSorted (e ∷ f ∷ es) = (key_le e f ≡ true) × IsSorted (f ∷ es)

key_le_total : (e f : Event) → key_le e f ≡ false → key_le f e ≡ true
unfolding key_le
key_le_total e f h = ground arith

insert_event-IsSorted : (e : Event) (es : List Event) → IsSorted es → IsSorted (insert_event e es)
unfolding insert_event
insert_event-IsSorted e [] h = tt
insert_event-IsSorted e (x ∷ []) h = ground (arith, key_le_total e x)
insert_event-IsSorted e (x ∷ y ∷ es) h =
    ground (arith, key_le_total e x, key_le_total e y, insert_event-IsSorted e (y ∷ es) h.1)

sort_events-IsSorted : (es : List Event) → IsSorted (sort_events es)
unfolding sort_events
sort_events-IsSorted [] = tt
sort_events-IsSorted (e ∷ es) = insert_event-IsSorted e (sort_events es) (sort_events-IsSorted es)

-- The digest lists firing events first, then changed, then recovered ones, and within each kind the
-- worst severity first.
pub diff_snapshots-IsSorted : (prev cur : Snapshot) → IsSorted (diff_snapshots prev cur)
unfolding diff_snapshots
diff_snapshots-IsSorted prev cur = sort_events-IsSorted (all_events prev cur)
