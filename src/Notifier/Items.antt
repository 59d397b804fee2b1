-- ===== src/Notifier/Items.antt =====
-- The items that a cycle works on: each condition of the snapshot once, and none that is acked.
use nexus_controller.Prelude.{
  String, ◌≡◌, refl, ap, ◌∙◌, inl, inr, Bool, true, not, ◌&&◌, ◌||◌, Option, none, some, List, [],
  ◌∷◌, ◌++◌, arith, eq_iff, if◌then◌else◌, Bool-cases, ◌==◌, nat_eq, string_eq, pair_beq,
  pair_beq_iff, pair_eq, select, contains, contains-select,
}
use nexus_controller.Prelude.Dict
use nexus_controller.Prelude.Dict.{Dict, has-get, unique-head, unique-tail, contains-keys}
use nexus_controller.Envelope.{Cond}
use nexus_controller.Monitoring.Conditions.{Conds}
use nexus_controller.Monitoring.Snapshot.{Snapshot, conds_of}
use nexus_controller.Monitoring.Shape.{Uniques, IsSnapshot}
use nexus_controller.Monitoring.Acks.{Acks}
use nexus_controller.Notifier.{Pk, Item, pks, host_items, all_present, is_acked, view, gone_pk}
use nexus_controller.Notifier.Loops.{find_item, distinct, is_some, contains-pks}

pub find-append :
    (pk : Pk) (xs ys : List Item)
    → find_item pk (xs ++ ys) ≡ elim (find_item pk xs) [ none ↦ find_item pk ys | some c ↦ some c ]
unfolding find_item
find-append pk [] ys = refl
find-append pk (x ∷ xs) ys = ground (arith, find-append pk xs ys)

find-host_items :
    (hid name h k : String) (conds : Conds)
    → find_item (h, k) (host_items hid name conds) ≡ (if hid == h then Dict.get k conds else none)
unfolding find_item host_items Dict.get pair_beq
find-host_items hid name h k [] = ground arith
find-host_items hid name h k ((j, c) ∷ conds) = ground (arith, find-host_items hid name h k conds)

-- What the snapshot says of one condition.
unfoldable pub condition_at : Snapshot → Pk → Option Cond
condition_at snap pk = Dict.get pk.1 (conds_of (Dict.get pk.0 snap))

find-all_present :
    (snap : Snapshot) (pk : Pk)
    → Dict.unique snap ≡ true
    → find_item pk (all_present snap) ≡ condition_at snap pk
unfolding all_present condition_at Dict.get find_item
find-all_present [] pk u = refl
find-all_present ((h, entry) ∷ snap) pk u = elim (Bool-cases (h == pk.0)) [
  | inl same ↦ ground (
    arith,
    find-append pk (host_items h entry.name entry.conditions) (all_present snap),
    find-host_items h entry.name pk.0 pk.1 entry.conditions,
    find-all_present snap pk (unique-tail h entry snap u),
    unique-head h entry snap u,
    ap (λ x. Dict.get x snap) ((eq_iff h pk.0).0 same),
  )
  | inr other ↦ ground (
    arith,
    find-append pk (host_items h entry.name entry.conditions) (all_present snap),
    find-host_items h entry.name pk.0 pk.1 entry.conditions,
    find-all_present snap pk (unique-tail h entry snap u),
  )
]

-- Dropping items by their key.
find-select :
    (q : Pk → Bool) (pk : Pk) (items : List Item)
    → find_item pk (select (λ i. q i.pk) items) ≡ (if q pk then find_item pk items else none)
unfolding find_item select
find-select q pk [] = ground arith
find-select q pk (i ∷ items) = elim (Bool-cases (i.pk == pk)) [
  | inl same ↦ ground (arith, ap q ((pair_beq_iff i.pk pk).0 same), find-select q pk items)
  | inr other ↦ ground (arith, find-select q pk items)
]

distinct-select :
    (q : Pk → Bool) (items : List Item)
    → distinct items ≡ true
    → distinct (select (λ i. q i.pk) items) ≡ true
unfolding distinct select
distinct-select q [] d = refl
distinct-select q (i ∷ items) d = ground (
  arith,
  contains-pks i.pk (select (λ j. q j.pk) items),
  contains-pks i.pk items,
  find-select q i.pk items,
  distinct-select q items,
)

distinct-host_items :
    (hid name : String) (conds : Conds) (rest : List Item)
    → Dict.unique conds ≡ true
    → ((k : String) → find_item (hid, k) rest ≡ none)
    → distinct rest ≡ true
    → distinct (host_items hid name conds ++ rest) ≡ true
unfolding distinct host_items
distinct-host_items hid name [] rest u apart d = d
distinct-host_items hid name ((k, c) ∷ conds) rest u apart d = ground (
  arith,
  contains-pks (hid, k) (host_items hid name conds ++ rest),
  find-append (hid, k) (host_items hid name conds) rest,
  find-host_items hid name hid k conds,
  unique-head k c conds u,
  apart k,
  distinct-host_items hid name conds rest (unique-tail k c conds u) apart d,
)

condition-absent :
    (snap : Snapshot) (h k : String) → Dict.get h snap ≡ none → condition_at snap (h, k) ≡ none
unfolding condition_at Dict.get
condition-absent snap h k e = rw e

distinct-all_present :
    (snap : Snapshot) → Dict.unique snap ≡ true → Uniques snap → distinct (all_present snap) ≡ true
unfolding all_present distinct
distinct-all_present [] u us = refl
distinct-all_present ((h, entry) ∷ snap) u us =
    distinct-host_items h entry.name entry.conditions (all_present snap) us.0
      (λ k.
        find-all_present snap (h, k) (unique-tail h entry snap u)
        ∙ condition-absent snap h k (unique-head h entry snap u))
      (distinct-all_present snap (unique-tail h entry snap u) us.1)

pub distinct-view :
    (snap : Snapshot) (acks : Acks) (paused : List String)
    → IsSnapshot snap
    → distinct (view snap acks paused).present ≡ true
unfolding view
distinct-view snap acks paused h =
    distinct-select (λ pk. not (is_acked acks pk)) (all_present snap)
      (distinct-all_present snap h.hosts h.conds)

-- What the notifier sees of one condition: nothing if it is acked, else what the snapshot says.
unfoldable pub seen_at : Snapshot → Acks → Pk → Option Cond
seen_at snap acks pk = if is_acked acks pk then none else condition_at snap pk

pub find-view :
    (snap : Snapshot) (acks : Acks) (paused : List String) (pk : Pk)
    → IsSnapshot snap
    → find_item pk (view snap acks paused).present ≡ seen_at snap acks pk
unfolding view seen_at
find-view snap acks paused pk h = ground (
  arith,
  find-select (λ k. not (is_acked acks k)) pk (all_present snap),
  find-all_present snap pk h.hosts,
)

contains-acked :
    (q : Pk → Bool) (items : List Item) (pk : Pk)
    → contains (select q (pks items)) pk ≡ (is_some (find_item pk items) && q pk)
contains-acked q items pk = rw contains-select (rw contains-pks)

-- Why a condition is not tracked: its host is paused, its host is not in the snapshot, or it fires
-- and is acked.
unfoldable pub is_gone : Snapshot → Acks → List String → Pk → Bool
is_gone snap acks paused pk =
    (contains paused pk.0 || not (Dict.has pk.0 snap))
    || is_some (condition_at snap pk) && is_acked acks pk

pub gone_pk-view :
    (snap : Snapshot) (acks : Acks) (paused : List String) (pk : Pk)
    → IsSnapshot snap
    → gone_pk (view snap acks paused) pk ≡ is_gone snap acks paused pk
unfolding view gone_pk is_gone
gone_pk-view snap acks paused pk h =
    ground (
      arith,
      contains-acked (is_acked acks) (all_present snap) pk,
      find-all_present snap pk h.hosts,
    )
