-- ===== src/Monitoring/Quiet.antt =====
-- What an acknowledgement quiets, and when a condition alerts again.
use nexus_controller.Prelude.{
  ℕ, ◌+◌, ◌*◌, ◌/◌, ◌≤◌, String, ◌≡◌, refl, ap, inl, inr, Bool, true, false, not, ◌&&◌, Option,
  none, some, List, [], ◌∷◌, arith, eq_iff, nat_beq, if◌then◌else◌, nat_beq_iff, Bool-cases, ok,
  ◌==◌, nat_eq, string_eq, pair_eq, length, any, contains,
}
use Prim.Native.Char.{code}
use text.Mathlib.TextLemmas.{nil-append, cons-append, append-nil}
use nexus_controller.Prelude.Text
use nexus_controller.Prelude.Dict
use nexus_controller.Prelude.Dict.{Dict, get-delete, has-get, unique-head, unique-tail}
use nexus_controller.Envelope.{Ack, Entry}
use nexus_controller.Monitoring.Alerts.{one_line_bounds, breaks}
use nexus_controller.Monitoring.Acks.{
  second, Acks, ack_key, Hours, missing, junk, not_positive, micros, clean_ack, is_current,
  current_ack, split_acked, is_spent, spent_keys, delete_all, prune_acks, ack_max_hours,
  partition_bar,
}

abbrev pub is_none {ℓ} : {A : Type ℓ} → Option A → Bool
is_none none = true
is_none (some a) = false

module _ (acks : Acks) (host_id : String) (now : ℕ) where
  split_acked-live :
      (test : Entry → Bool) (entries : List Entry)
      → any test (split_acked entries acks host_id now).0
        ≡ any (λ e. is_none (current_ack acks host_id now e) && test e) entries
  unfolding any split_acked
  split_acked-live test [] = refl
  split_acked-live test (e ∷ entries) = ground (arith, split_acked-live test entries)

  split_acked-acked :
      (test : Entry → Bool) (entries : List Entry)
      → any (λ ea. test ea.0) (split_acked entries acks host_id now).1
        ≡ any (λ e. not (is_none (current_ack acks host_id now e)) && test e) entries
  unfolding any split_acked
  split_acked-acked test [] = refl
  split_acked-acked test (e ∷ entries) = ground (arith, split_acked-acked test entries)

  length-split_acked :
      (entries : List Entry)
      → length (split_acked entries acks host_id now).0
          + length (split_acked entries acks host_id now).1
        ≡ length entries
  unfolding split_acked
  length-split_acked [] = omega arith
  length-split_acked (e ∷ entries) = ground (arith, length-split_acked entries)

-- An entry stays live exactly if no current ack covers it and is quieted exactly if one does, so
-- that a test finds the entries of each kind and no others; no entry is lost or counted twice.
pub split_acked-partition :
    (acks : Acks) (host_id : String) (now : ℕ) (test : Entry → Bool) (entries : List Entry)
    → (any test (split_acked entries acks host_id now).0
        ≡ any (λ e. is_none (current_ack acks host_id now e) && test e) entries)
      × (any (λ ea. test ea.0) (split_acked entries acks host_id now).1
          ≡ any (λ e. not (is_none (current_ack acks host_id now e)) && test e) entries)
      × (length (split_acked entries acks host_id now).0
            + length (split_acked entries acks host_id now).1
          ≡ length entries)
split_acked-partition acks host_id now test entries = (
  split_acked-live acks host_id now test entries,
  split_acked-acked acks host_id now test entries,
  length-split_acked acks host_id now entries,
)

get-delete_all :
    (gone : List String) (acks : Acks) (k : String)
    → Dict.get k (delete_all gone acks) ≡ (if contains gone k then none else Dict.get k acks)
unfolding delete_all contains
get-delete_all [] acks k = refl
get-delete_all (g ∷ gone) acks k =
    ground (arith, get-delete_all gone (Dict.delete g acks) k, get-delete g k acks)

contains-spent_keys :
    (present : List String) (now : ℕ) (acks : Acks) (k : String)
    → Dict.unique acks ≡ true
    → contains (spent_keys present now acks) k ≡ Dict.at (is_spent present now k) (Dict.get k acks)
unfolding spent_keys contains Dict.get
contains-spent_keys present now [] k u = refl
contains-spent_keys present now ((j, a) ∷ acks) k u = elim (Bool-cases (j == k)) [
  | inl same ↦ ground (
    arith,
    ap (λ x. is_spent present now x a) ((eq_iff j k).0 same),
    ap (λ x. Dict.get x acks) ((eq_iff j k).0 same),
    unique-head j a acks u,
    contains-spent_keys present now acks k (unique-tail j a acks u),
  )
  | inr other ↦ ground (arith, contains-spent_keys present now acks k (unique-tail j a acks u))
]

-- What pruning leaves of one acknowledgement: it stays if its condition is present and it is
-- current, else it goes.
unfoldable pub kept : List String → ℕ → String → Option Ack → Option Ack
kept present now k none = none
kept present now k (some a) = if contains present k && is_current now a then some a else none

-- Pruning a dict of acknowledgements keeps those whose condition still fires and whose snooze has
-- not ended, each as it was, and drops all others; it reports as gone the keys of those it dropped,
-- and no others.
pub get-prune_acks :
    (acks : Acks) (present : List String) (now : ℕ) (k : String)
    → Dict.unique acks ≡ true
    → (Dict.get k (prune_acks acks present now).1 ≡ kept present now k (Dict.get k acks))
      × (contains (prune_acks acks present now).0 k
          ≡ (Dict.has k acks && is_none (kept present now k (Dict.get k acks))))
unfolding prune_acks kept is_spent is_current
get-prune_acks acks present now k u = ground (
  arith,
  contains-spent_keys present now acks k u,
  get-delete_all (spent_keys present now acks) acks k,
  has-get k acks,
)

-- Once a condition has cleared at a pruning, its acknowledgement is gone: if it comes back, however
-- soon, it is a live entry again.
pub recurrence_is_live :
    (acks : Acks) (present : List String) (host_id : String) (now later : ℕ) (e : Entry)
    → Dict.unique acks ≡ true
    → contains present (ack_key host_id e.key) ≡ false
    → split_acked (e ∷ []) (prune_acks acks present now).1 host_id later ≡ (e ∷ [], [])
unfolding split_acked current_ack kept
recurrence_is_live acks present host_id now later e u cleared =
    ground (arith, (get-prune_acks acks present now (ack_key host_id e.key) u).0)

-- An ack without an end, or one that ends at most 720 hours after the clock, in whole seconds.
abbrev pub EndsWithin : ℕ → Option ℕ → Type 0
EndsWithin now none = Unit {0}
EndsWithin now (some until) = (now / second ≤ until) × (until ≤ now / second + ack_max_hours * 3600)

-- An accepted request is stamped with its second and its author, has a note of one line of at most
-- 200 characters, and ends, if at all, between the request and 720 hours after it, in whole seconds.
pub clean_ack-accepted :
    (hours : Hours) (note author : String) (now : ℕ) (a : Ack)
    → clean_ack hours note author now ≡ ok a
    → (a.author ≡ author)
      × (a.ts ≡ now / second)
      × (Text.length a.note ≤ 200)
      × (Text.any_code breaks a.note ≡ false)
      × EndsWithin now a.until
unfolding clean_ack
clean_ack-accepted missing note author now a h =
    ground (arith, one_line_bounds note 200 (omega arith))
clean_ack-accepted junk note author now a h = cc
clean_ack-accepted not_positive note author now a h = cc
clean_ack-accepted (micros n) note author now a h =
    ground (arith, one_line_bounds note 200 (omega arith))

-- Reading a key of the stored acknowledgements back gives the host and the condition that it was
-- written for, for every host id without `|`: an acknowledgement is never taken for that of another
-- host or of another condition.
pub partition-ack_key :
    (h k : String) → Text.any_code (nat_beq b'|') h ≡ false → partition_bar (ack_key h k) ≡ (h, k)
unfolding ack_key Text.concat partition_bar Text.any_code
partition-ack_key String.[] k n = rw nil-append (rw cons-append (rw nil-append (rw append-nil)))
partition-ack_key (String.◌∷◌ c h) k n =
    rw cons-append
      (ground (arith, partition-ack_key h k, nat_beq_iff b'|' (code c), nat_beq_iff (code c) b'|'))
