-- ===== src/Notifier/Loops.antt =====
-- What each loop of `_monitor_cycle` does to the track of one condition, and what it reports of it.
use nexus_controller.Prelude.{
  ℕ, ◌+◌, ◌≡◌, refl, ap, ◌∙◌, inl, inr, Bool, true, false, not, ◌&&◌, ◌||◌, Option, none, some,
  List, [], ◌∷◌, arith, if◌then◌else◌, Bool-cases, ◌==◌, nat_eq, string_eq, pair_beq, pair_beq_iff,
  pair_eq, select, any, any-map, any-append, contains, contains-append, contains-select,
}
use nexus_controller.Prelude.Dict
use nexus_controller.Prelude.Dict.{Dict, get-set, get-retain}
use nexus_controller.Envelope.{Cond}
use nexus_controller.Monitoring.Snapshot.{Kind, recovered}
use nexus_controller.Monitoring.Diff.{same_kind, is_about}
use nexus_controller.Notifier.{
  Pk, Mon, Settings, Item, pks, View, gone_pk, set_add, or_zero, drop_gone, count_up, advance,
  Track, track, verdict, fire_as, fire_all, recovery, recover_all,
}
use nexus_controller.Notifier.Machine.{forget, count, tell}

-- The condition of the item with this key.
unfoldable pub find_item : Pk → List Item → Option Cond
find_item pk [] = none
find_item pk (i ∷ items) = if i.pk == pk then some i.cond else find_item pk items

-- No key stands twice.
unfoldable pub distinct : List Item → Bool
distinct [] = true
distinct (i ∷ items) = not (contains (pks items) i.pk) && distinct items

abbrev pub is_some {ℓ} : {A : Type ℓ} → Option A → Bool
is_some none = false
is_some (some a) = true

pub contains-pks :
    (pk : Pk) (items : List Item) → contains (pks items) pk ≡ is_some (find_item pk items)
unfolding contains find_item
contains-pks pk [] = refl
contains-pks pk (i ∷ items) = ground (arith, contains-pks pk items)

pub contains-set_add :
    (x a : Pk) (s : List Pk) → contains (set_add x s) a ≡ (x == a || contains s a)
unfolding set_add contains
contains-set_add x a s = elim (Bool-cases (x == a)) [
  | inl same ↦
      ground (arith, contains-append s (x ∷ []) a, ap (contains s) ((pair_beq_iff x a).0 same))
  | inr other ↦ ground (arith, contains-append s (x ∷ []) a)
]

-- An item of a distinct list is in no later place.
find-head :
    (i : Item) (items : List Item) → distinct (i ∷ items) ≡ true → find_item i.pk items ≡ none
unfolding distinct
find-head i items d = ground (arith, contains-pks i.pk items)

distinct-tail : (i : Item) (items : List Item) → distinct (i ∷ items) ≡ true → distinct items ≡ true
unfolding distinct
distinct-tail i items d = ground arith

abbrev counted : Option Cond → ℕ → ℕ
counted none n = n
counted (some c) n = n + 1

get-count_up :
    (pk : Pk) (items : List Item) (streak : Dict Pk ℕ)
    → distinct items ≡ true
    → or_zero (Dict.get pk (count_up items streak))
      ≡ counted (find_item pk items) (or_zero (Dict.get pk streak))
unfolding count_up distinct find_item
get-count_up pk [] streak d = refl
get-count_up pk (i ∷ items) streak d = elim (Bool-cases (i.pk == pk)) [
  | inl same ↦ ground (
    arith,
    find-head i items d,
    ap (λ k. find_item k items) ((pair_beq_iff i.pk pk).0 same),
    ap (λ k. Dict.get k streak) ((pair_beq_iff i.pk pk).0 same),
    get-set i.pk pk (or_zero (Dict.get i.pk streak) + 1) streak,
    get-count_up pk items (Dict.set i.pk (or_zero (Dict.get i.pk streak) + 1) streak)
        (distinct-tail i items d),
  )
  | inr other ↦ ground (
    arith,
    get-set i.pk pk (or_zero (Dict.get i.pk streak) + 1) streak,
    get-count_up pk items (Dict.set i.pk (or_zero (Dict.get i.pk streak) + 1) streak)
        (distinct-tail i items d),
  )
]

pub track-drop_gone :
    (v : View) (m : Mon) (pk : Pk) → track (drop_gone v m) pk ≡ forget (gone_pk v pk) (track m pk)
unfolding track drop_gone forget
track-drop_gone v m pk = ground (
  arith,
  contains-select (λ k. not (gone_pk v k)) m.active pk,
  get-retain (λ k. not (gone_pk v k)) pk m.present_streak,
  get-retain (λ k. not (contains m.active k && gone_pk v k)) pk m.detail,
  get-retain (λ k. not (contains m.active k && gone_pk v k)) pk m.last_fire,
)

pub track-advance :
    (v : View) (m : Mon) (pk : Pk)
    → distinct v.present ≡ true
    → track (advance v m) pk ≡ count (find_item pk v.present) (track m pk)
unfolding track advance count
track-advance v m pk d = ground (
  arith,
  contains-pks pk v.present,
  get-count_up pk v.present m.present_streak d,
  get-retain (contains (pks v.present)) pk (count_up v.present m.present_streak),
)

-- Telling of one item touches no other track.
track-fire_as :
    (now : ℕ) (i : Item) (k : Option Kind) (m : Mon) (pk : Pk)
    → track (fire_as now i k m).0 pk
      ≡ (if i.pk == pk then tell now i.cond k (track m pk) else track m pk)
unfolding track fire_as tell
track-fire_as now i none m pk = ground arith
track-fire_as now i (some kind) m pk = ground (
  arith,
  contains-set_add i.pk pk m.active,
  get-set i.pk pk i.cond.detail m.detail,
  get-set i.pk pk now m.last_fire,
)

abbrev pub fired : Settings → ℕ → Option Cond → Track → Track
fired s now none t = t
fired s now (some c) t = tell now c (verdict s now c t) t

pub track-fire_all :
    (s : Settings) (now : ℕ) (items : List Item) (m : Mon) (pk : Pk)
    → distinct items ≡ true
    → track (fire_all s now items m).0 pk ≡ fired s now (find_item pk items) (track m pk)
unfolding fire_all find_item
track-fire_all s now [] m pk d = refl
track-fire_all s now (i ∷ items) m pk d = elim (Bool-cases (i.pk == pk)) [
  | inl same ↦ ground (
    arith,
    find-head i items d,
    ap (λ k. find_item k items) ((pair_beq_iff i.pk pk).0 same),
    ap (track m) ((pair_beq_iff i.pk pk).0 same),
    track-fire_as now i (verdict s now i.cond (track m i.pk)) m pk,
    track-fire_all s now items (fire_as now i (verdict s now i.cond (track m i.pk)) m).0 pk
        (distinct-tail i items d),
  )
  | inr other ↦ ground (
    arith,
    track-fire_as now i (verdict s now i.cond (track m i.pk)) m pk,
    track-fire_all s now items (fire_as now i (verdict s now i.cond (track m i.pk)) m).0 pk
        (distinct-tail i items d),
  )
]

abbrev pub is_kind : Kind → Option Kind → Bool
is_kind kind none = false
is_kind kind (some k) = same_kind k kind

abbrev pub told_of : Settings → ℕ → Option Cond → Track → Option Kind
told_of s now none t = none
told_of s now (some c) t = verdict s now c t

-- The event of one item is about its own key only.
any-fire_as :
    (now : ℕ) (i : Item) (k : Option Kind) (m : Mon) (pk : Pk) (kind : Kind)
    → any (is_about pk.0 pk.1 kind) (fire_as now i k m).1 ≡ (i.pk == pk && is_kind kind k)
unfolding any fire_as pair_beq
any-fire_as now i none m pk kind = ground arith
any-fire_as now i (some k) m pk kind = ground arith

pub any-fire_all :
    (s : Settings) (now : ℕ) (items : List Item) (m : Mon) (pk : Pk) (kind : Kind)
    → distinct items ≡ true
    → any (is_about pk.0 pk.1 kind) (fire_all s now items m).1
      ≡ is_kind kind (told_of s now (find_item pk items) (track m pk))
unfolding any fire_all find_item
any-fire_all s now [] m pk kind d = refl
any-fire_all s now (i ∷ items) m pk kind d = rw any-append (elim (Bool-cases (i.pk == pk)) [
  | inl same ↦ ground (
    arith,
    find-head i items d,
    ap (λ k. find_item k items) ((pair_beq_iff i.pk pk).0 same),
    ap (track m) ((pair_beq_iff i.pk pk).0 same),
    any-fire_as now i (verdict s now i.cond (track m i.pk)) m pk kind,
    any-fire_all s now items (fire_as now i (verdict s now i.cond (track m i.pk)) m).0 pk kind
        (distinct-tail i items d),
  )
  | inr other ↦ ground (
    arith,
    track-fire_as now i (verdict s now i.cond (track m i.pk)) m pk,
    any-fire_as now i (verdict s now i.cond (track m i.pk)) m pk kind,
    any-fire_all s now items (fire_as now i (verdict s now i.cond (track m i.pk)) m).0 pk kind
        (distinct-tail i items d),
  )
])

any-about :
    (pk : Pk) (b : Bool) (l : List Pk)
    → any (λ k. k.0 == pk.0 && (k.1 == pk.1 && b)) l ≡ (contains l pk && b)
unfolding any contains pair_beq
any-about pk b [] = refl
any-about pk b (k ∷ l) = ground (arith, any-about pk b l)

abbrev pub lost : View → Mon → List Pk
lost v m = select (λ k. not (contains (pks v.present) k)) m.active

pub any-recover_all :
    (v : View) (m : Mon) (pk : Pk) (kind : Kind)
    → any (is_about pk.0 pk.1 kind) (recover_all v m).1 ≡ (
        (track m pk).is_active
        && not (is_some (find_item pk v.present))
        && same_kind recovered kind)
unfolding recover_all recovery track
any-recover_all v m pk kind = ground (
  arith,
  any-map (is_about pk.0 pk.1 kind) (recovery v m) (lost v m),
  any-about pk (same_kind recovered kind) (lost v m),
  contains-select (λ k. not (contains (pks v.present) k)) m.active pk,
  contains-pks pk v.present,
)

abbrev pub recovers : Option Cond → Track → Track
recovers none t = if t.is_active then record t { is_active = false; told = none } else t
recovers (some c) t = t

pub track-recover_all :
    (v : View) (m : Mon) (pk : Pk)
    → track (recover_all v m).0 pk ≡ recovers (find_item pk v.present) (track m pk)
unfolding track recover_all
track-recover_all v m pk = ground (
  arith,
  contains-select (λ k. not (contains (pks v.present) k)) m.active pk,
  contains-select (contains (pks v.present)) m.active pk,
  contains-pks pk v.present,
  get-retain (λ k. not (contains (lost v m) k)) pk m.detail,
)

seeded-fire_as :
    (now : ℕ) (i : Item) (k : Option Kind) (m : Mon) → (fire_as now i k m).0.seeded ≡ m.seeded
unfolding fire_as
seeded-fire_as now i none m = refl
seeded-fire_as now i (some k) m = refl

pub seeded-fire_all :
    (s : Settings) (now : ℕ) (items : List Item) (m : Mon)
    → (fire_all s now items m).0.seeded ≡ m.seeded
unfolding fire_all
seeded-fire_all s now [] m = refl
seeded-fire_all s now (i ∷ items) m =
    seeded-fire_all s now items (fire_as now i (verdict s now i.cond (track m i.pk)) m).0
    ∙ seeded-fire_as now i (verdict s now i.cond (track m i.pk)) m
