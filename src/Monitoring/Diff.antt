-- ===== src/Monitoring/Diff.antt =====
-- What `diff_snapshots` reports.
use nexus_controller.Prelude.{
  ℕ, String, ◌≡◌, refl, ap, ◌∙◌, subst, inl, inr, Bool, true, false, not, ◌&&◌, ◌||◌, Option, none,
  some, List, [], ◌∷◌, arith, eq_iff, Bool-cases, ◌==◌, beq_refl, nat_eq, string_eq, pair_eq, any,
  any-append,
}
use nexus_controller.Prelude.Dict
use nexus_controller.Prelude.Dict.{get-set, has-set, has-get, unique-set, unique-head, unique-tail}
use nexus_controller.Platform.{Platform}
use nexus_controller.Envelope.{Cond, Envelope}
use nexus_controller.Monitoring.Conditions.{Conds}
use nexus_controller.Monitoring.Snapshot.{
  HostEntry, Snapshot, Kind, firing, changed, recovered, Event, snapshot_conditions, conds_of,
  appear, new_events, gone_events, all_events, insert_event, sort_events, diff_snapshots,
}
use nexus_controller.Monitoring.Shape.{Uniques, snapshot_conditions-IsSnapshot, unique-conds_of}

abbrev pub same_kind : Kind → Kind → Bool
same_kind firing firing = true
same_kind changed changed = true
same_kind recovered recovered = true
same_kind _ _ = false

-- The event is about this condition of this host, and of this kind.
abbrev pub is_about : String → String → Kind → Event → Bool
is_about hid key kind e = e.host_id == hid && (e.key == key && same_kind e.kind kind)

-- The event that one condition of one host calls for, from its old and its new value.
unfoldable pub calls_for : Option Cond → Option Cond → Kind → Bool
calls_for none none kind = false
calls_for none (some c) kind = same_kind firing kind
calls_for (some old) none kind = same_kind recovered kind
calls_for (some old) (some c) kind = not (old.detail == c.detail) && same_kind changed kind

any-insert_event :
    (p : Event → Bool) (e : Event) (es : List Event) → any p (insert_event e es) ≡ (p e || any p es)
unfolding any insert_event
any-insert_event p e [] = refl
any-insert_event p e (x ∷ xs) = ground (arith, any-insert_event p e xs)

any-sort_events : (p : Event → Bool) (es : List Event) → any p (sort_events es) ≡ any p es
unfolding any sort_events
any-sort_events p [] = refl
any-sort_events p (e ∷ es) = rw any-insert_event (rw (any-sort_events p es))

-- What the conditions that a host has now call for, at one key.
abbrev now_calls : Option Cond → Option Cond → Kind → Bool
now_calls old none kind = false
now_calls none (some c) kind = same_kind firing kind
now_calls (some old) (some c) kind = not (old.detail == c.detail) && same_kind changed kind

abbrev gone_calls : Option Cond → Option Cond → Kind → Bool
gone_calls none new kind = false
gone_calls (some old) none kind = same_kind recovered kind
gone_calls (some old) (some c) kind = false

any-appear :
    (hid name key k : String) (kind : Kind) (c : Cond) (old : Option Cond) (rest : List Event)
    → any (is_about hid k kind) (appear hid name key c old rest)
      ≡ (key == k && now_calls old (some c) kind || any (is_about hid k kind) rest)
unfolding any appear
any-appear hid name key k kind c none rest = ground (arith, beq_refl hid)
any-appear hid name key k kind c (some old) rest = ground (arith, beq_refl hid)

new_events-calls :
    (hid name key : String) (kind : Kind) (pconds cconds : Conds)
    → Dict.unique cconds ≡ true
    → any (is_about hid key kind) (new_events hid name pconds cconds)
      ≡ now_calls (Dict.get key pconds) (Dict.get key cconds) kind
unfolding any new_events Dict.get
new_events-calls hid name key kind pconds [] u = refl
new_events-calls hid name key kind pconds ((k, c) ∷ cconds) u = elim (Bool-cases (k == key)) [
  | inl same ↦ ground (
    arith,
    any-appear hid name k key kind c (Dict.get k pconds) (new_events hid name pconds cconds),
    ap (λ j. Dict.get j pconds) ((eq_iff k key).0 same),
    ap (λ j. Dict.get j cconds) ((eq_iff k key).0 same),
    unique-head k c cconds u,
    new_events-calls hid name key kind pconds cconds (unique-tail k c cconds u),
  )
  | inr other ↦ ground (
    arith,
    any-appear hid name k key kind c (Dict.get k pconds) (new_events hid name pconds cconds),
    new_events-calls hid name key kind pconds cconds (unique-tail k c cconds u),
  )
]

gone_events-calls :
    (hid name key : String) (kind : Kind) (pconds cconds : Conds)
    → Dict.unique pconds ≡ true
    → any (is_about hid key kind) (gone_events hid name pconds cconds)
      ≡ gone_calls (Dict.get key pconds) (Dict.get key cconds) kind
unfolding any gone_events Dict.get
gone_events-calls hid name key kind [] cconds u = refl
gone_events-calls hid name key kind ((k, c) ∷ pconds) cconds u = elim (Bool-cases (k == key)) [
  | inl same ↦ ground (
    arith,
    beq_refl hid,
    has-get k cconds,
    ap (λ j. Dict.get j cconds) ((eq_iff k key).0 same),
    ap (λ j. Dict.get j pconds) ((eq_iff k key).0 same),
    unique-head k c pconds u,
    gone_events-calls hid name key kind pconds cconds (unique-tail k c pconds u),
  )
  | inr other ↦
      ground (arith, gone_events-calls hid name key kind pconds cconds (unique-tail k c pconds u))
]

-- The events of one host are about no other host.
new_events-other :
    (other hid name key : String) (kind : Kind) (pconds cconds : Conds)
    → (other == hid) ≡ false
    → any (is_about hid key kind) (new_events other name pconds cconds) ≡ false
unfolding any new_events appear
new_events-other other hid name key kind pconds [] h = refl
new_events-other other hid name key kind pconds ((k, c) ∷ cconds) h =
    ground (arith, new_events-other other hid name key kind pconds cconds h)

gone_events-other :
    (other hid name key : String) (kind : Kind) (pconds cconds : Conds)
    → (other == hid) ≡ false
    → any (is_about hid key kind) (gone_events other name pconds cconds) ≡ false
unfolding any gone_events
gone_events-other other hid name key kind [] cconds h = refl
gone_events-other other hid name key kind ((k, c) ∷ pconds) cconds h =
    ground (arith, gone_events-other other hid name key kind pconds cconds h)

-- What a host of the new snapshot calls for; a host that is only in the old one calls for nothing.
unfoldable pub host_calls : Option HostEntry → Option HostEntry → String → Kind → Bool
host_calls old none key kind = false
host_calls old (some entry) key kind =
    calls_for (Dict.get key (conds_of old)) (Dict.get key entry.conditions) kind

now_or_gone :
    (old new : Option Cond) (kind : Kind)
    → (now_calls old new kind || gone_calls old new kind) ≡ calls_for old new kind
unfolding calls_for
now_or_gone old new kind = ground arith

own_events :
    (hid name key : String) (kind : Kind) (pconds cconds : Conds) (rest : Bool)
    → Dict.unique pconds ≡ true
    → Dict.unique cconds ≡ true
    → rest ≡ false
    → (any (is_about hid key kind) (new_events hid name pconds cconds)
        || any (is_about hid key kind) (gone_events hid name pconds cconds)
        || rest)
      ≡ calls_for (Dict.get key pconds) (Dict.get key cconds) kind
own_events hid name key kind pconds cconds rest up uc none_left = ground (
  arith,
  new_events-calls hid name key kind pconds cconds uc,
  gone_events-calls hid name key kind pconds cconds up,
  now_or_gone (Dict.get key pconds) (Dict.get key cconds) kind,
)

all_events-calls :
    (prev cur : Snapshot) (hid key : String) (kind : Kind)
    → Uniques prev
    → Dict.unique cur ≡ true
    → Uniques cur
    → any (is_about hid key kind) (all_events prev cur)
      ≡ host_calls (Dict.get hid prev) (Dict.get hid cur) key kind
unfolding any all_events host_calls Dict.get
all_events-calls prev [] hid key kind up u uc = refl
all_events-calls prev ((h, entry) ∷ cur) hid key kind up u uc =
    let pconds = conds_of (Dict.get h prev) in
    let cconds = entry.conditions in
    rw any-append (
      rw any-append (elim (Bool-cases (h == hid)) [
        | inl same ↦ rw same (
            subst
              (λ x.
                (any (is_about x key kind) (new_events h entry.name pconds cconds)
                  || any (is_about x key kind) (gone_events h entry.name pconds cconds)
                  || any (is_about x key kind) (all_events prev cur))
                ≡ calls_for (Dict.get key (conds_of (Dict.get x prev))) (Dict.get key cconds) kind)
              ((eq_iff h hid).0 same)
              (own_events h entry.name key kind pconds cconds
                (any (is_about h key kind) (all_events prev cur)) (unique-conds_of h prev up) uc.0
                (all_events-calls prev cur h key kind up (unique-tail h entry cur u) uc.1
                  ∙ ap (λ o. host_calls (Dict.get h prev) o key kind) (unique-head h entry cur u))))
        | inr other ↦ ground (
          arith,
          new_events-other h hid entry.name key kind pconds cconds other,
          gone_events-other h hid entry.name key kind pconds cconds other,
          all_events-calls prev cur hid key kind up (unique-tail h entry cur u) uc.1,
        )
      ]))

-- Between the snapshots of two fan-outs, an event about a condition of a host is reported exactly
-- when it is called for: `firing` if the condition is new, `changed` if it stays with another
-- detail, `recovered` if it is gone, and nothing if it stays as it was or if the host itself is not
-- in the new snapshot.
pub diff_snapshots-calls :
    (p : Platform) (clock0 clock1 : ℕ) (results0 results1 : List Envelope) (hid key : String)
    (kind : Kind)
    → any (is_about hid key kind) (
        diff_snapshots
          (snapshot_conditions p clock0 results0)
          (snapshot_conditions p clock1 results1))
      ≡ host_calls
          (Dict.get hid (snapshot_conditions p clock0 results0))
          (Dict.get hid (snapshot_conditions p clock1 results1))
          key
          kind
unfolding diff_snapshots
diff_snapshots-calls p clock0 clock1 results0 results1 hid key kind =
    any-sort_events (is_about hid key kind) (all_events snap0 snap1)
    ∙ all_events-calls snap0 snap1 hid key kind
        (snapshot_conditions-IsSnapshot p clock0 results0).conds
        (snapshot_conditions-IsSnapshot p clock1 results1).hosts
        (snapshot_conditions-IsSnapshot p clock1 results1).conds
  where
    snap0 : Snapshot
    snap0 = snapshot_conditions p clock0 results0

    snap1 : Snapshot
    snap1 = snapshot_conditions p clock1 results1
