-- ===== src/Monitoring/AckRoutes.antt =====
-- app.py: the routes `acks_add` and `acks_delete`, with `_find_node`.
use nexus_controller.Prelude.{
  ℕ, String, ◌≡◌, refl, ap, ◌∙◌, subst, inl, inr, Bool, true, not, ◌&&◌, ◌||◌, Option, none, some,
  List, [], ◌∷◌, arith, eq_iff, leb, nat_beq, if◌then◌else◌, Bool-cases, Option-cases, Checked, ok,
  err, ◌==◌, beq_refl, nat_eq, string_eq, pair_eq,
}
use nexus_controller.Prelude.Text
use nexus_controller.Prelude.Dict
use nexus_controller.Prelude.Dict.{get-set, get-delete}
use nexus_controller.Envelope.{Ack, Entry}
use nexus_controller.Access.{Reply, done, refuse}
use nexus_controller.Access.Scope.{scope_allows}
use nexus_controller.Monitoring.Acks.{
  Acks, ack_key, Hours, clean_ack, is_current, current_ack, split_acked,
}

-- A host of the registry, with the fields that the routes read.
pub record Host : Type 0 where
  pub id : String
  pub name : String
  pub tags : List String

-- A host outside the scope of the request is not found.
unfoldable pub find_node : Option (List String) → String → List Host → Option Host
find_node scope id [] = none
find_node scope id (n ∷ nodes) =
    if n.id == id
    then (if scope_allows scope n.tags then some n else none)
    else find_node scope id nodes

-- ^[a-z_]{1,32}\Z
unfoldable pub is_condition_key : String → Bool
is_condition_key s =
    leb 1 (Text.length s)
    && leb (Text.length s) 32
    && not (Text.any_code (λ c. not (leb 97 c && leb c 122 || nat_beq c 95)) s)

abbrev pub saved_ack : Acks → String → Checked Ack → Reply Acks
saved_ack acks k (ok rec) = done (Dict.set k rec acks)
saved_ack acks k (err why) = refuse 400 why

-- What is stored afterwards; `author` is the login that asks.
unfoldable pub acks_add :
    Option (List String)
    → List Host
    → Acks
    → (author host_id key note : String) → Hours
    → ℕ
    → Reply Acks
acks_add scope nodes acks author host_id key note hours now =
    elim (find_node scope (Text.strip host_id) nodes) [
      | none ↦ refuse 404 "node not found"
      | some n ↦
          if not (is_condition_key (Text.strip key))
          then refuse 400 "invalid condition key"
          else saved_ack acks (ack_key n.id (Text.strip key)) (clean_ack hours note author now)
    ]

unfoldable pub acks_delete :
    Option (List String) → List Host → Acks → (host_id key : String) → Reply Acks
acks_delete scope nodes acks host_id key = elim (find_node scope host_id nodes) [
  | none ↦ refuse 404 "node not found"
  | some n ↦
      if Dict.has (ack_key n.id key) acks
      then done (Dict.delete (ack_key n.id key) acks)
      else refuse 404 "not acknowledged"
]

find_node-id :
    (scope : Option (List String)) (id : String) (nodes : List Host) (n : Host)
    → find_node scope id nodes ≡ some n
    → (n.id ≡ id) × (scope_allows scope n.tags ≡ true)
unfolding find_node
find_node-id scope id [] n h = ground arith
find_node-id scope id (m ∷ nodes) n h = elim (Bool-cases (m.id == id)) [
  | inl same ↦ elim (Bool-cases (scope_allows scope m.tags)) [
    | inl seen ↦
        let is : m ≡ n = ground arith in
        (
          subst (λ x. x.id ≡ id) is ((eq_iff m.id id).0 same),
          subst (λ x. scope_allows scope x.tags ≡ true) is seen,
        )
    | inr hidden ↦ ground arith
  ]
  | inr other ↦ find_node-id scope id nodes n (ground arith)
]

split_acked-found :
    (acks : Acks) (hid : String) (later : ℕ) (e : Entry) (rec : Ack)
    → Dict.get (ack_key hid e.key) acks ≡ some rec
    → split_acked (e ∷ []) acks hid later
      ≡ (if is_current later rec then ([], (e, rec) ∷ []) else (e ∷ [], []))
unfolding split_acked current_ack
split_acked-found acks hid later e rec h = ground arith

split_acked-missing :
    (acks : Acks) (hid : String) (later : ℕ) (e : Entry)
    → Dict.get (ack_key hid e.key) acks ≡ none
    → split_acked (e ∷ []) acks hid later ≡ (e ∷ [], [])
unfolding split_acked current_ack
split_acked-missing acks hid later e h = ground arith

saved_ack-done :
    (acks after : Acks) (k : String) (x : Checked Ack)
    → saved_ack acks k x ≡ done after
    → (rec : Ack) × (x ≡ ok rec) × (Dict.get k after ≡ some rec)
saved_ack-done acks after k (ok rec) h =
    (rec, refl, ground (arith, get-set k k rec acks, beq_refl k))
saved_ack-done acks after k (err why) h = ground arith

-- Only a host inside the scope of the request can be acknowledged. Once a condition of it has been,
-- an entry with its key is quiet at any time at which the new acknowledgement is current.
pub acks_add-quiets :
    (scope : Option (List String)) (nodes : List Host) (acks after : Acks)
    (author host_id key note : String) (hours : Hours) (now later : ℕ) (e : Entry)
    → acks_add scope nodes acks author host_id key note hours now ≡ done after
    → e.key ≡ Text.strip key
    → (n : Host) × (rec : Ack) × (find_node scope (Text.strip host_id) nodes ≡ some n)
      × (scope_allows scope n.tags ≡ true)
      × (clean_ack hours note author now ≡ ok rec)
      × (split_acked (e ∷ []) after n.id later
          ≡ (if is_current later rec then ([], (e, rec) ∷ []) else (e ∷ [], [])))
unfolding acks_add
acks_add-quiets scope nodes acks after author host_id key note hours now later e h same =
    elim (Option-cases (find_node scope (Text.strip host_id) nodes)) [
      | inl missing ↦ ground arith
      | inr (n, is) ↦
          let saves : saved_ack acks (ack_key n.id (Text.strip key))
                (clean_ack hours note author now)
              ≡ done after =
            ground arith in
          let (rec, accepted, stored) =
            saved_ack-done acks after (ack_key n.id (Text.strip key))
              (clean_ack hours note author now) saves in
          (
            n,
            rec,
            is,
            (find_node-id scope (Text.strip host_id) nodes n is).1,
            accepted,
            split_acked-found after n.id later e rec
                (ap (λ k. Dict.get (ack_key n.id k) after) same ∙ stored),
          )
    ]

-- Once the acknowledgement of a condition has been deleted, an entry with its key is live again.
pub acks_delete-live :
    (scope : Option (List String)) (nodes : List Host) (acks after : Acks) (host_id : String)
    (later : ℕ) (e : Entry)
    → acks_delete scope nodes acks host_id e.key ≡ done after
    → split_acked (e ∷ []) after host_id later ≡ (e ∷ [], [])
unfolding acks_delete
acks_delete-live scope nodes acks after host_id later e h =
    split_acked-missing after host_id later e (elim (Option-cases (find_node scope host_id nodes)) [
      | inl missing ↦ ground arith
      | inr (n, is) ↦ ground (
        arith,
        get-delete (ack_key n.id e.key) (ack_key n.id e.key) acks,
        beq_refl (ack_key n.id e.key),
        ap (λ x. Dict.get (ack_key x e.key) after) (find_node-id scope host_id nodes n is).0,
      )
    ])
