-- ===== src/Checks/Routes/Invariant.antt =====
-- app.py: what every route of the checks and the monitor's runs keep of the store.
use nexus_controller.Prelude.{
  ℕ, String, ◌≡◌, refl, sym, ap, ◌∙◌, inl, inr, Bool, true, false, not, ◌&&◌, Option, none, some,
  List, [], ◌∷◌, ◌++◌, arith, eq_iff, leb, nat_beq, if◌then◌else◌, Option-cases, Checked, ok, err,
  ◌==◌, beq_refl, nat_eq, string_eq, pair_eq, length, select, any, any-select, any-append, contains,
}
use Prim.Native.String
use text.Mathlib.TextLemmas.{nil-append, cons-append}
use nexus_controller.Prelude.Text
use nexus_controller.Prelude.Dict
use nexus_controller.Prelude.Dict.{Dict, has-set, has-delete, has-retain}
use nexus_controller.Checks.{
  Service, services, find_service, is_target, in_range, to_nat, port_number, name_or, Check,
  Payload, clean_check,
}
use nexus_controller.Prelude.Int.{ℤ, pos, negsuc}
use nexus_controller.Checks.Probes.{Network}
use nexus_controller.Checks.Schedule.{
  Result, Host, Store, disabled_ids, run_one_check, result_of_each, latest, check_ids,
  run_all_checks,
}
use nexus_controller.Checks.Routes.Ids.{
  all_once, check_ids-append, all_once-append, check_ids-replace, all_once-ids, any-replace,
  contains-find, contains-select_ids, all_once-select, find_check-id, has-result_of_each,
  has-update,
}
use nexus_controller.Checks.Routes.{
  Moment, find_check, is_found, store_check_result, has_bad_pin, add_checked, replace_check,
  update_found, update_checked, checks_delete, is_hidden, run_found,
}

-- A check that can be probed: a service of the catalogue, a target without a character that an address
-- or a host name cannot have, a port, and a name to show.
unfoldable pub is_valid : Check → Bool
is_valid c =
    is_found (find_service c.service services)
    && is_target c.target
    && (leb 1 c.port && leb c.port 65535)
    && not (Text.is_empty c.name)

pub record IsSound (st : Store) : Type 0 where
  pub valid : any (λ c. not (is_valid c)) st.checks ≡ false
  pub once : all_once st.checks ≡ true
  pub known :
      (id : String) → Dict.has id st.results ≡ true → contains (check_ids st.checks) id ≡ true

find_service-id :
    (id : String) (ss : List Service) (svc : Service) → find_service id ss ≡ some svc → svc.id ≡ id
unfolding find_service
find_service-id id [] svc h = ground arith
find_service-id id (s ∷ ss) svc h = ground (arith, eq_iff s.id id, find_service-id id ss svc)

port-in_range : (z : ℤ) → in_range z ≡ true → (leb 1 (to_nat z) && leb (to_nat z) 65535) ≡ true
port-in_range (pos n) h = h
port-in_range (negsuc n) h = ground arith

is_empty-append :
    (a b : String) → Text.is_empty (String.◌++◌ a b) ≡ (Text.is_empty a && Text.is_empty b)
is_empty-append String.[] b = rw nil-append refl
is_empty-append (String.◌∷◌ c a) b = rw cons-append refl

concat-named : (a b : String) → Text.is_empty (Text.concat (a ∷ " @ " ∷ b ∷ [])) ≡ false
unfolding Text.concat
concat-named a b =
    let rest = String.◌++◌ b "" in
    ground (arith, is_empty-append a (String.◌++◌ " @ " rest), is_empty-append " @ " rest)

name_or-named :
    (name : String) (svc : Service) (target : String)
    → Text.is_empty (name_or name svc target) ≡ false
unfolding name_or
name_or-named name svc target = ground (arith, concat-named svc.label target)

pub clean_check-valid :
    (given : Payload) (rec : Check) → clean_check given ≡ ok rec → is_valid rec ≡ true
unfolding clean_check is_valid
clean_check-valid given rec h =
    elim (Option-cases (find_service (Text.strip given.service) services)) [
      | inl unknown ↦ ground arith
      | inr (svc, is) ↦
          let same = find_service-id (Text.strip given.service) services svc is in
          elim (Option-cases (port_number given.port svc)) [
            | inl junk ↦ ground arith
            | inr (port, reads) ↦ ground (
              arith,
              port-in_range port,
              ap (λ s. find_service s services) same,
              name_or-named (Text.take 48 (Text.strip given.name)) svc (Text.strip given.target),
            )
          ]
    ]

-- Validity does not depend on the identifier and the time of the check.
stamped :
    (rec : Check) (id at : String)
    → is_valid rec ≡ true
    → not (is_valid (record rec { id = id; added_at = at })) ≡ false
unfolding is_valid
stamped rec id at h = ground arith

any-one :
    {A : Type 0} (p : A → Bool) (xs : List A) (x : A)
    → any p xs ≡ false
    → p x ≡ false
    → any p (xs ++ x ∷ []) ≡ false
unfolding any
any-one p xs x h new = ground (arith, any-append p xs (x ∷ []))

if-IsSound :
    {A : Type 0} (x y : A × Store) (b : Bool)
    → IsSound x.1
    → IsSound y.1
    → IsSound (if b then x else y).1
if-IsSound x y true p q = p
if-IsSound x y false p q = q

nothing : (id : String) → Dict.has {V = Result} id [] ≡ false
unfolding Dict.has
nothing id = refl

nobody : (id : String) → contains (check_ids []) id ≡ false
unfolding contains check_ids
nobody id = refl

any-and :
    {A : Type 0} (p q : A → Bool) (xs : List A)
    → any p xs ≡ false
    → any (λ x. q x && p x) xs ≡ false
unfolding any
any-and p q [] h = refl
any-and p q (x ∷ xs) h = ground (arith, any-and p q xs)

module _ {Conn : Type 0} (net : Network Conn) where
  store_check_result-IsSound :
      (m : Moment) (nodes : List Host) (c : Check) (st : Store)
      → IsSound st
      → contains (check_ids st.checks) c.id ≡ true
      → IsSound (store_check_result net m nodes c st).1
  unfolding store_check_result
  store_check_result-IsSound m nodes c st s there = record {
    valid = s.valid;
    once = s.once;
    known = λ id h. ground (
      arith,
      s.known id,
      eq_iff c.id id,
      ap (contains (check_ids st.checks)) _,
      has-set c.id id (run_one_check net m.now (disabled_ids nodes) m.timeout c) st.results,
    );
  }

  pub add_checked-IsSound :
      (m : Moment) (id : String) (nodes : List Host) (given : Payload) (r : Checked Check)
      (st : Store)
      → clean_check given ≡ r
      → contains (check_ids st.checks) id ≡ false
      → IsSound st
      → IsSound (add_checked net m id nodes r st).1
  unfolding add_checked
  add_checked-IsSound m id nodes given (err why) st is new s = s
  add_checked-IsSound m id nodes given (ok rec) st is new s =
      let c = record rec { id = id; added_at = m.now } in
      let grown = record st { checks = st.checks ++ c ∷ [] } in
      let sound : IsSound grown = record {
        valid =
            any-one (λ c. not (is_valid c)) st.checks c s.valid
              (stamped rec id m.now (clean_check-valid given rec is));
        once = all_once-append st.checks c s.once new;
        known = λ k h. ground (arith, check_ids-append st.checks c k, s.known k h);
      } in
      if-IsSound _ _ (has_bad_pin nodes rec) s (
        store_check_result-IsSound m nodes c grown sound
          (ground (arith, check_ids-append st.checks c id, beq_refl id)))

  update_found-IsSound :
      (m : Moment) (id : String) (nodes : List Host) (rec : Check) (old : Option Check) (st : Store)
      → find_check id st.checks ≡ old
      → is_valid rec ≡ true
      → IsSound st
      → IsSound (update_found net m id nodes rec old st).1
  unfolding update_found
  update_found-IsSound m id nodes rec none st found valid s = s
  update_found-IsSound m id nodes rec (some old) st found valid s =
      let c = record rec { id = id; added_at = old.added_at } in
      let same = check_ids-replace id c st.checks refl in
      let sound : IsSound (record st { checks = replace_check id c st.checks }) = record {
        valid =
            any-replace (λ c. not (is_valid c)) id c st.checks s.valid
              (stamped rec id old.added_at valid);
        once = all_once-ids (replace_check id c st.checks) st.checks same ∙ s.once;
        known = λ k h. ap (λ ids. contains ids k) same ∙ s.known k h;
      } in
      store_check_result-IsSound m nodes c (record st { checks = replace_check id c st.checks })
        sound (ap (λ ids. contains ids id) same ∙ ground (arith, contains-find id st.checks, found))

  pub update_checked-IsSound :
      (m : Moment) (id : String) (nodes : List Host) (given : Payload) (r : Checked Check)
      (st : Store)
      → clean_check given ≡ r
      → IsSound st
      → IsSound (update_checked net m id nodes r st).1
  unfolding update_checked
  update_checked-IsSound m id nodes given (err why) st is s = s
  update_checked-IsSound m id nodes given (ok rec) st is s =
      if-IsSound _ _ (has_bad_pin nodes rec) s
        (update_found-IsSound m id nodes rec _ st refl (clean_check-valid given rec is) s)

  pub run_found-IsSound :
      (m : Moment) (scope : Option (List String)) (id : String) (nodes : List Host)
      (found : Option Check) (st : Store)
      → find_check id st.checks ≡ found
      → IsSound st
      → IsSound (run_found net m scope nodes found st).1
  unfolding run_found
  run_found-IsSound m scope id nodes none st is s = s
  run_found-IsSound m scope id nodes (some c) st is s = if-IsSound _ _ (is_hidden scope nodes c) s (
      store_check_result-IsSound m nodes c st s (
        ap (contains (check_ids st.checks)) (find_check-id id st.checks c is)
        ∙ ground (arith, contains-find id st.checks)))

  pub known-latest :
      (run : Check → Result) (cs : List Check) (old : Dict String Result) (id : String)
      → Dict.has id (latest run cs old) ≡ contains (check_ids cs) id
  unfolding latest
  known-latest run [] old id = nothing id ∙ sym (nobody id)
  known-latest run (c ∷ cs) old id =
      has-update (result_of_each run (c ∷ cs) []) (Dict.retain (contains (check_ids (c ∷ cs))) old)
        id
      ∙ ground (
        arith,
        has-result_of_each run (c ∷ cs) [] id,
        has-retain (contains (check_ids (c ∷ cs))) id old,
        nothing id,
      )

  pub run_all_checks-IsSound :
      (now : String) (timeout : ℕ) (nodes : List Host) (st : Store)
      → IsSound st
      → IsSound (run_all_checks net now timeout nodes st)
  unfolding run_all_checks
  run_all_checks-IsSound now timeout nodes st s = record {
    valid = s.valid;
    once = s.once;
    known = λ id h.
        sym (
          known-latest (run_one_check net now (disabled_ids nodes) timeout) st.checks st.results id)
        ∙ h;
  }

pub checks_delete-IsSound :
    (id : String) (st : Store) → IsSound st → IsSound (checks_delete id st).1
unfolding checks_delete
checks_delete-IsSound id st s =
    let rest = select (λ c. not (c.id == id)) st.checks in
    if-IsSound (_, _) (_, _) (nat_beq (length rest) (length st.checks)) s
      (record {
        valid =
            any-select (λ c. not (is_valid c)) (λ c. not (c.id == id)) st.checks
            ∙ any-and (λ c. not (is_valid c)) (λ c. not (c.id == id)) st.checks s.valid;
        once = all_once-select id st.checks s.once;
        known = λ k h.
            contains-select_ids id k st.checks
            ∙ ground (arith, has-delete id k st.results, s.known k);
      })
