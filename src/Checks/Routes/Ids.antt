-- ===== src/Checks/Routes/Ids.antt =====
-- app.py: the lists and dicts of the checks' store, operation by operation.
use nexus_controller.Prelude.{
  String, ◌≡◌, refl, Bool, true, false, not, ◌&&◌, ◌||◌, some, List, [], ◌∷◌, ◌++◌, arith, eq_iff,
  ◌==◌, nat_eq, string_eq, pair_eq, select, any, contains,
}
use nexus_controller.Prelude.Dict
use nexus_controller.Prelude.Dict.{Dict, has-set}
use nexus_controller.Checks.{Check}
use nexus_controller.Checks.Schedule.{Result, result_of_each, update, check_ids}
use nexus_controller.Checks.Routes.{find_check, is_found, replace_check}

-- No identifier stands twice.
unfoldable pub all_once : List Check → Bool
all_once [] = true
all_once (c ∷ cs) = not (contains (check_ids cs) c.id) && all_once cs

pub check_ids-append :
    (cs : List Check) (c : Check) (id : String)
    → contains (check_ids (cs ++ c ∷ [])) id ≡ (contains (check_ids cs) id || c.id == id)
unfolding contains check_ids
check_ids-append [] c id = ground arith
check_ids-append (d ∷ cs) c id = ground (arith, check_ids-append cs c id)

pub all_once-append :
    (cs : List Check) (c : Check)
    → all_once cs ≡ true
    → contains (check_ids cs) c.id ≡ false
    → all_once (cs ++ c ∷ []) ≡ true
unfolding all_once check_ids contains
all_once-append [] c once new = refl
all_once-append (d ∷ cs) c once new =
    ground
      (arith, all_once-append cs c, check_ids-append cs c d.id, eq_iff d.id c.id, eq_iff c.id d.id)

pub check_ids-replace :
    (id : String) (c : Check) (cs : List Check)
    → c.id ≡ id
    → check_ids (replace_check id c cs) ≡ check_ids cs
unfolding check_ids replace_check
check_ids-replace id c [] h = refl
check_ids-replace id c (d ∷ cs) h = ground (arith, check_ids-replace id c cs h, eq_iff d.id id)

pub all_once-ids : (cs ds : List Check) → check_ids cs ≡ check_ids ds → all_once cs ≡ all_once ds
unfolding all_once check_ids
all_once-ids [] [] h = refl
all_once-ids [] (d ∷ ds) h = ground arith
all_once-ids (c ∷ cs) [] h = ground arith
all_once-ids (c ∷ cs) (d ∷ ds) h = ground (arith, all_once-ids cs ds)

pub any-replace :
    (p : Check → Bool) (id : String) (c : Check) (cs : List Check)
    → any p cs ≡ false
    → p c ≡ false
    → any p (replace_check id c cs) ≡ false
unfolding any replace_check
any-replace p id c [] h new = refl
any-replace p id c (d ∷ cs) h new = ground (arith, any-replace p id c cs)

pub contains-find :
    (id : String) (cs : List Check) → contains (check_ids cs) id ≡ is_found (find_check id cs)
unfolding contains check_ids find_check
contains-find id [] = refl
contains-find id (c ∷ cs) = ground (arith, contains-find id cs)

pub contains-select_ids :
    (id k : String) (cs : List Check)
    → contains (check_ids (select (λ c. not (c.id == id)) cs)) k
      ≡ (not (k == id) && contains (check_ids cs) k)
unfolding contains check_ids select
contains-select_ids id k [] = ground arith
contains-select_ids id k (c ∷ cs) =
    ground (arith, contains-select_ids id k cs, eq_iff c.id id, eq_iff c.id k, eq_iff k id)

pub all_once-select :
    (id : String) (cs : List Check)
    → all_once cs ≡ true
    → all_once (select (λ c. not (c.id == id)) cs) ≡ true
unfolding all_once select
all_once-select id [] h = refl
all_once-select id (c ∷ cs) h =
    ground (arith, all_once-select id cs, contains-select_ids id c.id cs)

pub has-result_of_each :
    (run : Check → Result) (cs : List Check) (d : Dict String Result) (k : String)
    → Dict.has k (result_of_each run cs d) ≡ (contains (check_ids cs) k || Dict.has k d)
unfolding result_of_each contains check_ids
has-result_of_each run [] d k = refl
has-result_of_each run (c ∷ cs) d k =
    ground (arith, has-result_of_each run cs (Dict.set c.id (run c) d) k, has-set c.id k (run c) d)

pub has-update :
    (new d : Dict String Result) (k : String)
    → Dict.has k (update new d) ≡ (Dict.has k new || Dict.has k d)
unfolding update Dict.has
has-update [] d k = refl
has-update ((j, v) ∷ new) d k = ground (arith, has-update new (Dict.set j v d) k, has-set j k v d)

pub find_check-id :
    (id : String) (cs : List Check) (c : Check) → find_check id cs ≡ some c → c.id ≡ id
unfolding find_check
find_check-id id [] c h = ground arith
find_check-id id (d ∷ cs) c h = ground (arith, eq_iff d.id id, find_check-id id cs c)
