-- ===== src/Checks/Routes/Visible.antt =====
-- app.py: what a request may see and run of the checks, and what a removal removes.
use nexus_controller.Prelude.{
  suc, String, ◌≡◌, refl, sym, ap, ◌∙◌, inl, inr, Bool, true, false, not, ◌&&◌, ◌||◌, Option, none,
  some, List, [], ◌∷◌, map, arith, eq_iff, nat_beq, if◌then◌else◌, nat_beq_iff, Bool-cases, Checked,
  ok, err, ◌==◌, nat_eq, string_eq, pair_eq, length, select, any, length-select-le, contains,
}
use nexus_controller.Prelude.Text
use nexus_controller.Prelude.Dict
use nexus_controller.Prelude.Dict.{Dict, get-delete}
use nexus_controller.Access.Scope.{scope_allows}
use nexus_controller.Checks.{Check}
use nexus_controller.Checks.Probes.{Network}
use nexus_controller.Checks.Schedule.{Host, Store, check_ids}
use nexus_controller.Checks.Routes.{
  Moment, find_host, find_check, checks_delete, is_hidden, run_found, checks_run, visible_ids,
  visible_checks, checks_list,
}
use nexus_controller.Checks.Routes.Ids.{all_once}

find-select :
    (id k : String) (cs : List Check)
    → find_check k (select (λ c. not (c.id == id)) cs) ≡ (if k == id then none else find_check k cs)
unfolding find_check select
find-select id k [] = ground arith
find-select id k (c ∷ cs) =
    ground (arith, find-select id k cs, eq_iff c.id id, eq_iff c.id k, eq_iff k id)

-- A removal leaves a list as long as it was only if there was no such check.
shorter :
    (id : String) (cs : List Check)
    → nat_beq (length (select (λ c. not (c.id == id)) cs)) (length cs)
      ≡ not (contains (check_ids cs) id)
unfolding select contains check_ids
shorter id [] = refl
shorter id (c ∷ cs) = ground (
  arith,
  shorter id cs,
  length-select-le (λ c. not (c.id == id)) cs,
  nat_beq_iff (length (select (λ c. not (c.id == id)) cs)) (length cs),
  nat_beq_iff (length (select (λ c. not (c.id == id)) cs)) (suc (length cs)),
  nat_beq_iff (suc (length (select (λ c. not (c.id == id)) cs))) (suc (length cs)),
)

-- Whether a request was refused.
abbrev pub is_refused {ℓ} : {A : Type ℓ} → Checked A → Bool
is_refused (ok a) = false
is_refused (err why) = true

-- A removal is refused exactly if there is no check of the identifier, and then changes nothing; else the
-- check and its result are gone, and every other check and result is as it was.
pub checks_delete-gone :
    (id k : String) (st : Store)
    → let there = contains (check_ids st.checks) id in
      (is_refused (checks_delete id st).0 ≡ not there)
      × (find_check k (checks_delete id st).1.checks
          ≡ (if there && k == id then none else find_check k st.checks))
      × (Dict.get k (checks_delete id st).1.results
          ≡ (if there && k == id then none else Dict.get k st.results))
unfolding checks_delete
checks_delete-gone id k st = elim (Bool-cases (contains (check_ids st.checks) id)) [
  | inl there ↦ (
    ground (arith, shorter id st.checks),
    ground (arith, shorter id st.checks, find-select id k st.checks),
    ground (arith, shorter id st.checks, get-delete id k st.results, eq_iff id k, eq_iff k id),
  )
  | inr absent ↦ (
    ground (arith, shorter id st.checks),
    ground (arith, shorter id st.checks),
    ground (arith, shorter id st.checks),
  )
]

-- No two hosts of the registry share an identifier.
unfoldable pub hosts_once : List Host → Bool
hosts_once [] = true
hosts_once (n ∷ nodes) = not (any (λ o. o.id == n.id) nodes) && hosts_once nodes

absent_visible :
    (scope : Option (List String)) (id : String) (nodes : List Host)
    → any (λ o. o.id == id) nodes ≡ false
    → contains (visible_ids scope nodes) id ≡ false
unfolding any visible_ids contains
absent_visible scope id [] h = refl
absent_visible scope id (n ∷ nodes) h = ground (arith, absent_visible scope id nodes)

hidden_host :
    (scope : Option (List String)) (id : String) (nodes : List Host) (n : Host)
    → hosts_once nodes ≡ true
    → find_host id nodes ≡ some n
    → scope_allows scope n.tags ≡ false
    → contains (visible_ids scope nodes) id ≡ false
unfolding hosts_once find_host visible_ids contains
hidden_host scope id [] n u is h = ground arith
hidden_host scope id (o ∷ nodes) n u is h = elim (Bool-cases (o.id == id)) [
  | inl same ↦ ground (
    arith,
    absent_visible scope id nodes,
    ap (λ x. any (λ q. q.id == x) nodes) ((eq_iff o.id id).0 same),
  )
  | inr other ↦ ground (arith, hidden_host scope id nodes n)
]

absent-select :
    (p : Check → Bool) (id : String) (cs : List Check)
    → contains (check_ids cs) id ≡ false
    → find_check id (select p cs) ≡ none
unfolding contains check_ids find_check select
absent-select p id [] h = refl
absent-select p id (c ∷ cs) h = ground (arith, absent-select p id cs)

select-hides :
    (scope : List String) (nodes : List Host) (id : String) (cs : List Check) (c : Check)
    → all_once cs ≡ true
    → find_check id cs ≡ some c
    → Text.is_empty c.node_id ≡ false
    → contains (visible_ids (some scope) nodes) c.node_id ≡ false
    → find_check id (visible_checks (some scope) nodes cs) ≡ none
unfolding all_once find_check visible_checks select
select-hides scope nodes id [] c once is pinned unseen = ground arith
select-hides scope nodes id (d ∷ cs) c once is pinned unseen =
    let seen : Check → Bool =
      λ c. Text.is_empty c.node_id || contains (visible_ids (some scope) nodes) c.node_id in
    elim (Bool-cases (d.id == id)) [
      | inl same ↦
          ground (
            arith,
            absent-select seen id cs,
            ap (contains (check_ids cs)) ((eq_iff d.id id).0 same),
          )
      | inr other ↦ ground (arith, select-hides scope nodes id cs c)
    ]

hidden_run :
    {Conn : Type 0} (net : Network Conn) (m : Moment) (scope : List String) (nodes : List Host)
    (c : Check) (st : Store) (n : Host)
    → Text.is_empty c.node_id ≡ false
    → find_host c.node_id nodes ≡ some n
    → scope_allows (some scope) n.tags ≡ false
    → run_found net m (some scope) nodes (some c) st ≡ (err "check not found", st)
unfolding run_found is_hidden
hidden_run net m scope nodes c st n pinned host closed = rw (pinned, host, closed) refl

rows_of :
    {A : Type 0} (row : Check → A) (cs : List Check)
    → map (λ (r : Check × A). r.0) (map (λ c. (c, row c)) cs) ≡ cs
rows_of row [] = refl
rows_of row (c ∷ cs) = ap (λ ds. c ∷ ds) (rows_of row cs)

-- A check that is pinned to a host outside the scope of the request is not in its list, and a request to
-- run it is refused with the same words as one for a check that does not exist, whatever the network and
-- the clock would say to either; neither changes a check or a result. No two checks and no two hosts
-- share an identifier.
pub checks_run-hidden :
    {Conn Other : Type 0} (net : Network Conn) (other : Network Other) (m later : Moment)
    (scope : List String) (id missing : String) (nodes : List Host) (st : Store) (c : Check)
    (n : Host)
    → all_once st.checks ≡ true
    → hosts_once nodes ≡ true
    → find_check id st.checks ≡ some c
    → Text.is_empty c.node_id ≡ false
    → find_host c.node_id nodes ≡ some n
    → scope_allows (some scope) n.tags ≡ false
    → find_check missing st.checks ≡ none
    → (checks_run net m (some scope) id nodes st
        ≡ checks_run other later (some scope) missing nodes st)
      × ((checks_run net m (some scope) id nodes st).1 ≡ st)
      × (find_check id (map (λ row. row.0) (checks_list (some scope) nodes st)) ≡ none)
unfolding checks_run checks_list run_found
checks_run-hidden net other m later scope id missing nodes st c n once hosts is pinned host closed
      absent =
    let refused = hidden_run net m scope nodes c st n pinned host closed in
    (
      ap (λ f. run_found net m (some scope) nodes f st) is
          ∙ refused
          ∙ sym (ap (λ f. run_found other later (some scope) nodes f st) absent),
      ap (λ f. (run_found net m (some scope) nodes f st).1) is ∙ ap (λ r. r.1) refused,
      ap (find_check id) (rows_of _ (visible_checks (some scope) nodes st.checks))
          ∙ select-hides scope nodes id st.checks c once is pinned
              (hidden_host (some scope) c.node_id nodes n hosts host closed),
    )
