-- ===== src/Checks/Routes.antt =====
-- app.py: the routes of the service checks.
pub mod Ids
pub mod Invariant
pub mod Runs
pub mod Visible
use nexus_controller.Prelude.{
  ℕ, String, Bool, true, false, not, ◌&&◌, ◌||◌, Option, none, some, List, [], ◌∷◌, ◌++◌, map,
  nat_beq, if◌then◌else◌, Checked, ok, err, ◌==◌, nat_eq, string_eq, pair_eq, length, select,
  contains,
}
use nexus_controller.Prelude.Text
use nexus_controller.Prelude.Dict
use nexus_controller.Prelude.Dict.{Dict}
use nexus_controller.Access.Scope.{scope_allows}
use nexus_controller.Checks.{Check, Payload, clean_check}
use nexus_controller.Checks.Probes.{Network}
use nexus_controller.Checks.Schedule.{Result, Host, Store, disabled_ids, run_one_check}

-- What the clock and the settings give a request.
pub record Moment : Type 0 where
  pub now : String
  pub timeout : ℕ

unfoldable pub find_host : String → List Host → Option Host
find_host id [] = none
find_host id (n ∷ nodes) = if n.id == id then some n else find_host id nodes

-- next((c for c in checks if c.get('id') == id), None)
unfoldable pub find_check : String → List Check → Option Check
find_check id [] = none
find_check id (c ∷ cs) = if c.id == id then some c else find_check id cs

abbrev pub is_found {ℓ} : {A : Type ℓ} → Option A → Bool
is_found none = false
is_found (some a) = true

-- Probes and stores; the fleet's cache is due at once.
unfoldable pub store_check_result :
    {Conn : Type 0} → Network Conn → Moment → List Host → Check → Store → Result × Store
store_check_result net m nodes c st =
    let result = run_one_check net m.now (disabled_ids nodes) m.timeout c in
    (result, record st { results = Dict.set c.id result st.results; fleet_ts = 0 })

-- rec['node_id'] and not any(n.get('id') == rec['node_id'] for n in nodes)
unfoldable pub has_bad_pin : List Host → Check → Bool
has_bad_pin nodes c = not (Text.is_empty c.node_id) && not (is_found (find_host c.node_id nodes))

-- The part of `checks_add` after the validation.
unfoldable pub add_checked :
    {Conn : Type 0}
    → Network Conn
    → Moment
    → String
    → List Host
    → Checked Check
    → Store
    → Checked (Check × Result) × Store
add_checked net m id nodes (err why) st = (err why, st)
add_checked net m id nodes (ok rec) st =
    if has_bad_pin nodes rec
    then (err "unknown host for pin", st)
    else (let c = record rec { id = id; added_at = m.now } in
        let (result, after) =
          store_check_result net m nodes c (record st { checks = st.checks ++ c ∷ [] }) in
        (ok (c, result), after))

-- POST /api/checks; `id` is what secrets.token_hex draws.
unfoldable pub checks_add :
    {Conn : Type 0}
    → Network Conn
    → Moment
    → String
    → List Host
    → Payload
    → Store
    → Checked (Check × Result) × Store
checks_add net m id nodes given st = add_checked net m id nodes (clean_check given) st

-- data['checks'][i] = rec, at the first check with the identifier
unfoldable pub replace_check : String → Check → List Check → List Check
replace_check id new [] = []
replace_check id new (c ∷ cs) =
    let rest = replace_check id new cs in if c.id == id then new ∷ cs else c ∷ rest

-- The part of `checks_update` after the search for the old record, and after the test of the pin.
unfoldable pub update_found :
    {Conn : Type 0}
    → Network Conn
    → Moment
    → String
    → List Host
    → Check
    → Option Check
    → Store
    → Checked (Check × Result) × Store
update_found net m id nodes rec none st = (err "check not found", st)
update_found net m id nodes rec (some old) st =
    let c = record rec { id = id; added_at = old.added_at } in
    let (result, after) =
      store_check_result net m nodes c (record st { checks = replace_check id c st.checks }) in
    (ok (c, result), after)

unfoldable pub update_checked :
    {Conn : Type 0}
    → Network Conn
    → Moment
    → String
    → List Host
    → Checked Check
    → Store
    → Checked (Check × Result) × Store
update_checked net m id nodes (err why) st = (err why, st)
update_checked net m id nodes (ok rec) st =
    if has_bad_pin nodes rec
    then (err "unknown host for pin", st)
    else update_found net m id nodes rec (find_check id st.checks) st

-- PUT /api/checks/<check_id>
unfoldable pub checks_update :
    {Conn : Type 0}
    → Network Conn
    → Moment
    → String
    → List Host
    → Payload
    → Store
    → Checked (Check × Result) × Store
checks_update net m id nodes given st = update_checked net m id nodes (clean_check given) st

-- DELETE /api/checks/<check_id>
unfoldable pub checks_delete : String → Store → Checked (Option String) × Store
checks_delete id st =
    let rest = select (λ c. not (c.id == id)) st.checks in
    if nat_beq (length rest) (length st.checks) then (err "check not found", st) else (
      ok (elim (find_check id st.checks) [ none ↦ none | some c ↦ some c.name ]),
      record { checks = rest; results = Dict.delete id st.results; fleet_ts = 0 },
    )

-- Whether the scope of the request hides the host that the check is pinned to.
unfoldable pub is_hidden : Option (List String) → List Host → Check → Bool
is_hidden none nodes c = false
is_hidden (some scope) nodes c =
    if Text.is_empty c.node_id then false else elim (find_host c.node_id nodes) [
      | none ↦ false
      | some n ↦ not (scope_allows (some scope) n.tags)
    ]

-- The part of `checks_run` after the search.
unfoldable pub run_found :
    {Conn : Type 0}
    → Network Conn
    → Moment
    → Option (List String)
    → List Host
    → Option Check
    → Store
    → Checked Result × Store
run_found net m scope nodes none st = (err "check not found", st)
run_found net m scope nodes (some c) st =
    if is_hidden scope nodes c
    then (err "check not found", st)
    else (let (result, after) = store_check_result net m nodes c st in (ok result, after))

-- POST /api/checks/<check_id>/run
unfoldable pub checks_run :
    {Conn : Type 0}
    → Network Conn
    → Moment
    → Option (List String)
    → String
    → List Host
    → Store
    → Checked Result × Store
checks_run net m scope id nodes st = run_found net m scope nodes (find_check id st.checks) st

-- {n['id'] for n in reg if scope_allows(scope, n)}
unfoldable pub visible_ids : Option (List String) → List Host → List String
visible_ids scope [] = []
visible_ids scope (n ∷ nodes) =
    let rest = visible_ids scope nodes in if scope_allows scope n.tags then n.id ∷ rest else rest

-- The filter of the list: a scoped account does not see the checks that are pinned out of its scope.
unfoldable pub visible_checks : Option (List String) → List Host → List Check → List Check
visible_checks none nodes cs = cs
visible_checks (some scope) nodes cs =
    select (λ c. Text.is_empty c.node_id || contains (visible_ids (some scope) nodes) c.node_id) cs

-- {n['id']: n['name'] for n in reg}
unfoldable pub names_of : List Host → Dict String String → Dict String String
names_of [] d = d
names_of (n ∷ nodes) d = names_of nodes (Dict.set n.id n.name d)

-- A row of the list: the check, the name of its host and its latest result.
abbrev pub Row : Type 0
Row = Check × (Option String × Option Result)

-- GET /api/checks
unfoldable pub checks_list : Option (List String) → List Host → Store → List Row
checks_list scope nodes st =
    map (λ c. (c, (Dict.get c.node_id (names_of nodes []), Dict.get c.id st.results)))
      (visible_checks scope nodes st.checks)
