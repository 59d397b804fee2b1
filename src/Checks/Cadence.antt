-- ===== src/Checks/Cadence.antt =====
-- app.py: what a run of all the checks leaves, and who hears of which check.
use nexus_controller.Prelude.{
  ℕ, String, ◌≡◌, refl, sym, ap, ◌∙◌, inl, inr, Bool, true, false, not, ◌&&◌, ◌||◌, Option, none,
  some, List, [], ◌∷◌, arith, eq_iff, ltb, nat_beq, if◌then◌else◌, Bool-cases, Option-cases, ◌==◌,
  nat_eq, string_eq, pair_eq, length, select, any, contains,
}
use nexus_controller.Prelude.Text
use nexus_controller.Prelude.Dict
use nexus_controller.Prelude.Dict.{Dict, get-set, get-retain, has-get, unique-set}
use nexus_controller.Envelope.{CheckView, Envelope}
use nexus_controller.Platform.{Platform}
use nexus_controller.Monitoring.Conditions.{has_failed, failed_checks}
use nexus_controller.Monitoring.Fires.{fires, up_fires}
use nexus_controller.Checks.{Check}
use nexus_controller.Checks.Probes.{Network}
use nexus_controller.Checks.Schedule.{
  Result, Host, Store, disabled_ids, run_one_check, result_of_each, update, check_ids, latest,
  run_all_checks, view_of, views_for, attach_one, attach_svc_checks, check_envs, check_monitor_envs,
}
use nexus_controller.Checks.Routes.{find_check}
use nexus_controller.Checks.Routes.Ids.{all_once}

-- The result of the check of an identifier, or nothing without such a check.
abbrev pub result_at : (Check → Result) → Option Check → Option Result
result_at run none = none
result_at run (some c) = some (run c)

abbrev or_before : Option Result → Option Result → Option Result
or_before none before = before
or_before (some r) before = some r

pub find-absent :
    (id : String) (cs : List Check) → contains (check_ids cs) id ≡ false → find_check id cs ≡ none
unfolding contains check_ids find_check
find-absent id [] h = refl
find-absent id (c ∷ cs) h = ground (arith, find-absent id cs)

get-result_of_each :
    (run : Check → Result) (cs : List Check) (d : Dict String Result) (id : String)
    → all_once cs ≡ true
    → Dict.get id (result_of_each run cs d)
      ≡ or_before (result_at run (find_check id cs)) (Dict.get id d)
unfolding result_of_each all_once find_check
get-result_of_each run [] d id h = refl
get-result_of_each run (c ∷ cs) d id h = elim (Bool-cases (c.id == id)) [
  | inl same ↦ ground (
    arith,
    get-result_of_each run cs (Dict.set c.id (run c) d) id,
    get-set c.id id (run c) d,
    find-absent id cs,
    ap (contains (check_ids cs)) ((eq_iff c.id id).0 same),
  )
  | inr other ↦
      ground
        (arith, get-result_of_each run cs (Dict.set c.id (run c) d) id, get-set c.id id (run c) d)
]

get-update :
    (new d : Dict String Result) (id : String)
    → Dict.unique new ≡ true
    → Dict.get id (update new d) ≡ or_before (Dict.get id new) (Dict.get id d)
unfolding update Dict.get Dict.unique
get-update [] d id h = refl
get-update ((k, v) ∷ new) d id h = elim (Bool-cases (k == id)) [
  | inl same ↦ ground (
    arith,
    get-update new (Dict.set k v d) id,
    get-set k id v d,
    has-get id new,
    ap (λ x. Dict.has x new) ((eq_iff k id).0 same),
  )
  | inr other ↦ ground (arith, get-update new (Dict.set k v d) id, get-set k id v d)
]

unique-result_of_each :
    (run : Check → Result) (cs : List Check) (d : Dict String Result)
    → Dict.unique d ≡ true
    → Dict.unique (result_of_each run cs d) ≡ true
unfolding result_of_each
unique-result_of_each run [] d u = u
unique-result_of_each run (c ∷ cs) d u =
    unique-result_of_each run cs (Dict.set c.id (run c) d) (unique-set c.id (run c) d u)

no_results :
    (id : String)
    → (Dict.get {V = Result} id [] ≡ none) × (Dict.unique {K = String} {V = Result} [] ≡ true)
unfolding Dict.get Dict.unique
no_results id = (refl, refl)

find-contains :
    (id : String) (cs : List Check) → find_check id cs ≡ none → contains (check_ids cs) id ≡ false
unfolding contains check_ids find_check
find-contains id [] h = refl
find-contains id (c ∷ cs) h = ground (arith, find-contains id cs)

no_check : (run : Check → Result) (id : String) → none ≡ result_at run (find_check id [])
unfolding find_check
no_check run id = refl

get-latest :
    (run : Check → Result) (cs : List Check) (old : Dict String Result) (id : String)
    → all_once cs ≡ true
    → Dict.get id (latest run cs old) ≡ result_at run (find_check id cs)
unfolding latest
get-latest run [] old id once = (no_results id).0 ∙ no_check run id
get-latest run (c ∷ cs) old id once =
    let new = result_of_each run (c ∷ cs) [] in
    let kept = Dict.retain (contains (check_ids (c ∷ cs))) old in
    let new_is = get-result_of_each run (c ∷ cs) [] id once in
    let all = get-update new kept id (unique-result_of_each run (c ∷ cs) [] (no_results id).1) in
    elim (Option-cases (find_check id (c ∷ cs))) [
      | inl missing ↦ ground (
        arith,
        all,
        new_is,
        (no_results id).0,
        find-contains id (c ∷ cs),
        get-retain (contains (check_ids (c ∷ cs))) id old,
      )
      | inr (d, is) ↦ ground (arith, all, new_is)
    ]

pub run_all_checks-get :
    {Conn : Type 0} (net : Network Conn) (now : String) (timeout : ℕ) (nodes : List Host)
    (st : Store) (id : String)
    → all_once st.checks ≡ true
    → Dict.get id (run_all_checks net now timeout nodes st).results
      ≡ result_at (run_one_check net now (disabled_ids nodes) timeout) (find_check id st.checks)
unfolding run_all_checks
run_all_checks-get net now timeout nodes st id once =
    get-latest (run_one_check net now (disabled_ids nodes) timeout) st.checks st.results id once

abbrev pub is_pinned : Check → Bool
is_pinned c = not (Text.is_empty c.node_id)

views_for-pinned :
    (res : Dict String Result) (id : String) (cs : List Check)
    → views_for res id cs ≡ views_for res id (select is_pinned cs)
unfolding views_for select
views_for-pinned res id [] = refl
views_for-pinned res id (c ∷ cs) = ground (arith, views_for-pinned res id cs)

attach_one-pinned :
    (st : Store) (env : Envelope)
    → attach_one st env ≡ attach_one (record st { checks = select is_pinned st.checks }) env
unfolding attach_one
attach_one-pinned st env = rw (sym (views_for-pinned st.results env.id st.checks)) refl

attach-pinned :
    (st : Store) (envs : List Envelope)
    → attach_svc_checks st envs
      ≡ attach_svc_checks (record st { checks = select is_pinned st.checks }) envs
unfolding attach_svc_checks
attach-pinned st [] = refl
attach-pinned st (env ∷ envs) = ground (arith, attach_one-pinned st env, attach-pinned st envs)

unpinned-twice :
    (cs : List Check)
    → select (λ c. Text.is_empty c.node_id) (select (λ c. not (is_pinned c)) cs)
      ≡ select (λ c. Text.is_empty c.node_id) cs
unfolding select
unpinned-twice [] = refl
unpinned-twice (c ∷ cs) = elim (Bool-cases (Text.is_empty c.node_id)) [
  | inl kept ↦ ground (arith, unpinned-twice cs)
  | inr left ↦ ground (arith, unpinned-twice cs)
]

-- No check is reported twice: the hosts' envelopes depend on the pinned checks alone, and the monitor
-- entities of their own on the unpinned ones alone.
pub checks-apart :
    (st : Store) (envs : List Envelope)
    → (attach_svc_checks st envs
        ≡ attach_svc_checks (record st { checks = select is_pinned st.checks }) envs)
      × (check_monitor_envs st
          ≡ check_monitor_envs (record st { checks = select (λ c. not (is_pinned c)) st.checks }))
unfolding check_monitor_envs
checks-apart st envs =
    (attach-pinned st envs, ap (check_envs st.results) (sym (unpinned-twice st.checks)))

-- Whether the latest result of a check is a failure.
abbrev pub is_failing : Option Result → Bool
is_failing none = false
is_failing (some r) = elim r.ok [ some false ↦ true | some true ↦ false | none ↦ false ]

-- A check that is pinned to the host and whose latest result is a failure.
abbrev pub fails_host : Dict String Result → String → Check → Bool
fails_host res id c = is_pinned c && c.node_id == id && is_failing (Dict.get c.id res)

failed-view :
    (res : Dict String Result) (c : Check)
    → has_failed (view_of res c) ≡ is_failing (Dict.get c.id res)
unfolding view_of
failed-view res c = elim (Option-cases (Dict.get c.id res)) [
  | inl missing ↦ ground arith
  | inr (r, is) ↦ ground arith
]

views_for-failed :
    (res : Dict String Result) (id : String) (cs : List Check)
    → ltb 0 (length (select has_failed (views_for res id cs))) ≡ any (fails_host res id) cs
unfolding views_for select any
views_for-failed res id [] = refl
views_for-failed res id (c ∷ cs) = ground (arith, views_for-failed res id cs, failed-view res c)

attach_one-kept :
    (st : Store) (env : Envelope)
    → ((attach_one st env).disabled ≡ env.disabled) × ((attach_one st env).ok ≡ env.ok)
unfolding attach_one
attach_one-kept st env = (ground arith, ground arith)

with_views :
    (env : Envelope) (views : List CheckView)
    → env.disabled ≡ false
    → env.svc_checks ≡ []
    → (if env.disabled || nat_beq (length views) 0
        then env
        else record env { svc_checks = views }).svc_checks
      ≡ views
with_views env [] d h = ground arith
with_views env (v ∷ views) d h = ground arith

attach_one-views :
    (st : Store) (env : Envelope)
    → env.disabled ≡ false
    → env.svc_checks ≡ []
    → (attach_one st env).svc_checks ≡ views_for st.results env.id st.checks
unfolding attach_one
attach_one-views st env monitored none_yet =
    with_views env (views_for st.results env.id st.checks) monitored none_yet

-- A host that is monitored and answers has the condition "check_failed" exactly if one of the checks that
-- are pinned to it failed when it was last probed.
pub attach_one-fires :
    (p : Platform) (clock : ℕ) (st : Store) (env : Envelope)
    → env.disabled ≡ false
    → env.ok ≡ true
    → env.svc_checks ≡ []
    → fires p clock (attach_one st env) "check_failed"
      ≡ any (fails_host st.results env.id) st.checks
unfolding failed_checks
attach_one-fires p clock st env monitored up none_yet =
    let (same_disabled, same_ok) = attach_one-kept st env in
    let fired = up_fires p clock (attach_one st env) (same_disabled ∙ monitored) (same_ok ∙ up) in
    fired.4
    ∙ ap (λ views. ltb 0 (length (select has_failed views)))
        (attach_one-views st env monitored none_yet)
    ∙ views_for-failed st.results env.id st.checks
