-- ===== src/Metrics/Hosts/Silent.antt =====
-- app.py, metrics.py: a paused host and the checks that are pinned to it, on every page.
use nexus_controller.Prelude.{
  ℕ, String, ◌≡◌, refl, ap, ◌∙◌, true, false, some, List, [], ◌∷◌, nat_eq, string_eq, pair_eq,
}
use nexus_controller.Prelude.Dict
use nexus_controller.Prelude.Dict.{Dict}
use nexus_controller.Checks.{Check}
use nexus_controller.Checks.Probes.{Network}
use nexus_controller.Checks.Schedule.{
  Result, Host, Store, disabled_ids, paused_result, is_paused, run_one_check, run_all_checks,
  check_envs,
}
use nexus_controller.Checks.Routes.{find_check}
use nexus_controller.Checks.Routes.Ids.{all_once}
use nexus_controller.Checks.Cadence.{result_at, run_all_checks-get, is_failing}
use nexus_controller.Board.{grey, check_state, check_entry}
use nexus_controller.Metrics.{Floats}
use nexus_controller.Metrics.Hosts.{check_lines}

paused-check :
    {Conn : Type 0} (net : Network Conn) (now : String) (timeout : ℕ) (disabled : List String)
    (c : Check)
    → is_paused disabled c ≡ true
    → run_one_check net now disabled timeout c ≡ paused_result now
unfolding run_one_check
paused-check net now timeout disabled c h = rw h refl

shows_nothing :
    {Float : Type 0} (fl : Floats Float) (names : Dict String String) (res : Dict String Result)
    (now : String) (c : Check)
    → Dict.get c.id res ≡ some (paused_result now)
    → (check_entry res c ≡ record { name = c.name; state = grey; detail = "" })
      × (check_lines fl c (Dict.get c.id res) names ≡ [])
      × (is_failing (Dict.get c.id res) ≡ false)
      × (check_envs res (c ∷ []) ≡ [])
unfolding check_entry check_state check_lines check_envs
shows_nothing fl names res now c is = (rw is refl, rw is refl, rw is refl, rw (check_envs, is) refl)

-- A check that is pinned to a paused host pauses with it: after a run of the monitor's cadence the
-- wallboard shows it grey and without a detail, the exposition has no series of it, its host has no
-- failure from it, and the monitor has no entity for it.
pub paused_pin :
    {Conn Float : Type 0} (net : Network Conn) (fl : Floats Float) (now : String) (timeout : ℕ)
    (nodes : List Host) (names : Dict String String) (st : Store) (c : Check)
    → all_once st.checks ≡ true
    → find_check c.id st.checks ≡ some c
    → is_paused (disabled_ids nodes) c ≡ true
    → let res = (run_all_checks net now timeout nodes st).results in
      (check_entry res c ≡ record { name = c.name; state = grey; detail = "" })
      × (check_lines fl c (Dict.get c.id res) names ≡ [])
      × (is_failing (Dict.get c.id res) ≡ false)
      × (check_envs res (c ∷ []) ≡ [])
paused_pin net fl now timeout nodes names st c once is paused =
    let res = (run_all_checks net now timeout nodes st).results in
    shows_nothing fl names res now c (
      run_all_checks-get net now timeout nodes st c.id once
      ∙ ap (result_at (run_one_check net now (disabled_ids nodes) timeout)) is
      ∙ ap some (paused-check net now timeout (disabled_ids nodes) c paused))
