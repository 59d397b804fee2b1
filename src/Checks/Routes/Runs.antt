-- ===== src/Checks/Routes/Runs.antt =====
-- app.py: the runs of the checks' store, from an empty file on.
use nexus_controller.Prelude.{
  ℕ, String, ◌≡◌, refl, false, Option, List, [], arith, nat_eq, string_eq, pair_eq, any, contains,
}
use nexus_controller.Prelude.Dict
use nexus_controller.Prelude.Dict.{Dict}
use nexus_controller.Checks.{Payload}
use nexus_controller.Checks.Probes.{Network}
use nexus_controller.Checks.Schedule.{Host, Store, check_ids, run_all_checks}
use nexus_controller.Checks.Routes.{Moment, checks_add, checks_update, checks_delete, checks_run}
use nexus_controller.Checks.Routes.Ids.{all_once}
use nexus_controller.Checks.Routes.Invariant.{
  IsSound, add_checked-IsSound, update_checked-IsSound, run_found-IsSound, run_all_checks-IsSound,
  checks_delete-IsSound,
}

-- One request or one run of the monitor, whatever the registry, the clock and the network are then. The
-- identifier that is drawn for a new check is a new one.
pub data Step {Conn : Type 0} (net : Network Conn) : Store → Store → Type 0 where
  added :
      {st : Store} (m : Moment) (id : String) (nodes : List Host) (given : Payload)
      → contains (check_ids st.checks) id ≡ false
      → Step net st (checks_add net m id nodes given st).1
  updated :
      {st : Store} (m : Moment) (id : String) (nodes : List Host) (given : Payload)
      → Step net st (checks_update net m id nodes given st).1
  deleted : {st : Store} (id : String) → Step net st (checks_delete id st).1
  ran :
      {st : Store} (m : Moment) (scope : Option (List String)) (id : String) (nodes : List Host)
      → Step net st (checks_run net m scope id nodes st).1
  cadence :
      {st : Store} (now : String) (timeout : ℕ) (nodes : List Host)
      → Step net st (run_all_checks net now timeout nodes st)

abbrev pub no_checks : Store
no_checks = record { checks = []; results = []; fleet_ts = 0 }

pub data Reachable {Conn : Type 0} (net : Network Conn) : Store → Type 0 where
  start : Reachable net no_checks
  next : {st after : Store} → Reachable net st → Step net st after → Reachable net after

no_checks-IsSound : IsSound no_checks
unfolding any Dict.has all_once
no_checks-IsSound = record { valid = refl; once = refl; known = λ id h. ground arith }

Step-IsSound :
    {Conn : Type 0} (net : Network Conn) (st after : Store)
    → Step net st after
    → IsSound st
    → IsSound after
unfolding checks_add checks_update checks_run
Step-IsSound net st after (added m id nodes given new) s =
    add_checked-IsSound net m id nodes given _ st refl new s
Step-IsSound net st after (updated m id nodes given) s =
    update_checked-IsSound net m id nodes given _ st refl s
Step-IsSound net st after (deleted id) s = checks_delete-IsSound id st s
Step-IsSound net st after (ran m scope id nodes) s =
    run_found-IsSound net m scope id nodes _ st refl s
Step-IsSound net st after (cadence now timeout nodes) s =
    run_all_checks-IsSound net now timeout nodes st s

-- Whatever requests and runs come after an empty file, each stored check is one that can be probed (a
-- service of the catalogue, a target of a permitted form, a port from 1 to 65535, a name), no two share
-- an identifier, and each result that is kept belongs to a check that is there.
pub reachable-IsSound :
    {Conn : Type 0} (net : Network Conn) (st : Store) → Reachable net st → IsSound st
reachable-IsSound net st start = no_checks-IsSound
reachable-IsSound net st (next r step) = Step-IsSound net _ st step (reachable-IsSound net _ r)
