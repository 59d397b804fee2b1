-- ===== src/Tests/Services.antt =====
-- Witnesses for the laws on service checks, with a network that answers and one that does not.
use nexus_controller.Prelude.{
  ℕ, zero, suc, ◌+◌, ◌-◌, ◌*◌, ◌/◌, ◌%◌, ◌≤◌, ◌<◌, max, min, String, ◌≡◌, refl, sym, ap, ◌∙◌, subst,
  ◌≢◌, ◌↔◌, ◌⊎◌, inl, inr, Bool, true, false, not, ◌&&◌, ◌||◌, Option, none, some, List, [], ◌∷◌,
  ◌++◌, map, arith, eq_iff, ltb, leb, nat_beq, if◌then◌else◌, ltb→lt, lt→ltb, leb→le, le→leb,
  leb-false→lt, nat_beq_iff, Bool-cases, Option-cases, true-and-false, Checked, Checked-cases,
  ok-injective, ok, err, ◌==◌, beq_refl, nat_eq, string_eq, pair_beq, pair_beq_iff, pair_eq, length,
  take, length-append, length-take-le, select, any, length-select-le, any-map, any-select, any-ext,
  any-append, contains, contains-append, contains-select,
}
use nexus_controller.Prelude.Dict
use nexus_controller.Prelude.Dict.{Dict}
use nexus_controller.Platform.{Platform}
use nexus_controller.Envelope.{Envelope, base_envelope}
use nexus_controller.Monitoring.Fires.{fires}
use nexus_controller.Checks.{Check, Payload, no_port, number}
use nexus_controller.Checks.Probes.{Network, answer, raised}
use nexus_controller.Checks.Schedule.{
  Result, Host, Store, is_paused, disabled_ids, run_one_check, run_all_checks, check_ids,
  attach_one, check_envs,
}
use nexus_controller.Checks.Routes.{
  Moment, find_host, checks_add, checks_delete, checks_run, checks_list, find_check,
}
use nexus_controller.Access.Scope.{scope_allows}
use nexus_controller.Checks.Routes.Ids.{all_once}
use nexus_controller.Checks.Routes.Invariant.{IsSound}
use nexus_controller.Checks.Routes.Runs.{added, cadence, start, next, no_checks, reachable-IsSound}
use nexus_controller.Checks.Routes.Visible.{
  hosts_once, is_refused, checks_delete-gone, checks_run-hidden,
}
use nexus_controller.Checks.Cadence.{is_failing, fails_host, attach_one-fires}
use nexus_controller.Board.{grey, check_entry}
use nexus_controller.Metrics.{Floats}
use nexus_controller.Metrics.Hosts.{check_lines}
use nexus_controller.Metrics.Hosts.Silent.{paused_pin}

-- Every port is closed but 22, which greets.
abbrev network : Network ℕ
network = record {
  connect = λ target port timeout.
      if nat_beq port 22 then answer 1 else raised "[Errno 111] Connection refused";
  sendall = λ s text. answer 0;
  recv = λ s n. answer "SSH-2.0-OpenSSH_9.6\r\n";
  tls_version = λ s name. answer "TLSv1.3";
  get_status = λ url timeout. answer 200;
  exchange = λ target port timeout bytes n. answer [];
  elapsed_ms = λ target port. 3;
  lower = λ s. "connection refused";
  repr = λ s. s;
}

abbrev numbers : Floats ℕ
numbers = record {
  is_integer = λ x. true;
  int_text = λ x. "1";
  repr = λ x. "1.5";
  thousandth = λ n. n;
  timestamp = λ s. none;
}

abbrev c2 : String
c2 = "c2"

abbrev moment : Moment
moment = record { now = "2026-01-01T00:00:00+00:00"; timeout = 5 }

abbrev hosts : List Host
hosts =
    record { id = "h1"; name = "one"; tags = "lab" ∷ []; disabled = true }
    ∷ record { id = "h2"; name = "two"; tags = "home" ∷ []; disabled = false }
    ∷ []

abbrev ssh_on_h1 : Check
ssh_on_h1 = record {
  id = "c1";
  service = "ssh";
  target = "10.0.0.1";
  port = 22;
  name = "ssh one";
  node_id = "h1";
  added_at = "";
}

abbrev web_on_h2 : Check
web_on_h2 = record {
  id = "c2";
  service = "tcp";
  target = "10.0.0.2";
  port = 81;
  name = "web two";
  node_id = "h2";
  added_at = "";
}

abbrev store : Store
store = record { checks = ssh_on_h1 ∷ web_on_h2 ∷ []; results = []; fleet_ts = 7 }

abbrev probed : Store
probed = run_all_checks network "now" 5 hosts store

abbrev ssh_payload : Payload
ssh_payload = record {
  service = "ssh";
  target = " 10.0.0.1 ";
  port = no_port;
  name = "";
  node_id = "h2";
}

abbrev stored_one : Store
stored_one = (checks_add network moment "c1" hosts ssh_payload no_checks).1

abbrev platform : Platform
platform = record { lower = λ s. s; from_iso = λ s. none }

abbrev h2 : Envelope
h2 = record (base_envelope "h2" "two") { ok = true }

new_id : contains (check_ids no_checks.checks) "c1" ≡ false
unfolding contains check_ids
new_id = refl

once : all_once store.checks ≡ true
unfolding all_once contains check_ids
once = refl

hosts_differ : hosts_once hosts ≡ true
unfolding hosts_once any
hosts_differ = refl

is_c1 : find_check "c1" store.checks ≡ some ssh_on_h1
unfolding find_check
is_c1 = refl

is_h2 : find_check "c2" store.checks ≡ some web_on_h2
unfolding find_check
is_h2 = refl

no_c9 : find_check "c9" store.checks ≡ none
unfolding find_check
no_c9 = refl

h1_paused : is_paused (disabled_ids hosts) ssh_on_h1 ≡ true
unfolding is_paused contains disabled_ids
h1_paused = refl

host_two :
    find_host "h2" hosts
    ≡ some (record { id = "h2"; name = "two"; tags = "home" ∷ []; disabled = false })
unfolding find_host
host_two = refl

out_of_scope : scope_allows (some ("lab" ∷ [])) ("home" ∷ []) ≡ false
unfolding scope_allows any contains
out_of_scope = refl

-- The network's port 81 is closed, and the failure is condensed.
web_down : is_failing (Dict.get "c2" probed.results) ≡ true
unfolding Dict.get run_all_checks nexus_controller.Checks.Schedule.latest
    nexus_controller.Checks.Schedule.update nexus_controller.Checks.Schedule.result_of_each Dict.set
    Dict.retain run_one_check is_paused contains disabled_ids
    nexus_controller.Checks.Probes.run_check nexus_controller.Checks.Probes.probe
    nexus_controller.Checks.find_service nexus_controller.Checks.services
    nexus_controller.Checks.Probes.probe_tcp
web_down = refl

ssh_stored : length stored_one.checks ≡ 1
unfolding checks_add nexus_controller.Checks.Routes.add_checked nexus_controller.Checks.clean_check
    nexus_controller.Checks.find_service nexus_controller.Checks.services
    nexus_controller.Prelude.Text.strip nexus_controller.Checks.is_target
    nexus_controller.Prelude.Text.any_code nexus_controller.Checks.is_target_code
    nexus_controller.Checks.Routes.has_bad_pin find_host
    nexus_controller.Checks.Routes.store_check_result
ssh_stored = refl

reachable-IsSound_example : IsSound (run_all_checks network "now" 5 hosts stored_one)
reachable-IsSound_example =
    reachable-IsSound network (run_all_checks network "now" 5 hosts stored_one)
      (next (next start (added moment "c1" hosts ssh_payload new_id)) (cadence "now" 5 hosts))

paused_pin_example :
    (check_entry probed.results ssh_on_h1 ≡ record { name = "ssh one"; state = grey; detail = "" })
    × (check_lines numbers ssh_on_h1 (Dict.get "c1" probed.results) [] ≡ [])
    × (is_failing (Dict.get "c1" probed.results) ≡ false)
    × (check_envs probed.results (ssh_on_h1 ∷ []) ≡ [])
paused_pin_example =
    paused_pin network numbers "now" 5 hosts [] store ssh_on_h1 once is_c1 h1_paused

attach_one-fires_example :
    fires platform 0 (attach_one probed h2) "check_failed"
    ≡ any (fails_host probed.results "h2") probed.checks
attach_one-fires_example = attach_one-fires platform 0 probed h2 refl refl refl

-- Another network, at another time: no port is open.
abbrev silence : Network ℕ
silence = record network { connect = λ target port timeout. raised "timed out" }

abbrev next_day : Moment
next_day = record moment { now = "2026-01-02T00:00:00Z" }

checks_run-hidden_example :
    (checks_run network moment (some ("lab" ∷ [])) "c2" hosts store
      ≡ checks_run silence next_day (some ("lab" ∷ [])) "c9" hosts store)
    × ((checks_run network moment (some ("lab" ∷ [])) "c2" hosts store).1 ≡ store)
    × (find_check "c2" (map (λ row. row.0) (checks_list (some ("lab" ∷ [])) hosts store)) ≡ none)
checks_run-hidden_example =
    checks_run-hidden network silence moment next_day ("lab" ∷ []) "c2" "c9" hosts store web_on_h2
      (record { id = "h2"; name = "two"; tags = "home" ∷ []; disabled = false }) once hosts_differ
      is_h2 refl host_two out_of_scope no_c9

checks_delete-gone_example :
    (is_refused (checks_delete "c1" store).0 ≡ not (contains (check_ids store.checks) "c1"))
    × (find_check "c2" (checks_delete "c1" store).1.checks ≡ (
        if contains (check_ids store.checks) "c1" && (c2 == "c1")
        then none
        else find_check "c2" store.checks))
    × (Dict.get "c2" (checks_delete "c1" store).1.results ≡ (
        if contains (check_ids store.checks) "c1" && (c2 == "c1")
        then none
        else Dict.get "c2" store.results))
checks_delete-gone_example = checks_delete-gone "c1" "c2" store
