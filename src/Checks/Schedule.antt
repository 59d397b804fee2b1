-- ===== src/Checks/Schedule.antt =====
-- app.py: the store of the service checks, their latest results, the run of the monitor's cadence, and
-- what the fleet and the monitor see of them.
use nexus_controller.Prelude.{
  ℕ, String, Bool, true, false, not, ◌&&◌, ◌||◌, Option, none, some, List, [], ◌∷◌, map, nat_beq,
  if◌then◌else◌, ◌==◌, nat_eq, string_eq, pair_eq, length, select, contains,
}
use nexus_controller.Prelude.Text
use nexus_controller.Prelude.Dict
use nexus_controller.Prelude.Dict.{Dict}
use nexus_controller.Envelope.{CheckView, Envelope, base_envelope}
use nexus_controller.Checks.{Check}
use nexus_controller.Checks.Probes.{Network, Outcome, run_check}

-- The latest result of a check; `ok` is `none` while the host that it is pinned to is paused.
pub record Result : Type 0 where
  pub ok : Option Bool
  pub paused : Bool
  pub latency_ms : Option ℕ
  pub detail : String
  pub ts : String

-- A record of the registry, with the fields that the checks read.
pub record Host : Type 0 where
  pub id : String
  pub name : String
  pub tags : List String
  pub disabled : Bool

-- The checks' file, `_check_results` and the time stamp of the fleet's cache.
pub record Store : Type 0 where
  pub checks : List Check
  pub results : Dict String Result
  pub fleet_ts : ℕ

-- {n['id'] for n in nodes if n.get('disabled')}
unfoldable pub disabled_ids : List Host → List String
disabled_ids [] = []
disabled_ids (n ∷ nodes) = let rest = disabled_ids nodes in if n.disabled then n.id ∷ rest else rest

abbrev pub paused_result : String → Result
paused_result ts = record {
  ok = none;
  paused = true;
  latency_ms = none;
  detail = "pinned host is paused";
  ts = ts;
}

abbrev pub probed_result : Outcome → String → Result
probed_result o ts = record {
  ok = some o.ok;
  paused = false;
  latency_ms = some o.latency_ms;
  detail = o.detail;
  ts = ts;
}

-- c.get('node_id') in disabled: None is in no set of identifiers.
unfoldable pub is_paused : List String → Check → Bool
is_paused disabled c = not (Text.is_empty c.node_id) && contains disabled c.node_id

-- `now` is the text of the clock.
unfoldable pub run_one_check :
    {Conn : Type 0} → Network Conn → String → List String → ℕ → Check → Result
run_one_check net now disabled timeout c =
    if is_paused disabled c then paused_result now else probed_result (run_check net c timeout) now

-- dict(pool.map(…)) over the checks, whose order is that of the checks
unfoldable pub result_of_each :
    (Check → Result) → List Check → Dict String Result → Dict String Result
result_of_each run [] d = d
result_of_each run (c ∷ cs) d = result_of_each run cs (Dict.set c.id (run c) d)

-- d.update(new)
unfoldable pub update : Dict String Result → Dict String Result → Dict String Result
update [] d = d
update ((k, v) ∷ new) d = update new (Dict.set k v d)

unfoldable pub check_ids : List Check → List String
check_ids [] = []
check_ids (c ∷ cs) = c.id ∷ check_ids cs

-- The results after a run of all the checks, given those before it.
unfoldable pub latest : (Check → Result) → List Check → Dict String Result → Dict String Result
latest run [] old = []
latest run (c ∷ cs) old =
    update (result_of_each run (c ∷ cs) []) (Dict.retain (contains (check_ids (c ∷ cs))) old)

unfoldable pub run_all_checks :
    {Conn : Type 0} → Network Conn → String → ℕ → List Host → Store → Store
run_all_checks net now timeout nodes st = record st {
  results = latest (run_one_check net now (disabled_ids nodes) timeout) st.checks st.results;
}

-- The entry of a pinned check in its host's `svc_checks`.
unfoldable pub view_of : Dict String Result → Check → CheckView
view_of res c = record {
  name = c.name;
  ok = elim (Dict.get c.id res) [ none ↦ none | some r ↦ r.ok ];
}

-- by_node.get(id): the entries of the checks that are pinned to the host, in their order.
unfoldable pub views_for : Dict String Result → String → List Check → List CheckView
views_for res id [] = []
views_for res id (c ∷ cs) =
    let rest = views_for res id cs in
    if not (Text.is_empty c.node_id) && c.node_id == id then view_of res c ∷ rest else rest

unfoldable pub attach_one : Store → Envelope → Envelope
attach_one st env =
    let views = views_for st.results env.id st.checks in
    if env.disabled || nat_beq (length views) 0 then env else record env { svc_checks = views }

unfoldable pub attach_svc_checks : Store → List Envelope → List Envelope
attach_svc_checks st results = map (attach_one st) results

-- The synthetic envelope of an unpinned check whose latest result is `r`.
abbrev pub detail_or_failing : Result → String
detail_or_failing r = if Text.is_empty r.detail then "failing" else r.detail

unfoldable pub check_env : Check → Bool → Result → Envelope
check_env c up r =
    record (base_envelope (Text.concat ("check:" ∷ c.id ∷ []))
      (Text.concat ("check " ∷ c.name ∷ []))) {
        ok = up;
        error = if up then "" else detail_or_failing r;
      }

unfoldable pub check_envs : Dict String Result → List Check → List Envelope
check_envs res [] = []
check_envs res (c ∷ cs) =
    let rest = check_envs res cs in
    elim (Dict.get c.id res) [
      | none ↦ rest
      | some r ↦ elim r.ok [ none ↦ rest | some up ↦ check_env c up r ∷ rest ]
    ]

-- The checks that are pinned to no host.
unfoldable pub check_monitor_envs : Store → List Envelope
check_monitor_envs st = check_envs st.results (select (λ c. Text.is_empty c.node_id) st.checks)
