-- ===== src/Monitoring/Conditions.antt =====
-- monitoring.py: `host_conditions` and `health_entries`.
use nexus_controller.Prelude.{
  ℕ, ◌+◌, max, String, Bool, true, false, not, ◌&&◌, Option, none, some, List, [], ◌∷◌, ◌++◌, map,
  ltb, nat_beq, if◌then◌else◌, ◌==◌, nat_eq, string_eq, pair_eq, length, select,
}
use nexus_controller.Prelude.Text
use nexus_controller.Prelude.Dict
use nexus_controller.Prelude.Dict.{Dict}
use nexus_controller.Platform.{Platform}
use nexus_controller.Envelope.{
  Severity, critical, warning, info, Cond, Service, Summary, CheckView, Entry, Envelope,
}
use nexus_controller.Monitoring.Alerts.{one_line, alert_detail, alert_text_max}
use nexus_controller.Monitoring.Cert.{cert_condition, now_or}

abbrev pub Conds : Type 0
Conds = Dict String Cond

-- `if test: conds[key] = {'severity': …, 'detail': …}`
unfoldable pub add : Bool → String → Severity → String → Conds → Conds
add test key severity detail conds =
    if test then Dict.set key (record { severity = severity; detail = detail }) conds else conds

unfoldable pub add_opt : String → Option Cond → Conds → Conds
add_opt key none conds = conds
add_opt key (some c) conds = Dict.set key c conds

-- The texts that are left once each alert is one line and the empty ones are dropped.
unfoldable pub alert_texts : List String → List String
alert_texts alerts =
    select (λ t. not (Text.is_empty t)) (map (λ a. one_line a alert_text_max) alerts)

unfoldable pub is_down : Service → Bool
is_down sv = sv.enabled == "enabled" && not (sv.active == "active")

unfoldable pub services_down : Summary → ℕ
unfolding is_down
services_down summary = length (select is_down summary.services)

abbrev pub has_failed : CheckView → Bool
has_failed c = elim c.ok [ some false ↦ true | some true ↦ false | none ↦ false ]

unfoldable pub check_name : CheckView → String
check_name c = if Text.is_empty c.name then "?" else c.name

unfoldable pub failed_checks : Envelope → List CheckView
failed_checks env = select has_failed env.svc_checks

unfoldable pub check_detail : List CheckView → String
check_detail failed =
    let names = Text.join ", " (map check_name failed) in
    if nat_beq (length failed) 1
    then Text.concat ("service check failing: " ∷ names ∷ [])
    else Text.concat (Text.decimal (length failed) ∷ " service checks failing: " ∷ names ∷ [])

-- The branch for a host that did not answer.
unfoldable pub down_conditions : Platform → String → Conds
down_conditions p err =
    if Text.has_part "await" (p.lower err)
    then []
    else (if Text.has_part "fingerprint changed" (p.lower err)
        then add true "cert_changed" critical "TLS certificate fingerprint changed" []
        else add true "unreachable" critical (if Text.is_empty err then "host unreachable" else err)
            [])

unfoldable pub n_alerts : Envelope → ℕ
unfolding alert_texts
n_alerts env =
    max (length env.summary.alerts + env.nas.alerts)
      (length (alert_texts env.summary.alerts ++ alert_texts env.nas.alert_list))

abbrev pub is_unhealthy : Option Bool → Bool
is_unhealthy none = false
is_unhealthy (some healthy) = not healthy

-- The branch for a host that answered: one write for each `if`, in the order of the source.
unfoldable pub up_conditions : Platform → ℕ → Envelope → Conds
up_conditions p clock env =
    let texts = alert_texts env.summary.alerts ++ alert_texts env.nas.alert_list in
    let c1 = add (ltb 0 (n_alerts env)) "alerts" warning (alert_detail (n_alerts env) texts) [] in
    let c2 =
      add (ltb 0 env.nas.pools_degraded) "pool_degraded" critical
        (Text.concat (Text.decimal env.nas.pools_degraded ∷ " pool(s) degraded" ∷ [])) c1 in
    let c3 =
      add (is_unhealthy env.spark_healthy) "cluster_unhealthy" critical "cluster reports unhealthy"
        c2 in
    let c4 =
      add (ltb 0 env.summary.zfs_pools && not env.summary.zfs_online) "pool_degraded" critical
        "a ZFS pool is offline" c3 in
    let down = services_down env.summary in
    let c5 =
      add (ltb 0 down) "services_down" warning
        (Text.concat (Text.decimal down ∷ " enabled service(s) not running" ∷ [])) c4 in
    let failed = failed_checks env in
    let c6 = add (ltb 0 (length failed)) "check_failed" warning (check_detail failed) c5 in
    let c7 = add env.stale "stale" warning "background poll is stale" c6 in
    let c8 =
      add_opt "cert_expiring" (cert_condition p env.cert_not_after (now_or env.now clock)) c7 in
    let c9 =
      add (not (Text.is_empty env.version_lag)) "version_lag" info
        (Text.concat ("behind fleet (newest v" ∷ env.version_lag ∷ ")" ∷ [])) c8 in
    add (ltb 0 env.summary.updates_security) "security_updates" info
      (Text.concat (Text.decimal env.summary.updates_security ∷ " security update(s) pending" ∷ []))
      c9

unfoldable pub host_conditions : Platform → ℕ → Envelope → Conds
host_conditions p clock env =
    if env.disabled
    then []
    else (if env.ok then up_conditions p clock env else down_conditions p env.error)

abbrev pub is_alerting : Severity → Bool
is_alerting critical = true
is_alerting warning = true
is_alerting info = false

abbrev pub to_entry : String × Cond → Entry
to_entry (k, c) = record { key = k; severity = c.severity; detail = c.detail }

unfoldable pub health_entries : Platform → ℕ → Envelope → List Entry
health_entries p clock env =
    map to_entry (select (λ kc. is_alerting kc.1.severity) (host_conditions p clock env))
