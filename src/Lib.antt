-- ===== src/Lib.antt =====
-- Nexus Controller: a dashboard that polls a fleet of hosts, derives the conditions that need
-- attention, and tells webhooks of their changes.
--
-- Parts and files, with the functions they stand for:
--   Prelude          what the other modules share: Python's dict (Prelude/Dict) and str methods
--                    (Prelude/Text), equality tests (Prelude/Keys), lists (Prelude/Lists).
--   Platform         str.lower and datetime.fromisoformat, which are arguments of the model.
--   Envelope         the fan-out envelope of one host: base_envelope of adapters/base.py and the
--                    blocks that the adapters add.
--   Monitoring       monitoring.py. Alerts: one_line, _alert_detail. Cert: cert_days_left,
--                    cert_condition. Conditions: host_conditions, health_entries. Snapshot:
--                    snapshot_conditions, diff_snapshots. Acks: clean_ack, split_acked, prune_acks.
--                    AckRoutes: acks_add, acks_delete and _find_node of app.py.
--                    Hooks: format_digest, webhook_payload, hook_wants, and _dispatch of app.py.
--                    Fires, Causes, Shape, Diff, Digest and Quiet are about them.
--   Notifier         _monitor_cycle of app.py and its state _mon. Notifier/Machine is what the cycle
--                    means for one condition of one host; Loops, Items and Refines compare
--                    the cycle with it; Runs and Lasting are about many cycles in
--                    a row.
--   Access           app.py: Scope (user_scope, scope_allows), Identity (parse_bearer,
--                    _resolve_token, _resolve_identity), Gate (cross_site_request, require_login),
--                    Throttle (login_throttled, login_failed, api_login), Users and Tokens (the
--                    routes that change logins, presets and tokens). GateLaws, Changes, Lockout,
--                    Untouched, Presets, Revocation and the modules below Throttle are about them.
--   Fleet            app.py: compute_rollup, expire_pauses, Versions (flag_version_skew), Window
--                    (clean_until), Build (_disabled_envelope, scoped_fleet, _build_fleet_finish),
--                    Cache (_refresh_fleet). Order, Pauses and Build/Degraded are about them.
--   Sso              sso.py: verify with the replay cache _seen, safe_next. Sso/Replay and
--                    Sso/Redirect are about them.
--   Adapters         adapters/base.py: friendly_error.
--   Checks           checks.py: the catalogue and clean_check, Probes (run_check and its probes).
--                    app.py: Schedule (the store, _run_one_check, _run_all_checks,
--                    _attach_svc_checks, _check_monitor_envs) and Routes (the routes below
--                    /api/checks). Cadence and the modules below Routes are about them.
--   Board            board_state of monitoring.py, _board_category and api_status of app.py; Public is
--                    about them.
--   Metrics          metrics.py: _lv, _num and line, Hosts (_host_lines, _check_lines, render). Labels
--                    and Hosts/Silent are about them.
--   Registry         app.py: clean_type, node_update; Repin is about it.
--   Settings         app.py: Tuning (clean_tuning, tuning, tuning_save), Webhooks
--                    (_public_notify_config, notifications_save), Recent (_record_events,
--                    notifications_events).
--   Backup           backup.py: make_bundle, inspect_bundle, open_bundle, collect, restore; Laws and
--                    Recovery are about them.
--   Tests            the theorems at concrete inputs.
--
-- How they interact: the latest results of the service checks are attached to the fan-out's envelopes,
-- which are folded with the acknowledgements into the fleet's payload; the roll-up, the wallboard and
-- the exposition read that payload. The monitor runs the checks, and the envelopes go through
-- snapshot_conditions to the notifier, which prunes the stored acknowledgements, works on the conditions that are not acked, and hands its
-- events to _dispatch. Every route runs behind require_login, on the auth file that the routes in
-- Access/Users and Access/Tokens write.
--
-- State: a store is a record or a dict that an operation takes and returns. The notifier's state is
-- `Mon`, that of the checks `Store`, the auth file `Config`, the table of failed logins `Fails`. Time
-- is a natural number that the caller gives, one reading for each operation: microseconds for time.time() and datetime, whole
-- seconds for single sign-on, whole ticks for the login throttle.
-- The replay cache is `Seen`, the registry a list of `Node`. No
-- definition uses fuel but the decimal digits of a number n, which has n + 1 of it.
--
-- Not modelled: network and file I/O, the locks (each operation is one step), threads other than the
-- monitor loop, audit lines, the cryptography and password hashes (arguments of the model), fields of
-- a request that have another JSON type than the UI sends, and the other parts of the program:
-- the adapters but for their error texts, collectors, agent, enrolment and removal of hosts, proxying, TLS, history.
-- What a probe gets from the network is a value of a parameter, so that the model does not say whether a
-- probe was sent. Floating point numbers, the network of the probes, int(), JSON and encryption are parameters. A missing
-- block of an envelope reads as the defaults that the code uses for it. Python walks sets in an order
-- of its own; the model walks the conditions in the order of the snapshot.
mod Prelude
pub mod Platform
pub mod Envelope
pub mod Monitoring
pub mod Notifier
pub mod Access
pub mod Sso
pub mod Fleet
pub mod Backup
pub mod Settings
pub mod Adapters
pub mod Checks
pub mod Board
pub mod Metrics
pub mod Registry
pub mod Tests
