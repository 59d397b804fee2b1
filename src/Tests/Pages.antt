-- ===== src/Tests/Pages.antt =====
-- Witnesses for the laws on the wallboard and the exposition.
use nexus_controller.Prelude.{
  ℕ, zero, suc, ◌+◌, ◌-◌, ◌*◌, ◌/◌, ◌%◌, ◌≤◌, ◌<◌, max, min, String, ◌≡◌, refl, sym, ap, ◌∙◌, subst,
  ◌≢◌, ◌↔◌, ◌⊎◌, inl, inr, Bool, true, false, not, ◌&&◌, ◌||◌, Option, none, some, List, [], ◌∷◌,
  ◌++◌, map, arith, eq_iff, ltb, leb, nat_beq, if◌then◌else◌, ltb→lt, lt→ltb, leb→le, le→leb,
  leb-false→lt, nat_beq_iff, Bool-cases, Option-cases, true-and-false, Checked, Checked-cases,
  ok-injective, ok, err, ◌==◌, beq_refl, nat_eq, string_eq, pair_beq, pair_beq_iff, pair_eq, length,
  take, length-append, length-take-le, select, any, length-select-le, any-map, any-select, any-ext,
  any-append, contains, contains-append, contains-select,
}
use Prim.Native.String
use nexus_controller.Envelope.{critical, Entry, Envelope, base_envelope}
use nexus_controller.Fleet.{is_degraded}
use nexus_controller.Board.{Floats, Host, red, host_entry, is_red, board_state, api_status}
use nexus_controller.Board.Public.{api_status-hosts, board_state-degraded}
use nexus_controller.Metrics.{escape}
use nexus_controller.Metrics.Labels.{read_value, read_value-escape}

-- Percentages as whole numbers.
abbrev percents : Floats ℕ
percents = record {
  at_least = λ x n. leb n x;
  rounded = λ x. "95";
  percent = λ used size. used * 100 / size;
  lower = λ s. s;
}

abbrev entry : Entry
entry = record { key = "stale"; severity = critical; detail = "background poll is stale" }

abbrev host : Envelope → Host ℕ String
host env = record { env = env; cpu_pct = some 12; memory_pct = none; network = none }

abbrev up : Host ℕ String
up = host (record (base_envelope "h1" "nas") { ok = true; health = some (entry ∷ []) })

abbrev paused : Host ℕ String
paused = host (record (base_envelope "h2" "old") { disabled = true })

up_is_red : board_state percents up ≡ (red, "background poll is stale" ∷ [])
unfolding board_state
up_is_red = refl

quoted : escape "a\"b" ≡ "a\\\"b"
unfolding escape nexus_controller.Prelude.Text.replace_char
quoted = refl

api_status-hosts_example :
    ((api_status percents true (some (up ∷ paused ∷ [])) [] []).hosts
      ≡ map (host_entry percents) (up ∷ paused ∷ []))
    × ((api_status percents false (some (up ∷ paused ∷ [])) [] []).hosts
        ≡ map (host_entry percents) (select (λ r. not r.env.disabled) (up ∷ paused ∷ [])))
api_status-hosts_example = api_status-hosts percents (up ∷ paused ∷ []) [] []

board_state-degraded_example : is_red (board_state percents up).0 ≡ is_degraded up.env
board_state-degraded_example = board_state-degraded percents up (entry ∷ []) refl refl refl

read_value-escape_example :
    read_value (String.◌++◌ (escape "a\"b\\") (String.◌∷◌ "\"" "} 1")) ≡ some ("a\"b\\", "} 1")
read_value-escape_example = read_value-escape "a\"b\\" "} 1"
