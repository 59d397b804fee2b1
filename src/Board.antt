-- ===== src/Board.antt =====
-- monitoring.py: `board_state`; app.py: `_board_category` and `api_status`, the public wallboard.
pub mod Public
use nexus_controller.Prelude.{
  ℕ, String, Bool, true, false, not, ◌&&◌, ◌||◌, Option, none, some, List, [], ◌∷◌, ◌++◌, map,
  nat_beq, if◌then◌else◌, ◌==◌, nat_eq, string_eq, pair_eq,
}
use nexus_controller.Prelude.Text
use nexus_controller.Prelude.Dict
use nexus_controller.Prelude.Dict.{Dict}
use text.Mathlib.Text.{starts_with}
use nexus_controller.Envelope.{Entry, Envelope}
use nexus_controller.Fleet.{entries_of, is_there}
use nexus_controller.Checks.{Check}
use nexus_controller.Checks.Schedule.{Result}

pub data State : Type 0 where
  grey red amber green : State

abbrev pub board_cpu_pct : ℕ
board_cpu_pct = 90

abbrev pub board_mem_pct : ℕ
board_mem_pct = 90

abbrev pub board_storage_pct : ℕ
board_storage_pct = 90

-- What the code does with the interpreter's floating point numbers: `x >= n`, `'%d' % round(x)` and
-- `used * 100.0 / size`; with them str.lower.
pub record Floats (Float : Type 0) : Type 0 where
  pub at_least : Float → ℕ → Bool
  pub rounded : Float → String
  pub percent : ℕ → ℕ → Float
  pub lower : String → String

-- An envelope with what the wallboard alone reads of it: the load, and the network block.
pub record Host (Float Block : Type 0) : Type 0 where
  pub env : Envelope
  pub cpu_pct : Option Float
  pub memory_pct : Option Float
  pub network : Option Block

-- `if x is not None and x >= limit and applies: amber.append(text % round(x))`
unfoldable pub note_over :
    {Float : Type 0}
    → Floats Float
    → Option Float
    → ℕ
    → Bool
    → String
    → String
    → List String
    → List String
note_over fl none limit applies before after notes = notes
note_over fl (some x) limit applies before after notes =
    if fl.at_least x limit && applies
    then notes ++ Text.concat (before ∷ fl.rounded x ∷ after ∷ []) ∷ []
    else notes

-- Memory that fills up by design: models on an AI host, ARC on a ZFS host.
unfoldable pub is_mem_exempt : Envelope → Bool
is_mem_exempt env =
    env.category == "AI" || not (nat_beq env.summary.zfs_pools 0) || env.host_type == "truenas"

unfoldable pub storage_pct : {Float : Type 0} → Floats Float → Envelope → Option Float
storage_pct fl env =
    if nat_beq env.size_bytes 0 then none else some (fl.percent env.used_bytes env.size_bytes)

unfoldable pub amber_notes : {Float Block : Type 0} → Floats Float → Host Float Block → List String
amber_notes fl r =
    let cpu = note_over fl r.cpu_pct board_cpu_pct true "high CPU (" "%)" [] in
    let mem =
      note_over fl r.memory_pct board_mem_pct (not (is_mem_exempt r.env)) "high memory (" "%)"
        cpu in
    note_over fl (storage_pct fl r.env) board_storage_pct true "storage " "% full" mem

abbrev pub or_unreachable : String → String
or_unreachable why = if Text.is_empty why then "unreachable" else why

abbrev pub has_entries {ℓ} : {A : Type ℓ} → Option (List A) → Bool
has_entries none = false
has_entries (some []) = false
has_entries (some (e ∷ es)) = true

-- The branch for a host that did not answer.
unfoldable pub down_state : (String → String) → Envelope → State × List String
down_state lower env =
    if starts_with (lower env.error) "await"
    then (amber, "awaiting first poll" ∷ [])
    else (if has_entries env.health_acked && not (has_entries env.health)
        then (amber, Text.concat ("acknowledged: " ∷ or_unreachable env.error ∷ []) ∷ [])
        else (red, or_unreachable env.error ∷ []))

abbrev pub amber_or_green : List String → State × List String
amber_or_green [] = (green, [])
amber_or_green (n ∷ notes) = (amber, n ∷ notes)

abbrev pub red_or : List String → State × List String → State × List String
red_or [] other = other
red_or (i ∷ issues) other = (red, i ∷ issues)

unfoldable pub board_state :
    {Float Block : Type 0} → Floats Float → Host Float Block → State × List String
board_state fl r =
    if r.env.disabled
    then (grey, [])
    else (if not r.env.ok
        then down_state fl.lower r.env
        else red_or (map (λ e. e.detail) (entries_of r.env.health))
            (amber_or_green (amber_notes fl r)))

unfoldable pub board_category : Envelope → String
board_category env =
    if env.disabled
    then "Paused"
    else (if Text.is_empty env.category || env.category == "Mixed" || env.category == "Unknown"
        then "General"
        else env.category)

-- An entry of the wallboard's `hosts`, and of its `checks`.
pub record HostEntry (Block : Type 0) : Type 0 where
  pub name : String
  pub category : String
  pub state : State
  pub issues : List String
  pub network : Option Block

pub record CheckEntry : Type 0 where
  pub name : String
  pub state : State
  pub detail : String

unfoldable pub host_entry :
    {Float Block : Type 0} → Floats Float → Host Float Block → HostEntry Block
host_entry fl r =
    let (state, issues) = board_state fl r in
    record {
      name = r.env.name;
      category = board_category r.env;
      state = state;
      issues = issues;
      network = if r.env.host_type == "unifi" then r.network else none;
    }

abbrev pub is_grey : State → Bool
is_grey grey = true
is_grey _ = false

unfoldable pub host_entries :
    {Float Block : Type 0} → Floats Float → Bool → List (Host Float Block) → List (HostEntry Block)
host_entries fl authed [] = []
host_entries fl authed (r ∷ nodes) =
    let rest = host_entries fl authed nodes in
    let entry = host_entry fl r in if is_grey entry.state && not authed then rest else entry ∷ rest

-- The state of a check by its latest result, `none` where there is none yet.
unfoldable pub check_state : Option Result → State
check_state none = grey
check_state (some r) =
    if r.paused then grey else elim r.ok [ none ↦ grey | some up ↦ if up then green else red ]

abbrev pub detail_of : Option Result → String
detail_of none = ""
detail_of (some r) = r.detail

abbrev pub is_red : State → Bool
is_red red = true
is_red _ = false

unfoldable pub check_entry : Dict String Result → Check → CheckEntry
check_entry res c =
    let state = check_state (Dict.get c.id res) in
    record {
      name = c.name;
      state = state;
      detail = if is_red state then detail_of (Dict.get c.id res) else "";
    }

-- /api/status, whose cache is empty while the first build runs.
pub record Status (Block : Type 0) : Type 0 where
  pub hosts : List (HostEntry Block)
  pub checks : List CheckEntry
  pub warming : Bool

abbrev pub cached {ℓ} : {A : Type ℓ} → Option (List A) → List A
cached none = []
cached (some nodes) = nodes

unfoldable pub api_status :
    {Float Block : Type 0}
    → Floats Float
    → Bool
    → Option (List (Host Float Block))
    → List Check
    → Dict String Result
    → Status Block
api_status fl authed data_ cks res = record {
  hosts = host_entries fl authed (cached data_);
  checks = map (check_entry res) cks;
  warming = not (is_there data_);
}
