-- ===== src/Board/Public.antt =====
-- app.py: what the wallboard tells, to whom, and how it agrees with the roll-up.
use nexus_controller.Prelude.{
  suc, String, ◌≡◌, refl, ap, true, false, not, ◌&&◌, some, List, [], ◌∷◌, map, arith, nat_beq,
  if◌then◌else◌, ◌==◌, nat_eq, string_eq, pair_eq, length, select,
}
use nexus_controller.Prelude.Dict.{Dict}
use nexus_controller.Envelope.{Entry, Envelope}
use nexus_controller.Fleet.{entries_of, is_there, is_degraded}
use nexus_controller.Checks.{Check}
use nexus_controller.Checks.Schedule.{Result}
use nexus_controller.Board.{
  red, Floats, Host, down_state, amber_or_green, red_or, amber_notes, storage_pct, is_mem_exempt,
  board_state, board_category, host_entry, is_grey, is_red, host_entries, api_status,
}

up_state :
    (issues notes : List String)
    → (red_or issues (amber_or_green notes)).0
      ≡ (if nat_beq (length issues) 0 then (amber_or_green notes).0 else red)
up_state [] notes = refl
up_state (i ∷ issues) notes = ground arith

not_grey : (notes : List String) → is_grey (amber_or_green notes).0 ≡ false
not_grey [] = refl
not_grey (n ∷ notes) = refl

not_red : (notes : List String) → is_red (amber_or_green notes).0 ≡ false
not_red [] = refl
not_red (n ∷ notes) = refl

down_not_grey :
    (lower : String → String) (env : Envelope) → is_grey (down_state lower env).0 ≡ false
unfolding down_state
down_not_grey lower env = ground arith

grey_paused :
    {Float Block : Type 0} (fl : Floats Float) (r : Host Float Block)
    → is_grey (host_entry fl r).state ≡ r.env.disabled
unfolding host_entry board_state
grey_paused fl r =
    let issues = map (λ e. e.detail) (entries_of r.env.health) in
    let notes = amber_notes fl r in
    ground (arith, down_not_grey fl.lower r.env, up_state issues notes, not_grey notes)

hosts-select :
    {Float Block : Type 0} (fl : Floats Float) (nodes : List (Host Float Block))
    → host_entries fl false nodes ≡ map (host_entry fl) (select (λ r. not r.env.disabled) nodes)
unfolding host_entries select
hosts-select fl [] = refl
hosts-select fl (r ∷ nodes) = ground (arith, grey_paused fl r, hosts-select fl nodes)

hosts-all :
    {Float Block : Type 0} (fl : Floats Float) (nodes : List (Host Float Block))
    → host_entries fl true nodes ≡ map (host_entry fl) nodes
unfolding host_entries
hosts-all fl [] = refl
hosts-all fl (r ∷ nodes) = ground (arith, hosts-all fl nodes)

-- A visitor who is logged in gets an entry for every host of the cache, an anonymous one for exactly those
-- whose monitoring is not paused; in both cases the same entries in the same order.
pub api_status-hosts :
    {Float Block : Type 0} (fl : Floats Float) (nodes : List (Host Float Block)) (cks : List Check)
    (res : Dict String Result)
    → ((api_status fl true (some nodes) cks res).hosts ≡ map (host_entry fl) nodes)
      × ((api_status fl false (some nodes) cks res).hosts
          ≡ map (host_entry fl) (select (λ r. not r.env.disabled) nodes))
unfolding api_status
api_status-hosts fl nodes cks res = (hosts-all fl nodes, hosts-select fl nodes)

length-details : (es : List Entry) → length (map (λ e. e.detail) es) ≡ length es
length-details [] = refl
length-details (e ∷ es) = ap suc (length-details es)

-- The wallboard agrees with the roll-up: a host that is monitored and answers, in an envelope that was
-- built with its health list, is red exactly if the roll-up counts it as degraded.
pub board_state-degraded :
    {Float Block : Type 0} (fl : Floats Float) (r : Host Float Block) (es : List Entry)
    → r.env.disabled ≡ false
    → r.env.ok ≡ true
    → r.env.health ≡ some es
    → is_red (board_state fl r).0 ≡ is_degraded r.env
unfolding board_state is_degraded
board_state-degraded fl r es monitored up is =
    let issues = map (λ e. e.detail) (entries_of r.env.health) in
    let notes = amber_notes fl r in
    ground (arith, up_state issues notes, not_red notes, length-details (entries_of r.env.health))

-- The identifier, the version, the tags and the certificate of a host have no influence on its entry, and its network block is in it only if the host is a unifi one.
pub host_entry-public :
    {Float Block : Type 0} (fl : Floats Float) (r : Host Float Block) (id version cert : String)
    (tags : List String)
    → (host_entry fl (record r {
      env = record r.env { id = id; version = version; cert_not_after = cert; tags = tags };
    })
        ≡ host_entry fl r)
      × (is_there (host_entry fl r).network ≡ (r.env.host_type == "unifi" && is_there r.network))
unfolding host_entry board_state down_state amber_notes storage_pct is_mem_exempt board_category
host_entry-public fl r id version cert tags = (refl, ground arith)
