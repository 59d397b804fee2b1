-- ===== src/Fleet/Pauses.antt =====
-- Which hosts a run of `expire_pauses` resumes.
use nexus_controller.Prelude.{
  ℕ, ◌≤◌, String, ◌≡◌, refl, Bool, false, not, ◌&&◌, Option, none, some, List, [], ◌∷◌, map, arith,
  leb, if◌then◌else◌, nat_eq, string_eq, pair_eq, select,
}
use nexus_controller.Prelude.Text
use nexus_controller.Prelude.Dict
use nexus_controller.Platform.{Platform, Datetime, in_utc}
use nexus_controller.Fleet.{Node, is_expired, expire_pauses}

abbrev pub read_end : Option Datetime → Option ℕ
read_end none = none
read_end (some t) = some (in_utc t)

-- When the pause of a host ends by itself: never if it is not paused, has no end set, or has one that
-- cannot be read.
abbrev pub end_of : Platform → Node → Option ℕ
end_of p n =
    if n.disabled && not (Text.is_empty n.disabled_until)
    then read_end (p.from_iso (Text.replace_char b'Z' "+00:00" n.disabled_until))
    else none

abbrev pub has_ended : Platform → ℕ → Node → Bool
has_ended p now n = Dict.at (λ end. leb end now) (end_of p n)

-- What becomes of one record of the registry.
abbrev pub settled : Platform → ℕ → Node → Node
settled p now n =
    if has_ended p now n then record n { disabled = false; disabled_until = "" } else n

abbrev pub shown_name : Node → String
shown_name n = if Text.is_empty n.name then n.id else n.name

pub is_expired-ended : (p : Platform) (now : ℕ) (n : Node) → is_expired p now n ≡ has_ended p now n
unfolding is_expired
is_expired-ended p now n = ground arith

settled-rest :
    (p : Platform) (now later : ℕ) (n : Node)
    → later ≤ now
    → is_expired p later (settled p now n) ≡ false
unfolding is_expired
settled-rest p now later n h = ground arith

nodes-expire_pauses :
    (p : Platform) (now : ℕ) (nodes : List Node)
    → (expire_pauses p now nodes).0 ≡ map (settled p now) nodes
unfolding expire_pauses
nodes-expire_pauses p now [] = refl
nodes-expire_pauses p now (n ∷ nodes) =
    rw (← is_expired-ended p now n) (ground (arith, nodes-expire_pauses p now nodes))

names-expire_pauses :
    (p : Platform) (now : ℕ) (nodes : List Node)
    → (expire_pauses p now nodes).1 ≡ map shown_name (select (has_ended p now) nodes)
unfolding expire_pauses select
names-expire_pauses p now [] = refl
names-expire_pauses p now (n ∷ nodes) =
    rw (← is_expired-ended p now n) (ground (arith, names-expire_pauses p now nodes))

again-expire_pauses :
    (p : Platform) (now later : ℕ) (nodes : List Node)
    → later ≤ now
    → expire_pauses p later (map (settled p now) nodes) ≡ (map (settled p now) nodes, [])
unfolding expire_pauses
again-expire_pauses p now later [] h = refl
again-expire_pauses p now later (n ∷ nodes) h =
    rw (settled-rest p now later n h) (rw (again-expire_pauses p now later nodes h))

-- A run resumes a host, clears the end of its pause and names it, exactly if the host is paused with an end
-- that can be read and has come; a host whose end cannot be read stays paused. It leaves every other record
-- as it was, and names the resumed hosts in the order of the registry. Until the clock has moved on, a
-- further run resumes nobody and changes nothing.
pub expire_pauses-settled :
    (p : Platform) (now later : ℕ) (nodes : List Node)
    → later ≤ now
    → ((expire_pauses p now nodes).0 ≡ map (settled p now) nodes)
      × ((expire_pauses p now nodes).1 ≡ map shown_name (select (has_ended p now) nodes))
      × (expire_pauses p later (expire_pauses p now nodes).0 ≡ ((expire_pauses p now nodes).0, []))
expire_pauses-settled p now later nodes h = (
  nodes-expire_pauses p now nodes,
  names-expire_pauses p now nodes,
  rw (nodes-expire_pauses p now nodes) (again-expire_pauses p now later nodes h),
)
