-- ===== src/Tests/Fleets.antt =====
-- The roll-up and maintenance windows at concrete inputs.
use nexus_controller.Prelude.{
  ◌≡◌, refl, true, none, some, [], ◌∷◌, map, arith, if◌then◌else◌, ◌==◌, nat_eq, string_eq, pair_eq,
  select,
}
use nexus_controller.Prelude.Text
use nexus_controller.Platform.{Platform, naive}
use nexus_controller.Envelope.{Envelope, base_envelope}
use nexus_controller.Fleet.{Rollup, compute_rollup, Node, is_expired, expire_pauses}
use nexus_controller.Fleet.Order.{IsConsistent, compute_rollup-IsConsistent}
use nexus_controller.Fleet.Pauses.{has_ended, settled, shown_name, expire_pauses-settled}

abbrev up : Envelope
up = record (base_envelope "h1" "nas") { ok = true; used_bytes = 40; size_bytes = 100 }

abbrev down : Envelope
down = base_envelope "h2" "web"

two_hosts :
    compute_rollup (up ∷ down ∷ [])
    ≡ record (compute_rollup (up ∷ down ∷ [])) { healthy = 1; unreachable = 1; storage_used = 40 }
unfolding compute_rollup nexus_controller.Fleet.count_hosts nexus_controller.Fleet.count_host
two_hosts = refl

compute_rollup-IsConsistent_example :
    IsConsistent (compute_rollup (up ∷ down ∷ [])).total (compute_rollup (up ∷ down ∷ []))
compute_rollup-IsConsistent_example = compute_rollup-IsConsistent (up ∷ down ∷ [])

-- Each window ends at the instant 1000, and "someday" cannot be read.
abbrev noon : Platform
noon = record { lower = λ s. s; from_iso = λ s. if s == "someday" then none else some (naive 1000) }

abbrev paused_host : Node
paused_host = record { id = "h1"; name = "nas"; disabled = true; disabled_until = "today" }

-- A host whose end cannot be read.
abbrev odd_host : Node
odd_host = record { id = "h2"; name = "web"; disabled = true; disabled_until = "someday" }

expire_pauses-settled_example :
    ((expire_pauses noon 1000 (paused_host ∷ odd_host ∷ [])).0
      ≡ map (settled noon 1000) (paused_host ∷ odd_host ∷ []))
    × ((expire_pauses noon 1000 (paused_host ∷ odd_host ∷ [])).1
        ≡ map shown_name (select (has_ended noon 1000) (paused_host ∷ odd_host ∷ [])))
    × (expire_pauses noon 900 (expire_pauses noon 1000 (paused_host ∷ odd_host ∷ [])).0
        ≡ ((expire_pauses noon 1000 (paused_host ∷ odd_host ∷ [])).0, []))
expire_pauses-settled_example =
    expire_pauses-settled noon 1000 900 (paused_host ∷ odd_host ∷ []) (omega arith)

one_resumed : (expire_pauses noon 1000 (paused_host ∷ [])).1 ≡ "nas" ∷ []
unfolding expire_pauses is_expired Text.replace_char
one_resumed = refl
