-- ===== src/Tests/Builds.antt =====
-- Witnesses for the laws on the fleet's payload.
use nexus_controller.Prelude.{
  ℕ, zero, suc, ◌+◌, ◌-◌, ◌*◌, ◌/◌, ◌<◌, String, ◌≡◌, refl, ap, ◌∙◌, true, false, not, none, some,
  List, [], ◌∷◌, ◌++◌, map, arith, leb, nat_beq, if◌then◌else◌, ok, ◌==◌, nat_eq, string_eq,
  pair_eq, length, select, any,
}
use nexus_controller.Prelude.Text
use nexus_controller.Prelude.Dict
use nexus_controller.Platform.{Platform, aware}
use nexus_controller.Envelope.{Envelope, base_envelope}
use nexus_controller.Monitoring.Conditions.{health_entries}
use nexus_controller.Monitoring.Acks.{split_acked}
use nexus_controller.Fleet.{is_degraded, Node, expire_pauses}
use nexus_controller.Fleet.Versions.{
  has_version, flag_version_skew, mark, is_newest, flag_version_skew-behind,
}
use nexus_controller.Fleet.Window.{clean_until, day, IsIso, clean_until-ends}
use nexus_controller.Fleet.Cache.{Cache, Caller, is_fresh, in_time, serve, serve-once}
use nexus_controller.Fleet.Build.{fold_health}
use nexus_controller.Fleet.Build.Degraded.{fold_health-degraded}

abbrev plain : Platform
plain = record { lower = λ s. s; from_iso = λ s. none }

abbrev stale : Envelope
stale = record (base_envelope "h1" "nas") { ok = true; stale = true }

stale_is_degraded : is_degraded (fold_health plain 0 [] stale) ≡ true
unfolding is_degraded fold_health split_acked health_entries select
    nexus_controller.Monitoring.Conditions.host_conditions
    nexus_controller.Monitoring.Conditions.up_conditions nexus_controller.Monitoring.Conditions.add
    nexus_controller.Monitoring.Conditions.add_opt nexus_controller.Monitoring.Cert.cert_condition
    Dict.set nexus_controller.Monitoring.Conditions.failed_checks
    nexus_controller.Monitoring.Conditions.services_down
    nexus_controller.Monitoring.Conditions.n_alerts nexus_controller.Monitoring.Acks.current_ack
    Dict.get
stale_is_degraded = refl

-- The version "2.1" and every other one.
abbrev numbers : String → List ℕ
numbers s = if s == "2.1" then 2 ∷ 1 ∷ [] else 2 ∷ 0 ∷ []

abbrev old : Envelope
old = record (base_envelope "h1" "nas") { ok = true; version = "2.0" }

abbrev new : Envelope
new = record (base_envelope "h2" "web") { ok = true; version = "2.1" }

old_is_marked :
    flag_version_skew numbers (old ∷ new ∷ []) ≡ record old { version_lag = "2.1" } ∷ new ∷ []
unfolding flag_version_skew nexus_controller.Fleet.Versions.flag_among select
    nexus_controller.Fleet.Versions.has_version nexus_controller.Fleet.Versions.flag_behind
    nexus_controller.Fleet.Versions.tuple_lt nexus_controller.Fleet.Versions.version_tuple
    nexus_controller.Fleet.Versions.newest nexus_controller.Fleet.Versions.newer_of
old_is_marked = refl

-- A platform on which each text stands for as many seconds as it has characters but one.
abbrev counting : Platform
counting = record { lower = λ s. s; from_iso = λ s. some (aware ((Text.length s - 1) * 1000000)) }

abbrev stars : ℕ → String
stars zero = "*"
stars (suc n) = Prim.Native.String.String.◌∷◌ "*" (stars n)

abbrev write : ℕ → String
write t = stars (t / 1000000)

abbrev paused : Node
paused = record { id = "h1"; name = "nas"; disabled = false; disabled_until = "" }

no_z : (n : ℕ) → Text.replace_char b'Z' "+00:00" (stars n) ≡ stars n
unfolding Text.replace_char
no_z zero = refl
no_z (suc n) = ap (λ s. Prim.Native.String.String.◌∷◌ "*" s) (no_z n)

length-stars : (n : ℕ) → Text.length (stars n) ≡ suc n
length-stars zero = refl
length-stars (suc n) = ap suc (length-stars n)

not_empty : (n : ℕ) → Text.is_empty (stars n) ≡ false
not_empty zero = refl
not_empty (suc n) = refl

less_one : (n : ℕ) → suc n - 1 ≡ n
less_one n = omega arith

counting-IsIso : IsIso counting write
counting-IsIso = record {
  written = λ t. not_empty (t / 1000000);
  reads = λ t.
      ap (λ n. some (aware ((n - 1) * 1000000)))
        (ap Text.length (no_z (t / 1000000)) ∙ length-stars (t / 1000000))
      ∙ ap (λ n. some (aware (n * 1000000))) (less_one (t / 1000000));
}

accepted : clean_until counting write (some "***") 0 ≡ ok "***"
unfolding clean_until Text.strip Text.replace_char
accepted = refl

abbrev changed_text : String
changed_text = "certificate fingerprint changed for https://nas"

abbrev cert_changed : String
cert_changed = "cert_changed"

abbrev first : Caller String
first = record { max_age = some 15; now = 20; built = "a"; done = 22 }

abbrev second : Caller String
second = record { max_age = some 15; now = 23; built = "b"; done = 25 }

abbrev cache : Cache String
cache = record { latest = some "old"; ts = 1 }

due : is_fresh (some 15) 20 cache ≡ false
unfolding is_fresh
due = refl

queue : any (λ c. not (in_time 22 c)) (second ∷ []) ≡ false
unfolding any
queue = refl

fold_health-degraded_example :
    is_degraded (fold_health plain 0 [] stale)
    ≡ not (nat_beq (length (split_acked (health_entries plain 0 stale) [] "h1" 0).0) 0)
fold_health-degraded_example = fold_health-degraded plain 0 [] stale refl refl refl refl

flag_version_skew-behind_example :
    (top : String) × (flag_version_skew numbers (old ∷ new ∷ [])
      ≡ map (mark numbers top (old ∷ new ∷ [])) (old ∷ new ∷ []))
    × (any (is_newest numbers (old ∷ new ∷ []) top) (old ∷ new ∷ [])
        ≡ any has_version (old ∷ new ∷ []))
flag_version_skew-behind_example = flag_version_skew-behind numbers (old ∷ new ∷ [])

clean_until-ends_example :
    (end : ℕ) × (0 < end + 1000000)
    × (end < 0 + 91 * day)
    × ((later : ℕ) (before after : List Node)
        → (expire_pauses counting later
            (before ++ record paused { disabled = true; disabled_until = "***" } ∷ after)).0
          ≡ (expire_pauses counting later before).0
            ++ (if leb end later
                then record paused { disabled = false; disabled_until = "" }
                else record paused { disabled = true; disabled_until = "***" })
              ∷ (expire_pauses counting later after).0)
clean_until-ends_example =
    clean_until-ends counting write (some "***") 0 "***" paused counting-IsIso accepted

-- An end that lies 90 days and 23 hours ahead is accepted.
abbrev late_night : Platform
late_night = record { lower = λ s. s; from_iso = λ s. some (aware (90 * day + 23 * 3600000000)) }

over_ninety_accepted : clean_until late_night (λ t. "later") (some "*") 0 ≡ ok "later"
unfolding clean_until Text.strip Text.replace_char
over_ninety_accepted = refl

serve-once_example :
    serve (first ∷ second ∷ []) cache
    ≡ (("a", true) ∷ map (λ c. ("a", false)) (second ∷ []), record { latest = some "a"; ts = 22 })
serve-once_example = serve-once first (second ∷ []) cache due queue
