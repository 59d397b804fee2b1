-- ===== src/Fleet/Cache.antt =====
-- app.py: `_refresh_fleet`, the cache that the requests and the monitor share.
use nexus_controller.Prelude.{
  ℕ, ◌+◌, ◌≡◌, refl, inl, inr, Bool, true, false, not, Option, none, some, List, [], ◌∷◌, map,
  arith, ltb, if◌then◌else◌, Option-cases, nat_eq, string_eq, pair_eq, any,
}

-- `_fleet_cache`: the latest snapshot and the time when it was stored, 0 when it is due at once.
pub record Cache (Fleet : Type 0) : Type 0 where
  pub latest : Option Fleet
  pub ts : ℕ

module _ {Fleet : Type 0} where
  -- Whether a caller with this `max_age` takes what is there: age < max_age.
  unfoldable pub is_fresh : Option ℕ → ℕ → Cache Fleet → Bool
  is_fresh none now cache = false
  is_fresh (some max_age) now cache = elim cache.latest [
    | none ↦ false
    | some fleet ↦ ltb now (cache.ts + max_age)
  ]

  abbrev pub kept_or : Fleet → Option Fleet → Fleet
  kept_or new none = new
  kept_or new (some fleet) = fleet

  -- One call, under the lock that lets one caller build at a time: `now` is its time when it gets the
  -- lock, `built` what a build would give and `done` the time when that is stored.
  unfoldable pub refresh_fleet :
      Option ℕ → ℕ → Fleet → ℕ → Cache Fleet → (Fleet × Bool) × Cache Fleet
  refresh_fleet max_age now built done cache =
      if is_fresh max_age now cache
      then ((kept_or built cache.latest, false), cache)
      else ((built, true), record { latest = some built; ts = done })

-- A caller in the queue for the lock: its `max_age`, its time when it gets the lock, what a build of its own
-- would give and when that would be stored.
pub record Caller (Fleet : Type 0) : Type 0 where
  pub max_age : Option ℕ
  pub now : ℕ
  pub built : Fleet
  pub done : ℕ

-- The callers one after the other, with the answer of each.
unfoldable pub serve :
    {Fleet : Type 0} → List (Caller Fleet) → Cache Fleet → List (Fleet × Bool) × Cache Fleet
serve [] cache = ([], cache)
serve (c ∷ cs) cache =
    let (answer, after) = refresh_fleet c.max_age c.now c.built c.done cache in
    let (answers, last) = serve cs after in (answer ∷ answers, last)

-- Each of the callers gets its turn within its `max_age` of a time.
abbrev pub in_time : {Fleet : Type 0} → ℕ → Caller Fleet → Bool
in_time ts c = elim c.max_age [ none ↦ false | some max_age ↦ ltb c.now (ts + max_age) ]

fresh_then :
    {Fleet : Type 0} (ts : ℕ) (c : Caller Fleet) (max_age : ℕ)
    → c.max_age ≡ some max_age
    → in_time ts c ≡ true
    → ltb c.now (ts + max_age) ≡ true
fresh_then ts c max_age is h = ground arith

hit :
    {Fleet : Type 0} (c : Caller Fleet) (fleet : Fleet) (ts : ℕ)
    → in_time ts c ≡ true
    → refresh_fleet c.max_age c.now c.built c.done (record { latest = some fleet; ts = ts })
      ≡ ((fleet, false), record { latest = some fleet; ts = ts })
unfolding refresh_fleet is_fresh
hit c fleet ts h = elim (Option-cases c.max_age) [
  | inl none_given ↦ ground (arith, none_given)
  | inr (max_age, is) ↦ rw (is, fresh_then ts c max_age is h) refl
]

served :
    {Fleet : Type 0} (cs : List (Caller Fleet)) (fleet : Fleet) (ts : ℕ)
    → any (λ c. not (in_time ts c)) cs ≡ false
    → serve cs (record { latest = some fleet; ts = ts })
      ≡ (map (λ c. (fleet, false)) cs, record { latest = some fleet; ts = ts })
unfolding serve any
served [] fleet ts h = refl
served (c ∷ cs) fleet ts h =
    let here = hit c fleet ts (ground arith) in rw (here, served cs fleet ts (ground arith)) refl

-- One build serves the whole queue: when the first caller has built, every caller behind it that gets its
-- turn within its own `max_age` of that build gets the same snapshot, and none of them builds again.
pub serve-once :
    {Fleet : Type 0} (first : Caller Fleet) (cs : List (Caller Fleet)) (cache : Cache Fleet)
    → is_fresh first.max_age first.now cache ≡ false
    → any (λ c. not (in_time first.done c)) cs ≡ false
    → serve (first ∷ cs) cache ≡ (
      (first.built, true) ∷ map (λ c. (first.built, false)) cs,
      record { latest = some first.built; ts = first.done },
    )
unfolding serve refresh_fleet
serve-once first cs cache due queue = rw (due, served cs first.built first.done queue) refl
