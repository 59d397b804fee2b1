-- ===== src/Access/Throttle/Window.antt =====
-- The login throttle against its specification: the failures of the last window, key by key.
use nexus_controller.Prelude.{
  ℕ, ◌+◌, ◌≤◌, String, ◌≡◌, refl, ap, ◌∙◌, ◌⊎◌, inl, inr, Bool, true, false, ◌&&◌, ◌||◌, List, [],
  ◌∷◌, ◌++◌, arith, ltb, leb, if◌then◌else◌, Bool-cases, ◌==◌, nat_eq, string_eq, pair_eq, length,
  select,
}
use nexus_controller.Prelude.Text
use nexus_controller.Prelude.Dict
use nexus_controller.Prelude.Dict.{Dict, get-set, get-delete}
use nexus_controller.Access.{Config, Web, refuse}
use nexus_controller.Access.Throttle.{
  FailKey, by_ip, by_user, key_eq, key_beq, key_beq_iff, Limits, Fails, at_key, fresh, store,
  prune_fails, login_throttled, prune_all, append_fail, login_failed, api_login,
}

module _ (l : Limits) where
  -- The failures under a key that count at a time.
  unfoldable pub recent : FailKey → ℕ → Fails → List ℕ
  recent k now fails = fresh l now (at_key k fails)

  get-store :
      (k j : FailKey) (ts : List ℕ) (fails : Fails)
      → at_key j (store l k ts fails) ≡ (if k == j then ts else at_key j fails)
  unfolding store
  get-store k j [] fails = ground (arith, get-delete k j fails)
  get-store k j (t ∷ ts) fails = ground (arith, get-set k j (t ∷ ts) fails)

  -- What is old at a time is old at any later time.
  fresh-fresh :
      (now later : ℕ) (ts : List ℕ)
      → now ≤ later
      → fresh l later (fresh l now ts) ≡ fresh l later ts
  unfolding fresh select
  fresh-fresh now later [] h = refl
  fresh-fresh now later (t ∷ ts) h = ground (arith, fresh-fresh now later ts h)

  -- Pruning any key leaves every count, now and later, as it was.
  recent-prune :
      (key k : FailKey) (now later : ℕ) (fails : Fails)
      → now ≤ later
      → recent k later (prune_fails l key now fails).1 ≡ recent k later fails
  unfolding recent prune_fails
  recent-prune key k now later fails h = elim (Bool-cases (key == k)) [
    | inl same ↦ rw get-store (
        rw same (
          fresh-fresh now later (at_key key fails) h
          ∙ ap (λ j. fresh l later (at_key j fails)) ((key_beq_iff key k).0 same)))
    | inr other ↦ rw get-store (rw other)
  ]

  recent-prune_all :
      (ks : List FailKey) (k : FailKey) (now later : ℕ) (fails : Fails)
      → now ≤ later
      → recent k later (prune_all l ks now fails) ≡ recent k later fails
  unfolding prune_all
  recent-prune_all [] k now later fails h = refl
  recent-prune_all (j ∷ ks) k now later fails h =
      recent-prune_all ks k now later (prune_fails l j now fails).1 h
      ∙ recent-prune j k now later fails h

  -- How much of a budget is used up at a time.
  unfoldable pub load : FailKey → ℕ → Fails → ℕ
  unfolding recent
  load k now fails = length (recent k now fails)

  abbrev pub one_if : Bool → ℕ
  one_if true = 1
  one_if false = 0

  length-fresh-append :
      (later now : ℕ) (ts : List ℕ)
      → length (fresh l later (ts ++ now ∷ []))
        ≡ length (fresh l later ts) + one_if (ltb later (now + l.window))
  unfolding fresh select
  length-fresh-append later now [] = ground arith
  length-fresh-append later now (t ∷ ts) = ground (arith, length-fresh-append later now ts)

  load-append_fail :
      (key k : FailKey) (now later : ℕ) (fails : Fails)
      → load k later (append_fail l key now fails)
        ≡ load k later fails + one_if (key == k && ltb later (now + l.window))
  unfolding load append_fail
  load-append_fail key k now later fails = elim (Bool-cases (key == k)) [
    | inl same ↦ ground (
      arith,
      get-set key k (at_key key fails ++ now ∷ []) fails,
      length-fresh-append later now (at_key key fails),
      ap (λ j. at_key j fails) ((key_beq_iff key k).0 same),
    )
    | inr other ↦ ground (arith, get-set key k (at_key key fails ++ now ∷ []) fails)
  ]

  load-sweep :
      (b : Bool) (ks : List FailKey) (k : FailKey) (now later : ℕ) (fails : Fails)
      → now ≤ later
      → load k later (if b then prune_all l ks now fails else fails) ≡ load k later fails
  unfolding load
  load-sweep true ks k now later fails h = ap length (recent-prune_all ks k now later fails h)
  load-sweep false ks k now later fails h = refl

  -- A failed login counts once against its address and once against its login at that address, for
  -- as long as it lies in the window, and against nothing else, also when the table is swept.
  pub load-login_failed :
      (ip user : String) (k : FailKey) (now later : ℕ) (fails : Fails)
      → now ≤ later
      → load k later (login_failed l ip user now fails)
        ≡ load k later fails
          + one_if (ltb later (now + l.window) && (by_ip ip == k || by_user ip user == k))
  unfolding login_failed key_beq
  load-login_failed ip user k now later fails h =
      let swept =
        if ltb 5000 (length fails) then prune_all l (Dict.keys fails) now fails else fails in
      ground (
        arith,
        load-append_fail (by_user ip user) k now later (append_fail l (by_ip ip) now swept),
        load-append_fail (by_ip ip) k now later swept,
        load-sweep (ltb 5000 (length fails)) (Dict.keys fails) k now later fails h,
        apart k,
      )
    where
      apart : (k : FailKey) → (by_ip ip == k && by_user ip user == k) ≡ false
      apart (by_ip a) = ground arith
      apart (by_user a u) = refl

  counted-prune :
      (k : FailKey) (now : ℕ) (fails : Fails) → (prune_fails l k now fails).0 ≡ recent k now fails
  unfolding prune_fails recent
  counted-prune k now fails = refl

  -- The throttle answers by the two budgets alone, and asking changes neither budget of any key at
  -- that time or later.
  pub login_throttled-load :
      (ip user : String) (k : FailKey) (now later : ℕ) (fails : Fails)
      → now ≤ later
      → ((login_throttled l ip user now fails).0 ≡ (
          leb l.per_ip (load (by_ip ip) now fails)
          || leb l.per_user (load (by_user ip user) now fails)))
        × (load k later (login_throttled l ip user now fails).1 ≡ load k later fails)
  unfolding login_throttled load
  login_throttled-load ip user k now later fails h =
      let after = (prune_fails l (by_ip ip) now fails).1 in
      ground (
        arith,
        recent-prune (by_ip ip) k now later fails h,
        recent-prune (by_user ip user) k now later after h,
        recent-prune (by_ip ip) (by_user ip user) now now fails (omega arith),
        counted-prune (by_ip ip) now fails,
        counted-prune (by_user ip user) now after,
      )

  -- Once one of its two budgets is used up, a login is refused with 429 and starts no session,
  -- whatever the password, the right one included; what it is refused for is not counted again.
  pub api_login-locked :
      (w : Web) (cfg : Config) (ip name pw : String) (now : ℕ) (fails : Fails)
      → ((l.per_ip ≤ load (by_ip ip) now fails)
          ⊎ (l.per_user ≤ load (by_user ip (Text.take 64 (Text.strip name))) now fails))
      → ((api_login l w cfg ip name pw now fails).0
          ≡ refuse 429 "Too many failed attempts — try again in a few minutes")
        × ((k : FailKey) → load k now (api_login l w cfg ip name pw now fails).1 ≡ load k now fails)
  unfolding api_login
  api_login-locked w cfg ip name pw now fails used =
      (ground (arith, (spent (by_ip ip)).0), λ k. ground (arith, (spent k).0, (spent k).1))
    where
      spent :
          (k : FailKey)
          → ((login_throttled l ip (Text.take 64 (Text.strip name)) now fails).0 ≡ true)
            × (load k now (login_throttled l ip (Text.take 64 (Text.strip name)) now fails).1
                ≡ load k now fails)
      spent k = ground (
        arith,
        login_throttled-load ip (Text.take 64 (Text.strip name)) k now now fails (omega arith),
      )
