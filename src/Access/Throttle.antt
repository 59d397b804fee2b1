-- ===== src/Access/Throttle.antt =====
-- app.py: the sliding window of failed logins, and `api_login`. Clock readings are whole ticks, and
-- the window is a number of ticks.
pub mod Window
pub mod Guesses
use nexus_controller.Prelude.{
  ℕ, ◌+◌, String, ◌≡◌, ◌↔◌, Bool, true, false, ◌&&◌, Option, none, some, List, [], ◌∷◌, ◌++◌, arith,
  eq_iff, ltb, leb, if◌then◌else◌, KeyEq, ◌==◌, nat_eq, string_eq, pair_eq, length, select,
}
use nexus_controller.Prelude.Text
use nexus_controller.Prelude.Dict
use nexus_controller.Prelude.Dict.{Dict}
use nexus_controller.Access.{Role, User, Config, Session, Web, Reply, done, refuse}

-- ('ip', ip) and ('user', ip, user)
pub data FailKey : Type 0 where
  by_ip : String → FailKey
  by_user : String → String → FailKey

unfoldable pub key_beq : FailKey → FailKey → Bool
key_beq (by_ip a) (by_ip b) = a == b
key_beq (by_ip a) (by_user b u) = false
key_beq (by_user a u) (by_ip b) = false
key_beq (by_user a u) (by_user b v) = a == b && u == v

pub key_beq_iff : (j k : FailKey) → (key_beq j k ≡ true) ↔ (j ≡ k)
unfolding key_beq
key_beq_iff (by_ip a) (by_ip b) = ground (arith, eq_iff a b)
key_beq_iff (by_ip a) (by_user b u) = ground arith
key_beq_iff (by_user a u) (by_ip b) = ground arith
key_beq_iff (by_user a u) (by_user b v) = ground (arith, eq_iff a b, eq_iff u v)

instance abbrev pub key_eq : KeyEq FailKey
key_eq = record { beq = key_beq; beq_iff = key_beq_iff }

-- LOGIN_WINDOW, LOGIN_MAX_PER_USER and LOGIN_MAX_PER_IP, from the environment.
pub record Limits : Type 0 where
  pub window : ℕ
  pub per_user : ℕ
  pub per_ip : ℕ

abbrev pub Fails : Type 0
Fails = Dict FailKey (List ℕ)

abbrev pub or_empty : Option (List ℕ) → List ℕ
or_empty none = []
or_empty (some ts) = ts

abbrev pub at_key : FailKey → Fails → List ℕ
at_key k fails = or_empty (Dict.get k fails)

module _ (l : Limits) where
  -- `now - t < LOGIN_WINDOW`
  unfoldable pub fresh : ℕ → List ℕ → List ℕ
  fresh now ts = select (λ t. ltb now (t + l.window)) ts

  unfoldable pub store : FailKey → List ℕ → Fails → Fails
  store key [] fails = Dict.delete key fails
  store key (t ∷ ts) fails = Dict.set key (t ∷ ts) fails

  unfoldable pub prune_fails : FailKey → ℕ → Fails → List ℕ × Fails
  prune_fails key now fails = let ts = fresh now (at_key key fails) in (ts, store key ts fails)

  -- `or`: the second budget is looked at only if the first is not used up.
  unfoldable pub login_throttled : String → String → ℕ → Fails → Bool × Fails
  login_throttled ip user now fails =
      let (by_address, fails1) = prune_fails (by_ip ip) now fails in
      if leb l.per_ip (length by_address)
      then (true, fails1)
      else (let (by_login, fails2) = prune_fails (by_user ip user) now fails1 in
          (leb l.per_user (length by_login), fails2))

  unfoldable pub prune_all : List FailKey → ℕ → Fails → Fails
  prune_all [] now fails = fails
  prune_all (k ∷ ks) now fails = prune_all ks now (prune_fails k now fails).1

  -- _login_fails.setdefault(key, []).append(now)
  unfoldable pub append_fail : FailKey → ℕ → Fails → Fails
  append_fail key now fails = Dict.set key (at_key key fails ++ now ∷ []) fails

  unfoldable pub login_failed : String → String → ℕ → Fails → Fails
  login_failed ip user now fails =
      let swept =
        if ltb 5000 (length fails) then prune_all (Dict.keys fails) now fails else fails in
      append_fail (by_user ip user) now (append_fail (by_ip ip) now swept)

  unfoldable pub login_succeeded : String → String → Fails → Fails
  login_succeeded ip user fails = Dict.delete (by_user ip user) fails

  -- `api_login`: the answer, the table and the session that it starts. `user` and `pw` are the
  -- fields of the request, `ip` what `_client_ip` returns.
  unfoldable pub verify_login :
      Web → String → String → String → ℕ → Fails → Option User → Reply Session × Fails
  verify_login w ip user pw now fails none =
      (refuse 401 "Invalid credentials", login_failed ip user now fails)
  verify_login w ip user pw now fails (some rec) =
      if w.check_hash rec.password pw
      then (
        done (record { user = user; gen = some rec.session_gen }),
        login_succeeded ip user fails,
      )
      else (refuse 401 "Invalid credentials", login_failed ip user now fails)

  unfoldable pub api_login :
      Web → Config → String → String → String → ℕ → Fails → Reply Session × Fails
  unfolding verify_login
  api_login w cfg ip name pw now fails =
      let user = Text.take 64 (Text.strip name) in
      let (throttled, fails1) = login_throttled ip user now fails in
      if throttled
      then (refuse 429 "Too many failed attempts — try again in a few minutes", fails1)
      else verify_login w ip user pw now fails1 (Dict.get user cfg.users)
