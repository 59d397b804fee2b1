-- ===== src/Access/Throttle/Guesses.antt =====
-- `api_login`, called again and again for one name from one address: how many passwords it looks at.
use nexus_controller.Prelude.{
  ℕ, ◌+◌, ◌≤◌, ◌<◌, String, ◌≡◌, inr, Bool, true, false, Option, none, some, List, [], ◌∷◌, arith,
  nat_beq, beq_refl, nat_eq, string_eq, pair_eq, length, select, any,
}
use nexus_controller.Prelude.Text
use nexus_controller.Prelude.Dict
use nexus_controller.Access.{User, Config, Session, Web, Reply, done, refuse}
use nexus_controller.Access.Throttle.{
  by_user, key_eq, key_beq, Limits, Fails, login_throttled, verify_login, api_login,
}
use nexus_controller.Access.Throttle.Window.{
  load, one_if, load-login_failed, login_throttled-load, api_login-locked,
}

-- One request to log in: its time and its password.
pub record Guess : Type 0 where
  pub now : ℕ
  pub pw : String

-- A password was looked at and was the right one.
abbrev pub is_success : Reply Session → Bool
is_success (done session) = true
is_success (refuse code why) = false

-- A password was looked at, or a login that does not exist was, and the answer was 401.
abbrev pub is_failure : Reply Session → Bool
is_failure (done session) = false
is_failure (refuse code why) = nat_beq code 401

module _ (l : Limits) (w : Web) (cfg : Config) (ip name : String) where
  -- The answers to a row of requests, and the table after them.
  unfoldable pub guess_all : List Guess → Fails → List (Reply Session) × Fails
  guess_all [] fails = ([], fails)
  guess_all (g ∷ gs) fails =
      let (answer, fails1) = api_login l w cfg ip name g.pw g.now fails in
      let (answers, fails2) = guess_all gs fails1 in (answer ∷ answers, fails2)

  -- Each request lies in the window that ends at a time.
  abbrev pub InWindow : ℕ → List Guess → Type 0
  InWindow later [] = Unit {0}
  InWindow later (g ∷ gs) = (g.now ≤ later) × (later < g.now + l.window) × InWindow later gs

  load-verify_login :
      (user pw : String) (now later : ℕ) (fails : Fails) (found : Option User)
      → now ≤ later
      → later < now + l.window
      → is_success (verify_login l w ip user pw now fails found).0 ≡ false
      → load l (by_user ip user) later (verify_login l w ip user pw now fails found).1
        ≡ load l (by_user ip user) later fails
          + one_if l (is_failure (verify_login l w ip user pw now fails found).0)
  unfolding verify_login key_beq
  load-verify_login user pw now later fails none h k wrong = ground (
    arith,
    load-login_failed l ip user (by_user ip user) now later fails h,
    beq_refl ip,
    beq_refl user,
  )
  load-verify_login user pw now later fails (some rec) h k wrong = ground (
    arith,
    load-login_failed l ip user (by_user ip user) now later fails h,
    beq_refl ip,
    beq_refl user,
  )

  -- A request that is no success uses up one unit of the budget of its login at its address if it is
  -- answered with 401, and none if it is refused unseen.
  load-api_login :
      (pw : String) (now later : ℕ) (fails : Fails)
      → now ≤ later
      → later < now + l.window
      → is_success (api_login l w cfg ip name pw now fails).0 ≡ false
      → load l
          (by_user ip (Text.take 64 (Text.strip name)))
          later
          (api_login l w cfg ip name pw now fails).1
        ≡ load l (by_user ip (Text.take 64 (Text.strip name))) later fails
          + one_if l (is_failure (api_login l w cfg ip name pw now fails).0)
  unfolding api_login
  load-api_login pw now later fails h k wrong =
      let user = Text.take 64 (Text.strip name) in
      let after = (login_throttled l ip user now fails).1 in
      ground (
        arith,
        login_throttled-load l ip user (by_user ip user) now later fails h,
        load-verify_login user pw now later after (Dict.get user cfg.users) h k,
      )

  load-guess_all :
      (gs : List Guess) (later : ℕ) (fails : Fails)
      → InWindow later gs
      → any is_success (guess_all gs fails).0 ≡ false
      → length (select is_failure (guess_all gs fails).0)
          + load l (by_user ip (Text.take 64 (Text.strip name))) later fails
        ≡ load l (by_user ip (Text.take 64 (Text.strip name))) later (guess_all gs fails).1
  unfolding guess_all any select
  load-guess_all [] later fails h wrong = omega arith
  load-guess_all (g ∷ gs) later fails h wrong = ground (
    arith,
    load-api_login g.pw g.now later fails h.0 h.1,
    load-guess_all gs later (api_login l w cfg ip name g.pw g.now fails).1 h.2,
  )

  -- However the table stood before, and whatever is refused unseen in between: once `per_user` requests
  -- to log in with one name from one address were answered with 401 inside one window, and none in the row
  -- succeeded, the next request with that name from that address is refused with 429, whatever its
  -- password, the right one included.
  pub brute_force_locked :
      (gs : List Guess) (pw : String) (now : ℕ) (fails : Fails)
      → InWindow now gs
      → any is_success (guess_all gs fails).0 ≡ false
      → l.per_user ≤ length (select is_failure (guess_all gs fails).0)
      → (api_login l w cfg ip name pw now (guess_all gs fails).1).0
        ≡ refuse 429 "Too many failed attempts — try again in a few minutes"
  brute_force_locked gs pw now fails h wrong enough =
      (api_login-locked l w cfg ip name pw now (guess_all gs fails).1
        (inr (omega (arith, load-guess_all gs now fails h wrong)))).0
