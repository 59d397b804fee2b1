-- ===== src/Tests/Guesses.antt =====
-- The login throttle at concrete inputs.
use nexus_controller.Prelude.{
  ◌≤◌, ◌≡◌, refl, false, List, [], ◌∷◌, arith, nat_eq, string_eq, pair_eq, length, select, any,
}
use nexus_controller.Prelude.Text
use nexus_controller.Prelude.Dict
use nexus_controller.Prelude.Dict.{Dict}
use nexus_controller.Access.{refuse}
use nexus_controller.Tests.Logins.{web, office}
use nexus_controller.Access.Throttle.{
  key_eq, key_beq, by_ip, Limits, Fails, fresh, store, prune_fails, append_fail, login_throttled,
  login_failed, verify_login, api_login,
}
use nexus_controller.Access.Throttle.Guesses.{
  Guess, is_success, is_failure, guess_all, InWindow, brute_force_locked,
}

abbrev three : Limits
three = record { window = 600; per_user = 3; per_ip = 30 }

abbrev one_fail : Fails
one_fail = (by_ip "10.0.0.9", 50 ∷ []) ∷ []

abbrev three_guesses : List Guess
three_guesses =
    record { now = 50; pw = "a" }
    ∷ record { now = 60; pw = "b" }
    ∷ record { now = 70; pw = "c" }
    ∷ []

three_guesses-InWindow : InWindow three web office "10.0.0.9" "ann" 100 three_guesses
three_guesses-InWindow =
    (omega arith, omega arith, (omega arith, omega arith, (omega arith, omega arith, tt)))

guessed :
    (guess_all three web office "10.0.0.9" "ann" three_guesses one_fail).0
    ≡ refuse 401 "Invalid credentials"
      ∷ refuse 401 "Invalid credentials"
      ∷ refuse 401 "Invalid credentials"
      ∷ []
unfolding guess_all api_login login_throttled Text.strip Text.take Dict.get key_beq prune_fails
    fresh store verify_login login_failed append_fail Dict.set Dict.delete select
guessed = refl

none_right :
    any is_success (guess_all three web office "10.0.0.9" "ann" three_guesses one_fail).0 ≡ false
unfolding any
none_right = rw guessed refl

three_wrong :
    3
    ≤ length
        (select is_failure (guess_all three web office "10.0.0.9" "ann" three_guesses one_fail).0)
unfolding select
three_wrong = rw guessed (omega arith)

brute_force_locked_example :
    (api_login three web office "10.0.0.9" "ann" "correct horse" 100
      (guess_all three web office "10.0.0.9" "ann" three_guesses one_fail).1).0
    ≡ refuse 429 "Too many failed attempts — try again in a few minutes"
brute_force_locked_example =
    brute_force_locked three web office "10.0.0.9" "ann" three_guesses "correct horse" 100 one_fail
      three_guesses-InWindow none_right three_wrong
