-- ===== src/Web/Guard/Lockout.antt =====
-- What the login guard of internal/web makes of a sequence of guesses.
use gpb.Common.{ℕ, ◌+◌, ◌*◌, ◌<◌, ◌≡◌, Bool, true, false, List, [], ◌∷◌, arith, if◌then◌else◌, All}
use gpb.Web.Guard.{
  LoginGuard, Guess, differs, check_login_password, too_many_requests, unauthorized, LoginCode,
  login_failure_limit, login_lockout_period,
}

-- The guess that raises the alarm is followed by fifteen minutes in which every guess is turned away
-- without a look at its password, and changes nothing.
pub check_login_password-alarm :
    (g : LoginGuard) (guess other : Guess)
    → (check_login_password g guess).2 ≡ true
    → other.at < guess.failed_at + login_lockout_period
    → check_login_password (check_login_password g guess).0 other
      ≡ ((check_login_password g guess).0, too_many_requests, false)
unfolding check_login_password
check_login_password-alarm g guess other alarm soon = ground (arith, alarm, soon)

abbrev pub is_unauthorized : LoginCode → Bool
is_unauthorized unauthorized = true
is_unauthorized _ = false

-- The guard after the guesses, how many of them were told that the password is wrong, and the alarms.
pub guessed : LoginGuard → List Guess → LoginGuard × ℕ × ℕ
guessed g [] = (g, 0, 0)
guessed g (guess ∷ guesses) =
    let answer = check_login_password g guess in
    let rest = guessed answer.0 guesses in
    (
      rest.0,
      (if is_unauthorized answer.1 then 1 else 0) + rest.1,
      (if answer.2 then 1 else 0) + rest.2,
    )

wrong_guess :
    (g : LoginGuard) (guess : Guess)
    → guess.check ≡ differs
    → g.failures < login_failure_limit
    → let answer = check_login_password g guess in
      (answer.0.failures < login_failure_limit)
      × (g.failures + (if is_unauthorized answer.1 then 1 else 0)
          ≡ login_failure_limit * (if answer.2 then 1 else 0) + answer.0.failures)
unfolding check_login_password
wrong_guess g guess wrong below = ground (arith, wrong, below)

-- Of wrong passwords, however they come, ten are looked at for each alarm, and never ten without one.
pub guessed_lem :
    (g : LoginGuard) (guesses : List Guess)
    → g.failures < login_failure_limit
    → All (λ guess. guess.check ≡ differs) guesses
    → let after = guessed g guesses in
      (after.0.failures < login_failure_limit)
      × (g.failures + after.1 ≡ login_failure_limit * after.2 + after.0.failures)
unfolding guessed
guessed_lem g [] below wrong = ground (arith, below)
guessed_lem g (guess ∷ guesses) below wrong =
    let here = wrong_guess g guess wrong.0 below in
    let rest = guessed_lem (check_login_password g guess).0 guesses here.0 wrong.1 in
    ground (arith, here, rest)
