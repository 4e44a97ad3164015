-- ===== src/Web/Guard.antt =====
-- internal/web/loginguard.go and checkLoginPassword of login.go: the lockout after wrong passwords.
-- A guess carries the instants at which the code asks for the time, and what config.VerifyPassword
-- says of it.
pub mod Lockout
use gpb.Errors.{Result, ok, err}
use gpb.Common.{ℕ, ◌+◌, ◌*◌, Bool, true, false, String, if◌then◌else◌, ltb}

abbrev pub login_failure_limit : ℕ
login_failure_limit = 10

-- Fifteen minutes, in nanoseconds.
abbrev pub login_lockout_period : ℕ
login_lockout_period = 15 * 60_000_000_000

pub record LoginGuard : Type 0 where
  pub failures : ℕ
  pub locked_until : ℕ

-- lockedFor, of which the pages use whether it is positive.
unfoldable pub is_locked : LoginGuard → ℕ → Bool
is_locked g now = ltb now g.locked_until

-- recordFailure: the guard, and whether this was the failure that tripped the lockout.
unfoldable pub record_login_failure : LoginGuard → ℕ → LoginGuard × Bool
record_login_failure g now =
    if ltb (g.failures + 1) login_failure_limit
    then (record g { failures = g.failures + 1 }, false)
    else (record { failures = 0; locked_until = now + login_lockout_period }, true)

unfoldable pub record_login_success : LoginGuard → LoginGuard
record_login_success g = record g { failures = 0 }

-- What the stored hash says of the password: there is none, it is unreadable, or it decides.
pub data PasswordCheck : Type 0 where
  unset unusable differs matches : PasswordCheck

pub record Guess : Type 0 where
  pub at : ℕ
  pub failed_at : ℕ
  pub check : PasswordCheck

pub data LoginCode : Type 0 where
  too_many_requests service_unavailable internal_server_error unauthorized ok_login : LoginCode

-- checkLoginPassword with failLogin: the guard, the code of the answer, and whether the alarm is raised.
unfoldable pub check_login_password : LoginGuard → Guess → LoginGuard × LoginCode × Bool
unfolding is_locked record_login_failure record_login_success
check_login_password g guess =
    if is_locked g guess.at then (g, too_many_requests, false) else elim guess.check [
      | unset ↦ (g, service_unavailable, false)
      | unusable ↦ (g, internal_server_error, false)
      | differs ↦
          let recorded = record_login_failure g guess.failed_at in
          (recorded.0, unauthorized, recorded.1)
      | matches ↦ (record_login_success g, ok_login, false)
    ]
