-- ===== src/Tests/WebRuns.antt =====
-- The theorems about internal/web at concrete rows and guesses.
use gpb.Common.{◌+◌, ◌*◌, ◌<◌, refl, ℕ, ◌≡◌, true, false, List, [], ◌∷◌, String, arith, string_eq}
use gpb.Web.Sessions.{Session, renew_web_session, web_session_is_live}
use gpb.Web.Sessions.Liveness.{web_session_is_live-renew_web_session}
use gpb.Web.Guard.{
  LoginGuard, Guess, differs, check_login_password, too_many_requests, login_failure_limit,
}
use gpb.Web.Guard.Lockout.{check_login_password-alarm, guessed, guessed_lem}

abbrev session : String → ℕ → Session
session id last_seen = record { id_hash = id; created_at = 3; last_seen = last_seen }

abbrev sessions : List Session
sessions = session "phone" 50 ∷ session "laptop" 8 ∷ []

abbrev phone : String
phone = "phone"

web_session_is_live-renew_web_session_example :
    ((renew_web_session phone 60 40 1 sessions).1 ≡ web_session_is_live phone 40 1 sessions)
    × (web_session_is_live phone 40 1 (renew_web_session phone 60 40 1 sessions).0
        ≡ (renew_web_session phone 60 40 1 sessions).1)
web_session_is_live-renew_web_session_example =
    web_session_is_live-renew_web_session phone 60 40 1 sessions (ground arith)

abbrev wrong_at : ℕ → Guess
wrong_at now = record { at = now; failed_at = now + 1; check = differs }

abbrev nearly_locked : LoginGuard
nearly_locked = record { failures = 9; locked_until = 0 }

tenth_alarms : (check_login_password nearly_locked (wrong_at 100)).2 ≡ true
unfolding check_login_password
tenth_alarms = refl

check_login_password-alarm_example :
    check_login_password (check_login_password nearly_locked (wrong_at 100)).0 (wrong_at 200)
    ≡ ((check_login_password nearly_locked (wrong_at 100)).0, too_many_requests, false)
check_login_password-alarm_example =
    check_login_password-alarm nearly_locked (wrong_at 100) (wrong_at 200) tenth_alarms
      (ground arith)

guessed_lem_example :
    let after = guessed nearly_locked (wrong_at 100 ∷ wrong_at 200 ∷ []) in
    (after.0.failures < login_failure_limit)
    × (nearly_locked.failures + after.1 ≡ login_failure_limit * after.2 + after.0.failures)
guessed_lem_example =
    guessed_lem nearly_locked (wrong_at 100 ∷ wrong_at 200 ∷ []) (ground arith) (refl, (refl, tt))
