-- ===== src/Web/Sessions/Liveness.antt =====
-- Which sessions are live (internal/store/sessions.go), and that no call but a login makes one so.
use gpb.Common.{
  ℕ, ◌≤◌, ◌≡◌, refl, ◌&&◌, not, List, [], ◌∷◌, String, arith, ◌==◌, ==_iff, string_eq, exists,
  update, Bool-cases, inl, inr,
}
use gpb.Web.Sessions.{
  Session, is_within, renew_web_session, web_session_is_live, end_web_session,
  drop_expired_web_sessions,
}

exists-renewed :
    (id : String) (now idle started : ℕ) (sessions : List Session)
    → idle ≤ now
    → exists
        (λ s. s.id_hash == id && is_within idle started s)
        (update
          (λ s. s.id_hash == id && is_within idle started s)
          (λ s. record s { last_seen = now })
          sessions)
      ≡ exists (λ s. s.id_hash == id && is_within idle started s) sessions
exists-renewed id now idle started [] le = refl
exists-renewed id now idle started (s ∷ sessions) le =
    elim (Bool-cases (s.id_hash == id && is_within idle started s)) [
      | inl e ↦ ground (arith, e, exists-renewed id now idle started sessions le)
      | inr e ↦ rw e (ground (arith, exists-renewed id now idle started sessions le))
    ]

-- A renewal answers whether the session was live, and it is live afterwards, by the same cutoffs,
-- exactly if that is the answer; an expired session stays expired.
pub web_session_is_live-renew_web_session :
    (id : String) (now idle started : ℕ) (sessions : List Session)
    → idle ≤ now
    → ((renew_web_session id now idle started sessions).1
        ≡ web_session_is_live id idle started sessions)
      × (web_session_is_live id idle started (renew_web_session id now idle started sessions).0
          ≡ (renew_web_session id now idle started sessions).1)
unfolding renew_web_session web_session_is_live
web_session_is_live-renew_web_session id now idle started sessions le =
    (refl, exists-renewed id now idle started sessions le)

-- Ending a session leaves it live by no cutoffs, and every other session as live as it was.
pub web_session_is_live-end_web_session :
    (id other : String) (idle started : ℕ) (sessions : List Session)
    → web_session_is_live other idle started (end_web_session id sessions)
      ≡ (web_session_is_live other idle started sessions && not (other == id))
unfolding web_session_is_live end_web_session
web_session_is_live-end_web_session id other idle started [] = refl
web_session_is_live-end_web_session id other idle started (s ∷ sessions) = ground (
  arith,
  ==_iff s.id_hash id,
  ==_iff s.id_hash other,
  ==_iff other id,
  web_session_is_live-end_web_session id other idle started sessions,
)

-- Dropping the expired sessions changes nothing about which sessions are live by the same cutoffs.
pub web_session_is_live-drop_expired_web_sessions :
    (id : String) (idle started : ℕ) (sessions : List Session)
    → web_session_is_live id idle started (drop_expired_web_sessions idle started sessions)
      ≡ web_session_is_live id idle started sessions
unfolding web_session_is_live drop_expired_web_sessions
web_session_is_live-drop_expired_web_sessions id idle started [] = refl
web_session_is_live-drop_expired_web_sessions id idle started (s ∷ sessions) =
    ground (arith, web_session_is_live-drop_expired_web_sessions id idle started sessions)
