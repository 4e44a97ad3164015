-- ===== src/Web/Sessions.antt =====
-- internal/store/sessions.go: the sessions of the web server. The cutoffs are arguments, as in the
-- code. Stored instants compare as their texts do, which timestampLayout makes the order of time.
pub mod Liveness
use gpb.Common.{
  ℕ, Bool, true, false, ◌&&◌, ◌||◌, Option, none, some, List, [], ◌∷◌, ◌++◌, String, ◌==◌,
  string_eq, if◌then◌else◌, exists, update, delete, leb, ltb,
}

-- A row of web_sessions.
pub record Session : Type 0 where
  pub id_hash : String
  pub created_at : ℕ
  pub last_seen : ℕ

-- StartWebSession; `none` where the primary key refuses the row.
unfoldable pub start_web_session : String → ℕ → List Session → Option (List Session)
start_web_session id_hash now sessions =
    if exists (λ s. s.id_hash == id_hash) sessions
    then none
    else some (sessions ++ record { id_hash = id_hash; created_at = now; last_seen = now } ∷ [])

abbrev pub is_within : ℕ → ℕ → Session → Bool
is_within idle_since started_since s = leb idle_since s.last_seen && leb started_since s.created_at

-- RenewWebSession: the rows, and whether there was a live one.
unfoldable pub renew_web_session : String → ℕ → ℕ → ℕ → List Session → List Session × Bool
renew_web_session id_hash now idle_since started_since sessions = (
  update (λ s. s.id_hash == id_hash && is_within idle_since started_since s)
      (λ s. record s { last_seen = now }) sessions,
  exists (λ s. s.id_hash == id_hash && is_within idle_since started_since s) sessions,
)

-- WebSessionIsLive
unfoldable pub web_session_is_live : String → ℕ → ℕ → List Session → Bool
web_session_is_live id_hash idle_since started_since sessions =
    exists (λ s. s.id_hash == id_hash && is_within idle_since started_since s) sessions

-- EndWebSession
unfoldable pub end_web_session : String → List Session → List Session
end_web_session id_hash sessions = delete (λ s. s.id_hash == id_hash) sessions

-- DropExpiredWebSessions
unfoldable pub drop_expired_web_sessions : ℕ → ℕ → List Session → List Session
drop_expired_web_sessions idle_since started_since sessions =
    delete (λ s. ltb s.last_seen idle_since || ltb s.created_at started_since) sessions
