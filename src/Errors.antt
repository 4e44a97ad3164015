-- ===== src/Errors.antt =====
-- The sentinel errors of internal/gphotos, internal/syncer and internal/store, and the values that
-- wrap them. `kind` is what errors.Is and errors.As find, `message` what Error() prints: wrapping
-- by `%w` keeps the kind and writes a new message.
use gpb.Common.{ℕ, Bool, true, false, String, nat_eq}

pub data ErrorKind : Type 0 where
  canceled deadline_exceeded : ErrorKind
  session_rejected protocol_drift unknown_content_host : ErrorKind
  truncated range_ignored signed_url_rejected : ErrorKind
  count_contradicted : ErrorKind
  http_error : (status_code retry_after : ℕ) → ErrorKind
  no_followed_album no_such_row disk_full run_in_progress other : ErrorKind

pub record Failure : Type 0 where
  pub kind : ErrorKind
  pub message : String

pub data Result {ℓ} (A : Type ℓ) : Type ℓ where
  ok : A → Result A
  err : Failure → Result A

infixl 5 ◌>>=◌
abbrev pub ◌>>=◌ {ℓ κ} : {A : Type ℓ} {B : Type κ} → Result A → (A → Result B) → Result B
ok a >>= f = f a
err e >>= f = err e

-- errors.Is(err, gphotos.ErrProtocolDrift): errAlbumCountContradicted wraps it.
abbrev pub is_drift : ErrorKind → Bool
is_drift protocol_drift = true
is_drift count_contradicted = true
is_drift _ = false

abbrev pub is_count_contradicted : ErrorKind → Bool
is_count_contradicted count_contradicted = true
is_count_contradicted _ = false

abbrev pub is_canceled : ErrorKind → Bool
is_canceled canceled = true
is_canceled _ = false

abbrev pub is_session_rejected : ErrorKind → Bool
is_session_rejected session_rejected = true
is_session_rejected _ = false

abbrev pub is_unknown_content_host : ErrorKind → Bool
is_unknown_content_host unknown_content_host = true
is_unknown_content_host _ = false

abbrev pub is_no_followed_album : ErrorKind → Bool
is_no_followed_album no_followed_album = true
is_no_followed_album _ = false
