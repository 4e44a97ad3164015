-- ===== src/Syncer/Retry.antt =====
-- internal/syncer/retry.go: the delay before another attempt, which errors are worth one, and the
-- circuit breaker. A time.Duration is the bit pattern of its int64;
-- Base, Max and Retry-After are taken as not negative.
pub mod Streaks
use gpb.Errors.{
  ErrorKind, canceled, deadline_exceeded, session_rejected, protocol_drift, unknown_content_host,
  truncated, range_ignored, signed_url_rejected, count_contradicted, http_error, Failure,
  no_followed_album, no_such_row, disk_full, run_in_progress, other, is_drift,
  is_unknown_content_host, is_no_followed_album,
}
use gpb.Common.{
  ℕ, zero, suc, ◌+◌, ◌*◌, ◌-◌, ◌^◌, ◌%◌, ◌≤◌, ◌<◌, ◌≡◌, ◌≢◌, ◌⊎◌, inl, inr, refl, Bool, true, false,
  ◌&&◌, ◌||◌, not, Option, none, some, List, [], ◌∷◌, String, arith, ltb, leb, ◌==◌, nat_eq,
  string_eq, if◌then◌else◌, is_some, Bool-cases, min, max,
}
use gpb.Store.Rows.{MediaItem}

abbrev pub second : ℕ
second = 1_000_000_000

-- Jitter is a float64, known here only through what `jittered` makes of it.
pub record Backoff : Type 0 where
  pub base : ℕ
  pub max : ℕ

-- DefaultBackoff
abbrev pub default_backoff : Backoff
default_backoff = record { base = second; max = 120 * second }

abbrev pub int64_max : ℕ
int64_max = 2 ^ 63 - 1

-- `base << attempt` keeps the low 64 bits, and is not positive where it is 0 or its top bit is set.
unfoldable pub shifted : ℕ → ℕ → ℕ
shifted base attempt = (base * 2 ^ min attempt 20) % 2 ^ 64

-- Delay. `jittered` is time.Duration(rand.Float64() * b.Jitter * float64(delay)).
unfoldable pub delay : Backoff → (ℕ → ℕ) → ℕ → ℕ → ℕ
unfolding shifted
delay backoff jittered attempt retry_after =
    if ltb 0 retry_after
    then retry_after
    else let grown = shifted backoff.base attempt in
      let capped =
        if ltb backoff.max grown || grown == 0 || ltb int64_max grown then backoff.max else grown in
      (capped + jittered capped) % 2 ^ 64

-- HTTPError.Retryable
unfoldable pub http_retryable : ℕ → Bool
http_retryable status = status == 429 || leb 500 status

-- Retryable, of an error that is not nil.
unfoldable pub retryable : ErrorKind → Bool
unfolding http_retryable
retryable canceled = false
retryable deadline_exceeded = false
retryable session_rejected = false
retryable protocol_drift = false
retryable count_contradicted = false
retryable unknown_content_host = false
retryable truncated = true
retryable range_ignored = true
retryable signed_url_rejected = true
retryable (http_error status retry_after) = http_retryable status
retryable _ = true

unfoldable pub retry_after_of : ErrorKind → ℕ
retry_after_of (http_error status retry_after) = retry_after
retry_after_of _ = 0

unfoldable pub repeats_its_recorded_failure : MediaItem → Failure → Bool
repeats_its_recorded_failure item cause =
    (is_drift cause.kind || is_unknown_content_host cause.kind) && cause.message == item.last_error

unfoldable pub tells_the_breaker_nothing : MediaItem → Failure → Bool
unfolding repeats_its_recorded_failure
tells_the_breaker_nothing item cause =
    is_no_followed_album cause.kind || repeats_its_recorded_failure item cause

pub record Breaker : Type 0 where
  pub threshold : ℕ
  pub consecutive : ℕ
  pub tripped_cause : Option Failure

unfoldable pub new_breaker : ℕ → Breaker
new_breaker threshold = record { threshold = threshold; consecutive = 0; tripped_cause = none }

unfoldable pub succeed : Breaker → Breaker
succeed b = record b { consecutive = 0 }

-- Fail: the breaker after it, and whether it has just tripped.
unfoldable pub fail : Breaker → Failure → Breaker × Bool
fail b cause =
    let counted = record b { consecutive = b.consecutive + 1 } in
    if ltb counted.consecutive b.threshold || is_some b.tripped_cause
    then (counted, false)
    else (record counted { tripped_cause = some cause }, true)

pub tripped : Breaker → Option Failure
tripped b = b.tripped_cause
