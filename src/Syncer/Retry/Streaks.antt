-- ===== src/Syncer/Retry/Streaks.antt =====
-- What internal/syncer/retry.go promises: how long a delay is, and when the breaker trips.
use gpb.Errors.{Failure}
use gpb.Common.{
  ℕ, ◌+◌, ◌*◌, ◌^◌, ◌≤◌, ◌<◌, ◌≡◌, ◌⊎◌, refl, true, false, ◌||◌, none, some, List, [], ◌∷◌, arith,
  ltb, leb, ◌==◌, nat_eq, string_eq, if◌then◌else◌, is_some, min, max,
}
use native.Mathlib.Nat.{one-le-pow, pow-le-pow_right, mul-le-mul_left, mul-pos, min-le_right}
use gpb.Store.Rows.{MediaItem}
use gpb.Syncer.Retry.{
  Backoff, delay, shifted, int64_max, Breaker, new_breaker, succeed, fail, tripped, retryable,
  repeats_its_recorded_failure,
}

-- A jitter of at most the delay itself and a maximum below 2^62 given, an attempt is never repeated
-- at once and never sooner than the server asked, and never later than twice the maximum unless the
-- server asked for it.
pub delay-bounds :
    (backoff : Backoff) (jittered : ℕ → ℕ) (attempt retry_after : ℕ)
    → 0 < backoff.max
    → backoff.max < 2 ^ 62
    → ((d : ℕ) → jittered d ≤ d)
    → (0 < delay backoff jittered attempt retry_after)
      × (retry_after ≤ delay backoff jittered attempt retry_after)
      × ((delay backoff jittered attempt retry_after ≡ retry_after)
          ⊎ (delay backoff jittered attempt retry_after ≤ 2 * backoff.max))
unfolding delay
delay-bounds backoff jittered attempt retry_after pos small bound =
    let grown = shifted backoff.base attempt in
    let capped =
      if ltb backoff.max grown || grown == 0 || ltb int64_max grown then backoff.max else grown in
    let le : capped ≤ backoff.max = ground arith in
    let lt : 0 < capped = ground arith in ground (arith, bound capped, le, lt)

pow_bounds : (n : ℕ) → (1 ≤ 2 ^ min n 20) × (2 ^ min n 20 ≤ 2 ^ 20)
pow_bounds n =
    (one-le-pow (min n 20) 2 (ground arith), pow-le-pow_right (ground arith) (min-le_right n 20))

-- Where 2^20 times the base fits an int64, the delay before the jitter doubles with each attempt up
-- to the twentieth, and stops at the maximum.
pub delay_lem :
    (backoff : Backoff) (jittered : ℕ → ℕ) (attempt : ℕ)
    → 0 < backoff.base
    → backoff.base * 2 ^ 20 < 2 ^ 63
    → backoff.max < 2 ^ 62
    → ((d : ℕ) → jittered d ≤ d)
    → delay backoff jittered attempt 0
      ≡ min backoff.max (backoff.base * 2 ^ min attempt 20)
        + jittered (min backoff.max (backoff.base * 2 ^ min attempt 20))
unfolding delay shifted
delay_lem backoff jittered attempt pos fits small bound =
    let fit : backoff.base * 2 ^ min attempt 20 ≤ backoff.base * 2 ^ 20 =
      mul-le-mul_left backoff.base (pow_bounds attempt).1 in
    let grown : 0 < backoff.base * 2 ^ min attempt 20 = mul-pos pos (pow_bounds attempt).0 in
    ground (arith, fit, grown, bound (min backoff.max (backoff.base * 2 ^ min attempt 20)))

-- What the workers tell the breaker.
pub data Attempt : Type 0 where
  succeeded : Attempt
  failed : Failure → Attempt

-- The breaker after the attempts, and how often it reported that it had just tripped.
pub after : List Attempt → Breaker × ℕ → Breaker × ℕ
after [] b = b
after (succeeded ∷ rest) (b, reports) = after rest (succeed b, reports)
after (failed cause ∷ rest) (b, reports) =
    after rest ((fail b cause).0, if (fail b cause).1 then reports + 1 else reports)

-- The longest run of failures, `running` of them before the list begins.
pub longest_streak : ℕ → List Attempt → ℕ
longest_streak running [] = running
longest_streak running (succeeded ∷ rest) = max running (longest_streak 0 rest)
longest_streak running (failed cause ∷ rest) = longest_streak (running + 1) rest

after-tripped :
    (attempts : List Attempt) (b : Breaker) (reports : ℕ) (cause : Failure)
    → b.tripped_cause ≡ some cause
    → (tripped (after attempts (b, reports)).0 ≡ some cause)
      × ((after attempts (b, reports)).1 ≡ reports)
unfolding after tripped fail succeed
after-tripped [] b reports cause h = (h, refl)
after-tripped (succeeded ∷ rest) b reports cause h = after-tripped rest (succeed b) reports cause h
after-tripped (failed c ∷ rest) b reports cause h =
    ground (arith, h, after-tripped rest (fail b c).0 reports cause)

longest_streak-ge :
    (running : ℕ) (attempts : List Attempt) → running ≤ longest_streak running attempts
unfolding longest_streak
longest_streak-ge running [] = ground arith
longest_streak-ge running (succeeded ∷ rest) = ground arith
longest_streak-ge running (failed cause ∷ rest) =
    ground (arith, longest_streak-ge (running + 1) rest)

after-untripped :
    (attempts : List Attempt) (b : Breaker) (reports : ℕ)
    → b.tripped_cause ≡ none
    → b.consecutive < b.threshold
    → (is_some (tripped (after attempts (b, reports)).0)
        ≡ leb b.threshold (longest_streak b.consecutive attempts))
      × ((after attempts (b, reports)).1
          ≡ reports + (if leb b.threshold (longest_streak b.consecutive attempts) then 1 else 0))
unfolding after tripped fail succeed longest_streak
after-untripped [] b reports h lt = ground (arith, h)
after-untripped (succeeded ∷ rest) b reports h lt =
    ground (arith, h, after-untripped rest (succeed b) reports)
after-untripped (failed cause ∷ rest) b reports h lt = ground (
  arith,
  h,
  after-untripped rest (fail b cause).0 reports,
  after-tripped rest (fail b cause).0 (reports + 1) cause,
  longest_streak-ge (b.consecutive + 1) rest,
)

-- A breaker of a positive threshold has tripped just when so many attempts in a row have failed, and
-- then it has reported it once, whatever followed.
pub tripped-after :
    (threshold : ℕ) (attempts : List Attempt)
    → 0 < threshold
    → (is_some (tripped (after attempts (new_breaker threshold, 0)).0)
        ≡ leb threshold (longest_streak 0 attempts))
      × ((after attempts (new_breaker threshold, 0)).1
          ≡ (if leb threshold (longest_streak 0 attempts) then 1 else 0))
unfolding new_breaker
tripped-after threshold attempts pos =
    ground (arith, after-untripped attempts (new_breaker threshold) 0 refl pos)

-- A failure that the breaker passes over as the item's own is never retried.
pub retryable-repeats :
    (item : MediaItem) (cause : Failure)
    → repeats_its_recorded_failure item cause ≡ true
    → retryable cause.kind ≡ false
unfolding retryable repeats_its_recorded_failure
retryable-repeats item cause h = ground (arith, h)
