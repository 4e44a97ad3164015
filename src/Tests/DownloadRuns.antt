-- ===== src/Tests/DownloadRuns.antt =====
-- The theorems about the downloads of internal/syncer at concrete answers.
use gpb.Errors.{Result, ok, err, Failure, protocol_drift, http_error}
use gpb.Common.{
  ◌++◌, ℕ, ◌*◌, ◌≤◌, ◌<◌, ◌≡◌, ◌⊎◌, refl, true, false, none, some, List, [], ◌∷◌, String, arith,
  ◌==◌, nat_eq, string_eq, if◌then◌else◌, length, is_some, leb, max,
}
use gpb.Store.Rows.{Db, Row, MediaItem}
use gpb.Store.Membership.{album_for_item}
use gpb.Store.Upsert.{row_of}
use gpb.Syncer.Retry.{
  default_backoff, delay, new_breaker, tripped, retryable, repeats_its_recorded_failure, second,
}
use gpb.Syncer.Retry.Streaks.{
  Attempt, succeeded, failed, after, longest_streak, delay-bounds, tripped-after,
}
use gpb.Syncer.Queue.{Handing, taken, Turn, nothing_left, feed}
use gpb.Syncer.Queue.Offers.{HasNoRepeat, keys_of}
use gpb.Syncer.Queue.Feeding.{SomeTurn, IsExhausted, feed-bounded, feed-IsExhausted, feed-returns}
use gpb.Syncer.Download.{Downloaded, Surroundings, attempts, not_followed, download_one}
use gpb.Syncer.Download.Charges.{
  is_final, attempts-first, IsBackedUp, IsLocated, fetched, IsCharged, download_one_lem,
}
use gpb.Tests.Data.{fresh_row, tables, item}

abbrev unjittered : ℕ → ℕ
unjittered d = 0

delay-bounds_example :
    (0 < delay default_backoff unjittered 3 0)
    × (0 ≤ delay default_backoff unjittered 3 0)
    × ((delay default_backoff unjittered 3 0 ≡ 0)
        ⊎ (delay default_backoff unjittered 3 0 ≤ 2 * (120 * second)))
delay-bounds_example =
    delay-bounds default_backoff unjittered 3 0 (ground arith) (ground arith) (λ d. ground arith)

abbrev drift : Failure
drift = record { kind = protocol_drift; message = "unexpected shape" }

abbrev busy : Failure
busy = record { kind = http_error 503 0; message = "service unavailable" }

abbrev a_bad_night : List Attempt
a_bad_night = failed busy ∷ succeeded ∷ failed busy ∷ failed drift ∷ []

tripped-after_example :
    (is_some (tripped (after a_bad_night (new_breaker 2, 0)).0)
      ≡ leb 2 (longest_streak 0 a_bad_night))
    × ((after a_bad_night (new_breaker 2, 0)).1
        ≡ (if leb 2 (longest_streak 0 a_bad_night) then 1 else 0))
tripped-after_example = tripped-after 2 a_bad_night (ground arith)

repeated :
    repeats_its_recorded_failure (record (item "odd") { last_error = "unexpected shape" }) drift
    ≡ true
unfolding repeats_its_recorded_failure
repeated = refl

abbrev always_taken : ℕ → Handing
always_taken n = taken

abbrev quiet_turn : List MediaItem → Turn
quiet_turn batch = record {
  ctx_over = false;
  wait_ended = true;
  listing_closed = true;
  pending = ok batch;
}

abbrev turns : List Turn
turns =
    quiet_turn (item "a" ∷ item "b" ∷ [])
    ∷ quiet_turn (item "b" ∷ [])
    ∷ quiet_turn []
    ∷ quiet_turn []
    ∷ quiet_turn []
    ∷ []

abbrev handed : List String
handed = "b" ∷ "a" ∷ []

abbrev sent : List MediaItem
sent = item "b" ∷ item "a" ∷ []

feed_run : feed always_taken 3 turns (item "a" ∷ []) false [] [] ≡ some (handed, nothing_left, sent)
unfolding feed
feed_run = refl

feed-bounded_example : HasNoRepeat (keys_of sent) × (length sent ≤ 3)
feed-bounded_example =
    feed-bounded always_taken 3 turns (item "a" ∷ []) handed nothing_left sent feed_run

feed-IsExhausted_example : SomeTurn (IsExhausted (keys_of sent)) turns
feed-IsExhausted_example =
    feed-IsExhausted always_taken 3 turns (item "a" ∷ []) handed sent feed_run

abbrev listing_turn : Turn
listing_turn = record {
  ctx_over = false;
  wait_ended = true;
  listing_closed = false;
  pending = ok (item "a" ∷ []);
}

feed-returns_example :
    is_some (feed always_taken 3 ((listing_turn ∷ []) ++ turns) (item "a" ∷ []) false [] []) ≡ true
feed-returns_example =
    feed-returns always_taken 3 (listing_turn ∷ []) turns (item "a" ∷ [])
      (refl, (refl, (refl, (refl, (refl, tt))))) (ground arith)

abbrev file : Downloaded
file = record { path = "/pool/a.jpg"; size = 9; sha256 = "abc"; filename = "a.jpg" }

abbrev at_second : ℕ → Result Downloaded
at_second n = if n == 0 then err busy else ok file

abbrev around : Surroundings
around = record {
  fetch = λ album n. at_second n;
  pause = λ n d. none;
  jittered = λ n d. 0;
  ctx_over = false;
  locate = λ i. none;
  now = 60;
}

first_is_busy : (n : ℕ) → n < 1 → is_final (around.fetch "trip" n) ≡ false
unfolding retryable
first_is_busy n below = ground (arith, below)

attempts-first_example : attempts default_backoff around "trip" (max 1 4) 0 none ≡ ok file
attempts-first_example =
    attempts-first default_backoff around "trip" 4 1 (λ n d. refl) (ground arith) first_is_busy refl

download_one_lem_example :
    (after : Db) × (result : Result ℕ) × (r' : Row) × (download_one default_backoff 4 around "fresh"
        tables
      ≡ (after, result))
    × (row_of "fresh" after ≡ some r')
    × (((d : Downloaded) × (fetched default_backoff 4 around "fresh" tables ≡ ok d)
          × IsBackedUp d 60 fresh_row r'
          × IsLocated none d.size result)
        ⊎ ((cause : Failure) × (fetched default_backoff 4 around "fresh" tables ≡ err cause)
            × (result ≡ err cause)
            × (false ≡ false)
            × IsCharged fresh_row r' cause)
        ⊎ ((cause : Failure) × (fetched default_backoff 4 around "fresh" tables ≡ err cause)
            × (result ≡ err cause)
            × (false ≡ true)
            × (r'.fail_count ≡ 0))
        ⊎ ((album_for_item tables "fresh" ≡ "") × (result ≡ err not_followed) × (after ≡ tables)))
download_one_lem_example = download_one_lem default_backoff 4 around "fresh" tables fresh_row refl
