-- ===== src/Syncer/Download.antt =====
-- internal/syncer/queue.go, downloadOne and what records its outcome. What the item's fetch, the
-- waits and the run's context answer are parameters; the store is changed here by this item alone.
pub mod Charges
use gpb.Errors.{Result, ok, err, Failure, no_followed_album, other}
use gpb.Common.{
  ℕ, zero, suc, ◌+◌, ◌-◌, max, Bool, true, false, not, Option, none, some, String, ◌==◌, string_eq,
  nat_eq, if◌then◌else◌,
}
use gpb.Store.Rows.{Db, MediaItem, State, discovered, downloading, library_id}
use gpb.Store.Items.{set_item_state, mark_downloaded, mark_failed}
use gpb.Store.Membership.{album_for_item}
use gpb.Syncer.Retry.{Backoff, delay, retryable, retry_after_of}

-- downloaded
pub record Downloaded : Type 0 where
  pub path : String
  pub size : ℕ
  pub sha256 : String
  pub filename : String

-- `fetch album n` answers the n-th attempt, `pause n d` the wait of `d` before it, by ctx.Err() or nothing.
pub record Surroundings : Type 0 where
  pub fetch : String → ℕ → Result Downloaded
  pub pause : ℕ → ℕ → Option Failure
  pub jittered : ℕ → ℕ → ℕ
  pub ctx_over : Bool
  pub locate : MediaItem → Option Failure
  pub now : ℕ

unfoldable pub permission_album : String → String
permission_album album_id = if album_id == library_id then "" else album_id

abbrev pub unrecorded : Failure
unrecorded = record { kind = other; message = "the download failed for an unrecorded reason" }

abbrev pub cause_or_unrecorded : Option Failure → Failure
cause_or_unrecorded (some cause) = cause
cause_or_unrecorded none = unrecorded

-- The wait before an attempt that is not the first.
abbrev pub wait_before : Backoff → Surroundings → ℕ → Option Failure → Option Failure
wait_before backoff around attempt none = none
wait_before backoff around attempt (some last) =
    around.pause attempt
      (delay backoff (around.jittered attempt) (attempt - 1) (retry_after_of last.kind))

-- The loop over the attempts, so many left: what it fetched, or what recordFailure is told. A last
-- error is there just when the attempt is not the first.
unfoldable pub attempts :
    Backoff → Surroundings → String → ℕ → ℕ → Option Failure → Result Downloaded
attempts backoff around album zero attempt last = err (cause_or_unrecorded last)
attempts backoff around album (suc left) attempt last =
    elim (wait_before backoff around attempt last) [
      | some cut ↦ err cut
      | none ↦ elim (around.fetch album attempt) [
        | ok result ↦ ok result
        | err cause ↦
            if not (retryable cause.kind)
            then err cause
            else attempts backoff around album left (attempt + 1) (some cause)
      ]
    ]

abbrev pub landed : String → Downloaded → MediaItem
landed key result = record {
  media_key = key;
  filename = result.filename;
  captured_at = 0;
  size_bytes = result.size;
  sha256 = result.sha256;
  state = discovered;
  fail_count = 0;
  last_error = "";
  local_path = result.path;
  first_seen_at = 0;
  downloaded_at = 0;
  missing_since = 0;
  needs_review = false;
  thumbnail_url = "";
  is_video = false;
}

abbrev pub or_error : ℕ → Option Failure → Result ℕ
or_error size none = ok size
or_error size (some cause) = err cause

-- recordSuccess; LocateOne writes no table that is modelled.
unfoldable pub record_success : Surroundings → String → Downloaded → Db → Db × Result ℕ
record_success around key result db = elim (mark_downloaded (landed key result) around.now db) [
  | ok after ↦ (after, or_error result.size (around.locate (landed key result)))
  | err cause ↦ (db, err cause)
]

-- recordFailure
unfoldable pub record_failure : Surroundings → String → Failure → Db → Db
record_failure around key cause db =
    if around.ctx_over
    then db
    else elim (mark_failed key cause.message db) [ ok after ↦ after | err _ ↦ db ]

abbrev pub not_followed : Failure
not_followed = record {
  kind = no_followed_album;
  message = "the item is no longer in any followed album";
}

-- downloadOne
unfoldable pub download_one : Backoff → ℕ → Surroundings → String → Db → Db × Result ℕ
unfolding attempts record_success record_failure permission_album
download_one backoff max_attempts around key db =
    let album = album_for_item db key in
    if album == "" then (db, err not_followed) else elim (set_item_state key downloading db) [
      | err cause ↦ (db, err cause)
      | ok marked ↦
          elim (attempts backoff around (permission_album album) (max 1 max_attempts) 0 none) [
            | ok result ↦ record_success around key result marked
            | err cause ↦ (record_failure around key cause marked, err cause)
          ]
    ]
