-- ===== src/Syncer/Run.antt =====
-- internal/syncer: the listing half of a run (refreshAlbums and list of listing.go), how a run is
-- judged (worseOf of syncer.go, outcomeOf of report.go), and reclaimVanishedFiles of queue.go.
pub mod Judgement
use gpb.Errors.{Result, ok, err, Failure, is_canceled, is_session_rejected, is_drift}
use gpb.Common.{
  ℕ, ◌+◌, Bool, true, false, ◌&&◌, ◌||◌, not, Option, none, some, List, [], ◌∷◌, String, ◌==◌,
  nat_eq, string_eq, if◌then◌else◌, length, ltb,
}
use gpb.Store.Rows.{Db, Album, MediaItem, discovered, library_id, sync_none, mode_eq}
use gpb.Store.Items.{set_item_state}
use gpb.Store.Albums.{album, followed_albums}
use gpb.Store.Membership.{downloaded_in_sync_set}
use gpb.Store.Runs.{
  RunOutcome, ok_run, partial_run, auth_required, drift_run, interrupted, error_run,
}
use gpb.Syncer.Source.{Source}
use gpb.Syncer.Library.{list_library}
use gpb.Syncer.Listing.{Wording, record_listing, walk_albums, AlbumsWalk, at_start, is_empty}

-- refreshAlbums: the tables, and how many albums it recorded. The two errors keep their kinds.
unfoldable pub refresh_albums : Source → ℕ → ℕ → Db → Option (Db × Result ℕ)
refresh_albums source fuel at db =
    elim (record_listing source.albums source.account_id [] at fuel "" (db, [])) [
      | none ↦ none
      | some (listed, err cause) ↦ some (listed, err cause)
      | some (listed, ok owned) ↦
          elim (record_listing source.shared_albums source.account_id owned at fuel ""
            (listed, [])) [
              | none ↦ none
              | some (both, err cause) ↦ some (both, err cause)
              | some (both, ok others) ↦ some (both, ok (length owned + length others))
            ]
    ]

pub record ListingResult : Type 0 where
  pub listed : ℕ
  pub skipped : List String
  pub unlisted : List String

abbrev nothing_listed : ListingResult
nothing_listed = record { listed = 0; skipped = []; unlisted = [] }

-- albumWalk.result
unfoldable pub result_of : AlbumsWalk → ListingResult
result_of walk = record { listed = walk.listed; skipped = walk.skipped; unlisted = walk.unlisted }

-- What list does after the walk of the albums.
unfoldable pub list_the_library :
    Source → ℕ → ℕ → Db → ListingResult → Option (Db × ListingResult × Option Failure)
list_the_library source fuel at db result = elim (album library_id db) [
  | err cause ↦ some (db, result, some cause)
  | ok library ↦
      if library.sync_mode == sync_none
      then some (db, result, none)
      else elim (list_library source fuel library at db) [
        | none ↦ none
        | some (after, count, failed) ↦
            some (after, record result { listed = result.listed + count }, failed)
      ]
]

-- list; `now` gives the instant at which the walk of an album, or of the library, starts.
unfoldable pub list_account :
    Wording → Source → ℕ → ℕ → (String → ℕ) → Db → Option (Db × ListingResult × Option Failure)
unfolding refresh_albums result_of list_the_library
list_account wording source fuel at now db = elim (refresh_albums source fuel at db) [
  | none ↦ none
  | some (refreshed, err cause) ↦ some (refreshed, nothing_listed, some cause)
  | some (refreshed, ok recorded) ↦
      elim (walk_albums wording source fuel at now (followed_albums refreshed)
        (at_start refreshed (recorded == 0))) [
          | none ↦ none
          | some (walk, some cause) ↦ some (walk.db, result_of walk, some cause)
          | some (walk, none) ↦
              list_the_library source fuel (now library_id) walk.db (result_of walk)
        ]
]

abbrev pub is_serious : Option Failure → Bool
is_serious none = false
is_serious (some cause) = not (is_canceled cause.kind)

abbrev pub or_else : Option Failure → Option Failure → Option Failure
or_else (some cause) other = some cause
or_else none other = other

unfoldable pub worse_of : Option Failure → Option Failure → Option Failure
worse_of download_err list_err =
    if is_serious download_err
    then download_err
    else if is_serious list_err
    then list_err
    else or_else download_err list_err

-- outcomeOf, of the counts of the report that it reads and the error.
unfoldable pub outcome_of : ℕ → List String → List String → Option Failure → RunOutcome
outcome_of failed skipped unlisted (some cause) =
    if is_session_rejected cause.kind
    then auth_required
    else if is_drift cause.kind
    then drift_run
    else if is_canceled cause.kind
    then interrupted
    else error_run
outcome_of failed skipped unlisted none =
    if ltb 0 failed || not (is_empty skipped) || not (is_empty unlisted)
    then partial_run
    else ok_run

-- What os.Stat answers of a path.
pub data Stat : Type 0 where
  there gone unreadable : Stat

-- The loop of reclaimVanishedFiles, and the whole: the tables and the error; the disk is a parameter.
unfoldable pub reclaim_items : (String → Stat) → List MediaItem → Db → Db × Option Failure
reclaim_items stat [] db = (db, none)
reclaim_items stat (item ∷ kept) db =
    if item.local_path == "" then reclaim_items stat kept db else elim (stat item.local_path) [
      | there ↦ reclaim_items stat kept db
      | unreadable ↦ reclaim_items stat kept db
      | gone ↦ elim (set_item_state item.media_key discovered db) [
        | err cause ↦ (db, some cause)
        | ok reclaimed ↦ reclaim_items stat kept reclaimed
      ]
    ]

unfoldable pub reclaim_vanished_files : (String → Stat) → Db → Db × Option Failure
unfolding reclaim_items
reclaim_vanished_files stat db = reclaim_items stat (downloaded_in_sync_set db) db
