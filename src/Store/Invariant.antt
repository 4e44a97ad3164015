-- ===== src/Store/Invariant.antt =====
-- The calls of internal/store in any order, and the tables that they leave well formed.
use gpb.Errors.{ok}
use gpb.Common.{ℕ, ◌≡◌, ◌≢◌, Bool, true, false, List, String, string_eq}
use gpb.Store.Rows.{State, missing_upstream, state_eq, MediaItem, Album, SyncMode, library_id, Db}
use gpb.Store.Items.{
  upsert_item, set_item_state, mark_downloaded, mark_failed, mark_missing_upstream,
}
use gpb.Store.Membership.{link_item_to_album, select_item, reconcile}
use gpb.Store.Albums.{
  LibraryInstruction, upsert_album, set_album_sync_mode, set_album_favourite, set_library,
  mark_library_walked_in_full, mark_album_synced,
}
use gpb.Store.Review.{flag_for_review, clear_needs_review}
use gpb.Store.Twins.{forget}
use gpb.Store.WellFormed.{
  IsWellFormed, upsert_item-IsWellFormed, set_item_state-IsWellFormed, mark_downloaded-IsWellFormed,
  mark_failed-IsWellFormed, mark_missing_upstream-IsWellFormed, link_item_to_album-IsWellFormed,
  set_review-IsWellFormed, reconcile-IsWellFormed, forget-IsWellFormed, select_item-IsWellFormed,
  albums-IsWellFormed, upsert_album-IsWellFormed, require_album-IsWellFormed,
}

-- One call of the store by the listing, the download path, the review queue, the duplicates command or
-- the settings of albums. The callers of SetItemState pass `discovered` and `downloading` only.
pub data Step (db : Db) : Db → Type 0 where
  lists : (item : MediaItem) (at : ℕ) → Step db (upsert_item item at db)
  links : (album_id key : String) → Step db (link_item_to_album album_id key db)
  selects : (key : String) (chosen : Bool) → Step db (select_item key chosen db)
  sets :
      (key : String) (s : State) {after : Db}
      → s ≢ missing_upstream
      → set_item_state key s db ≡ ok after
      → Step db after
  downloads :
      (item : MediaItem) (at : ℕ) {after : Db}
      → mark_downloaded item at db ≡ ok after
      → Step db after
  fails : (key cause : String) {after : Db} → mark_failed key cause db ≡ ok after → Step db after
  misses : (key : String) (at : ℕ) → Step db (mark_missing_upstream key at db)
  reconciles :
      (album_id : String) (departed : List String) (at : ℕ)
      → Step db (reconcile album_id departed at db).0
  flags : (keys : List String) → Step db (flag_for_review keys db)
  settles : (keys : List String) → Step db (clear_needs_review keys db)
  forgets : (key : String) → Step db (forget key db)
  lists_album : (album : Album) (seen : ℕ) → Step db (upsert_album album seen db)
  sets_mode :
      (id : String) (mode : SyncMode) {after : Db}
      → set_album_sync_mode id mode db ≡ ok after
      → Step db after
  favours :
      (id : String) (favourite : Bool) {after : Db}
      → set_album_favourite id favourite db ≡ ok after
      → Step db after
  instructs :
      (instruction : LibraryInstruction) {after : Db}
      → set_library instruction db ≡ ok after
      → Step db after
  walked_in_full : (at : ℕ) → Step db (mark_library_walked_in_full at db)
  synced : (id : String) (at : ℕ) → Step db (mark_album_synced id at db)

pub data Reach (db : Db) : Db → Type 0 where
  here : Reach db db
  next : {mid after : Db} → Reach db mid → Step mid after → Reach db after

-- Each of these calls keeps both primary keys, and keeps the date `missing_since` on exactly
-- the rows in the state missing_upstream.
pub Step-IsWellFormed : {db after : Db} → Step db after → IsWellFormed db → IsWellFormed after
unfolding flag_for_review clear_needs_review set_album_sync_mode set_album_favourite set_library
    mark_library_walked_in_full mark_album_synced
Step-IsWellFormed {db} (lists item at) w = upsert_item-IsWellFormed item at db w
Step-IsWellFormed {db} (links album_id key) w = link_item_to_album-IsWellFormed album_id key db w
Step-IsWellFormed {db} (selects key chosen) w = select_item-IsWellFormed key chosen db w
Step-IsWellFormed {db} (sets key s live h) w = set_item_state-IsWellFormed key s db live h w
Step-IsWellFormed {db} (downloads item at h) w = mark_downloaded-IsWellFormed item at db h w
Step-IsWellFormed {db} (fails key cause h) w = mark_failed-IsWellFormed key cause db h w
Step-IsWellFormed {db} (misses key at) w = mark_missing_upstream-IsWellFormed key at db w
Step-IsWellFormed {db} (reconciles album_id departed at) w =
    reconcile-IsWellFormed album_id departed at db w
Step-IsWellFormed {db} (flags keys) w = set_review-IsWellFormed true keys db w
Step-IsWellFormed {db} (settles keys) w = set_review-IsWellFormed false keys db w
Step-IsWellFormed {db} (forgets key) w = forget-IsWellFormed key db w
Step-IsWellFormed {db} (lists_album album seen) w = upsert_album-IsWellFormed album seen db w
Step-IsWellFormed {db} (sets_mode id mode h) w = require_album-IsWellFormed id _ db h w
Step-IsWellFormed {db} (favours id favourite h) w = require_album-IsWellFormed id _ db h w
Step-IsWellFormed {db} (instructs i h) w = require_album-IsWellFormed library_id _ db h w
Step-IsWellFormed {db} (walked_in_full at) w = albums-IsWellFormed _ db w
Step-IsWellFormed {db} (synced id at) w = albums-IsWellFormed _ db w

-- Of these calls of the store, each of which succeeds, any number in any order: UpsertItem,
-- LinkItemToAlbum, SelectItem, MarkDownloaded, MarkFailed, MarkMissingUpstream, Reconcile, FlagForReview,
-- ClearNeedsReview, Forget, the six writes to albums, and SetItemState with another state than
-- missing_upstream. Tables in which no two rows share the primary key of media_items or of album_items,
-- and `missing_since` is set on exactly the rows in the state missing_upstream, are so after them.
pub Reach-IsWellFormed : {db after : Db} → Reach db after → IsWellFormed db → IsWellFormed after
Reach-IsWellFormed here w = w
Reach-IsWellFormed (next r s) w = Step-IsWellFormed s (Reach-IsWellFormed r w)
