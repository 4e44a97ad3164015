-- ===== src/Store/Membership.antt =====
-- The statements of internal/store/items.go about album membership: the sync set, the work list
-- of a run, and what a completed listing writes off.
use gpb.Common.{
  ℕ, ◌+◌, Bool, true, false, ◌&&◌, ◌||◌, not, some, List, [], ◌∷◌, ◌++◌, map, String, ◌==◌, nat_eq,
  string_eq, if◌then◌else◌, get_or, is_some, update, delete, select, exists, count, contains,
  minimum, chunk, update_reading, ltb, take, length, sort_by, then_by, reversed, compare_bool,
  compare_option, compare, Ordering, sql_is,
}
use Prim.Native.String.{compare as compare_text}
use gpb.Store.Rows.{
  State, discovered, queued, downloading, done, failed, missing_upstream, state_eq, sync_all,
  sync_picked, mode_eq, Row, MediaItem, AlbumRow, Link, Db, scan_item,
}
use gpb.Store.Items.{written_off}

-- LinkItemToAlbum
unfoldable pub link_item_to_album : String → String → Db → Db
link_item_to_album album_id media_key db =
    if exists (λ l. l.album_id == album_id && l.media_key == media_key) db.album_items
    then db
    else record db {
      album_items = db.album_items ++ record { album_id = album_id; media_key = media_key } ∷ [];
    }

-- SelectItem
unfoldable pub select_item : String → Bool → Db → Db
select_item media_key selected db =
    if exists (λ s. s.media_key == media_key) db.media_selection
    then record db {
      media_selection =
          update (λ s. s.media_key == media_key) (λ s. record s { selected = selected })
            db.media_selection;
    }
    else record db {
      media_selection =
          db.media_selection ++ record { media_key = media_key; selected = selected } ∷ [];
    }

pub is_selected : Db → String → Bool
is_selected db key = exists (λ s. s.selected && s.media_key == key) db.media_selection

-- The condition on a joined pair (ai, a) that inTheSyncSet and AlbumForItem share.
pub wanted_through : Db → Link → AlbumRow → Bool
unfolding is_selected
wanted_through db ai a =
    a.id == ai.album_id
    && (a.sync_mode == sync_all || a.sync_mode == sync_picked && is_selected db ai.media_key)

-- inTheSyncSet
unfoldable pub in_the_sync_set : Db → String → Bool
unfolding wanted_through
in_the_sync_set db key =
    exists (λ ai. ai.media_key == key && exists (wanted_through db ai) db.albums) db.album_items

-- inAFavouriteAlbum
unfoldable pub in_a_favourite_album : Db → String → Bool
in_a_favourite_album db key =
    exists
      (λ ai. ai.media_key == key && exists (λ a. a.id == ai.album_id && a.is_favourite) db.albums)
      db.album_items

unfoldable pub is_live : State → Bool
is_live discovered = true
is_live queued = true
is_live downloading = true
is_live failed = true
is_live done = false
is_live missing_upstream = false

-- The WHERE of Pending.
unfoldable pub is_owed : Db → ℕ → Row → Bool
unfolding is_live
is_owed db max_failures r =
    is_live r.state && ltb r.fail_count max_failures && in_the_sync_set db r.media_key

-- Its ORDER BY.
unfoldable pub pending_order : Db → Row → Row → Ordering
pending_order db a b =
    then_by
      (reversed
        (compare_bool (in_a_favourite_album db a.media_key) (in_a_favourite_album db b.media_key)))
      (then_by (reversed (compare_option compare a.captured_at b.captured_at))
        (compare_text a.media_key b.media_key))

pub pending_rows : Db → ℕ → List Row
pending_rows db max_failures =
    sort_by (pending_order db) (select (is_owed db max_failures) db.media_items)

unfoldable pub pending : Db → ℕ → ℕ → List MediaItem
unfolding pending_rows
pending db max_failures limit = map scan_item (take limit (pending_rows db max_failures))

-- DownloadedInSyncSet
unfoldable pub downloaded_in_sync_set : Db → List MediaItem
downloaded_in_sync_set db = map scan_item (
    sort_by (λ a b. compare_text a.media_key b.media_key)
      (select (λ r. r.state == done && in_the_sync_set db r.media_key) db.media_items))

abbrev by_capture : Row → Row → Ordering
by_capture a b =
    then_by (compare_option compare a.captured_at b.captured_at)
      (compare_text a.media_key b.media_key)

-- DownloadedFiles
unfoldable pub downloaded_files : Db → List MediaItem
downloaded_files db =
    map scan_item
      (sort_by by_capture (select (λ r. r.state == done && is_some r.local_path) db.media_items))

-- DownloadedInAlbum
unfoldable pub downloaded_in_album : Db → String → List MediaItem
downloaded_in_album db album_id = map scan_item (
    sort_by by_capture (
      select
        (λ r.
          r.state == done
          && is_some r.local_path
          && exists (λ ai. ai.album_id == album_id && ai.media_key == r.media_key) db.album_items)
        db.media_items))

abbrev captured_of : String → List Row → ℕ
captured_of key [] = 0
captured_of key (r ∷ rs) = if r.media_key == key then get_or r.captured_at 0 else captured_of key rs

-- AlbumMembers: each key with its capture date, zero where there is none.
unfoldable pub album_members : Db → String → List (String × ℕ)
album_members db album_id =
    map (λ ai. (ai.media_key, captured_of ai.media_key db.media_items))
      (select (λ ai. ai.album_id == album_id) db.album_items)

pub albums_wanting : Db → String → List String
unfolding wanted_through
albums_wanting db key =
    map (λ (ai : Link). ai.album_id)
      (select (λ ai. ai.media_key == key && exists (wanted_through db ai) db.albums) db.album_items)

-- AlbumForItem: the empty string where nothing covers the item.
unfoldable pub album_for_item : Db → String → String
unfolding albums_wanting
album_for_item db key = get_or (minimum (albums_wanting db key)) ""

pub record Departures : Type 0 where
  pub left_the_album : ℕ
  pub gone_from_google : ℕ
  pub copies : ℕ

abbrev pub departure_chunk : ℕ
departure_chunk = 500

unfoldable pub listed_elsewhere : String → List Link → String → Bool
listed_elsewhere album_id links key =
    exists (λ l. l.media_key == key && not (l.album_id == album_id)) links

-- The WHERE of the statement that writes off.
unfoldable pub is_gone : String → List String → List Link → Row → Bool
unfolding listed_elsewhere
is_gone album_id keys links r =
    not (is_some r.missing_since)
    && contains r.media_key keys
    && not (listed_elsewhere album_id links r.media_key)

-- The WHERE of the statement that drops memberships.
unfoldable pub has_left : String → List String → List Row → Link → Bool
has_left album_id keys table l =
    l.album_id == album_id
    && contains l.media_key keys
    && not (exists (λ r. r.state == missing_upstream && r.media_key == l.media_key) table)

unfoldable pub reconcile_chunk : String → ℕ → List String → Db → Db
reconcile_chunk album_id listed keys db =
    let items =
      update_reading (is_gone album_id keys db.album_items) (λ table. written_off table listed) []
        db.media_items in
    record db {
      media_items = items;
      album_items = delete (has_left album_id keys items) db.album_items;
    }

-- What the two statements of a chunk report: links removed and items written off.
pub chunk_counts : String → ℕ → List String → Db → ℕ × ℕ
unfolding is_gone has_left reconcile_chunk
chunk_counts album_id listed keys db = (
  count (has_left album_id keys (reconcile_chunk album_id listed keys db).media_items)
      db.album_items,
  count (is_gone album_id keys db.album_items) db.media_items,
)

unfoldable pub reconcile_chunks : String → ℕ → List (List String) → Db → (ℕ × ℕ) → Db × (ℕ × ℕ)
unfolding chunk_counts
reconcile_chunks album_id listed [] db counts = (db, counts)
reconcile_chunks album_id listed (keys ∷ rest) db counts =
    let found = chunk_counts album_id listed keys db in
    reconcile_chunks album_id listed rest (reconcile_chunk album_id listed keys db)
      (counts.0 + found.0, counts.1 + found.1)

-- Reconcile
unfoldable pub reconcile : String → List String → ℕ → Db → Db × Departures
unfolding reconcile_chunks reconcile_chunk is_gone has_left
reconcile album_id [] listed_at db =
    (db, record { left_the_album = 0; gone_from_google = 0; copies = 0 })
reconcile album_id (d ∷ departed) listed_at db =
    let (after, counts) =
      reconcile_chunks album_id listed_at
        (chunk (length (d ∷ departed)) departure_chunk (d ∷ departed)) db (0, 0) in
    (
      after,
      record {
        left_the_album = counts.0 + counts.1;
        gone_from_google = counts.1;
        copies =
            count (λ r. sql_is r.missing_since (some listed_at) && not r.needs_review)
              after.media_items;
      },
    )
