-- ===== src/Store/Albums.antt =====
-- internal/store/albums.go: what a listing writes of an album, what the user decides about one,
-- and the counts that the pages show. A SyncMode is one of the three valid ones by its type, so
-- the refusals of an unknown mode have no counterpart here.
use gpb.Errors.{Result, ok, err, no_such_row}
use gpb.Common.{
  ℕ, Bool, true, false, ◌&&◌, ◌||◌, not, Option, none, some, List, [], ◌∷◌, ◌++◌, map, String, ◌==◌,
  nat_eq, string_eq, if◌then◌else◌, update, select, exists, count, sql_is, find, sort_by, then_by,
  reversed, compare_bool, Ordering,
}
use Prim.Native.String.{compare as compare_text}
use gpb.Store.Rows.{
  State, discovered, queued, downloading, missing_upstream, state_eq, SyncMode, sync_none, mode_eq,
  AlbumKind, unlisted, own, Row, AlbumRow, Album, Db, library_id, nullable_time, scan_album,
}

-- cmp.Or(album.Kind, AlbumOwned)
abbrev kind_or_own : AlbumKind → AlbumKind
kind_or_own unlisted = own
kind_or_own k = k

abbrev pub coalesce : Option ℕ → Option ℕ → Option ℕ
coalesce none b = b
coalesce (some a) b = some a

abbrev pub new_album_row : Album → ℕ → AlbumRow
new_album_row album seen = record {
  id = album.id;
  title = album.title;
  item_count = some album.item_count;
  sync_mode = sync_none;
  created_at = nullable_time album.created_at;
  kind = kind_or_own album.kind;
  cover_url = album.cover_url;
  owner_name = album.owner_name;
  owner_is_account = album.owner_is_account;
  is_favourite = false;
  since_date = none;
  new_only = false;
  weekly_full_walk = true;
  walked_in_full_at = none;
  first_seen_at = seen;
  last_seen_at = seen;
  last_synced_at = none;
}

pub upsert_album_row : Album → ℕ → AlbumRow → AlbumRow
upsert_album_row album seen a = record a {
  title = album.title;
  item_count = some album.item_count;
  created_at = coalesce (nullable_time album.created_at) a.created_at;
  kind = kind_or_own album.kind;
  cover_url = album.cover_url;
  owner_name = album.owner_name;
  owner_is_account = album.owner_is_account;
  last_seen_at = seen;
}

-- UpsertAlbum
unfoldable pub upsert_album : Album → ℕ → Db → Db
unfolding upsert_album_row
upsert_album album seen db =
    if exists (λ a. a.id == album.id) db.albums
    then record db {
      albums = update (λ a. a.id == album.id) (upsert_album_row album seen) db.albums;
    }
    else record db { albums = db.albums ++ new_album_row album seen ∷ [] }

abbrev pub set_where_id : String → (AlbumRow → AlbumRow) → Db → Db
set_where_id id f db = record db { albums = update (λ a. a.id == id) f db.albums }

abbrev pub require_album : String → Db → Db → Result Db
require_album id old new =
    if exists (λ a. a.id == id) old.albums
    then ok new
    else err (record { kind = no_such_row; message = "no such album" })

-- SetAlbumSyncMode
unfoldable pub set_album_sync_mode : String → SyncMode → Db → Result Db
set_album_sync_mode id mode db =
    require_album id db (set_where_id id (λ a. record a { sync_mode = mode }) db)

-- SetAlbumFavourite
unfoldable pub set_album_favourite : String → Bool → Db → Result Db
set_album_favourite id favourite db =
    require_album id db (set_where_id id (λ a. record a { is_favourite = favourite }) db)

pub record LibraryInstruction : Type 0 where
  pub mode : SyncMode
  pub since : ℕ
  pub new_only : Bool
  pub weekly_full_walk : Bool

-- Album.LibraryInstruction
unfoldable pub library_instruction : Album → LibraryInstruction
library_instruction album = record {
  mode = album.sync_mode;
  since = album.since;
  new_only = album.new_only;
  weekly_full_walk = album.weekly_full_walk;
}

pub instructed : LibraryInstruction → AlbumRow → AlbumRow
instructed i a = record a {
  sync_mode = i.mode;
  since_date = nullable_time i.since;
  new_only = i.new_only;
  weekly_full_walk = i.weekly_full_walk;
  walked_in_full_at =
      if a.sync_mode == i.mode && sql_is a.since_date (nullable_time i.since)
      then a.walked_in_full_at
      else none;
}

-- SetLibrary
unfoldable pub set_library : LibraryInstruction → Db → Result Db
unfolding instructed
set_library i db = require_album library_id db (set_where_id library_id (instructed i) db)

-- MarkLibraryWalkedInFull
unfoldable pub mark_library_walked_in_full : ℕ → Db → Db
mark_library_walked_in_full at =
    set_where_id library_id (λ a. record a { walked_in_full_at = some at })

-- MarkAlbumSynced
unfoldable pub mark_album_synced : String → ℕ → Db → Db
mark_album_synced id at = set_where_id id (λ a. record a { last_synced_at = some at })

abbrev first_album : Option AlbumRow → Result Album
first_album none = err (record { kind = no_such_row; message = "no such album" })
first_album (some a) = ok (scan_album a)

-- Album
unfoldable pub album : String → Db → Result Album
album id db = first_album (find (λ a. a.id == id) db.albums)

-- The ORDER BY of FollowedAlbums.
unfoldable pub followed_order : AlbumRow → AlbumRow → Ordering
followed_order a b =
    then_by (reversed (compare_bool a.is_favourite b.is_favourite))
      (then_by (compare_text a.title b.title) (compare_text a.id b.id))

abbrev pub is_followed : AlbumRow → Bool
is_followed a = not (a.sync_mode == sync_none) && not (a.id == library_id)

-- FollowedAlbums
unfoldable pub followed_albums : Db → List Album
followed_albums db = map scan_album (sort_by followed_order (select is_followed db.albums))

pub record AlbumStats : Type 0 where
  pub known : ℕ
  pub done : ℕ
  pub pending : ℕ
  pub failed : ℕ
  pub missing : ℕ
  pub needs_review : ℕ
  pub picked : ℕ

abbrev pub is_pending : State → Bool
is_pending discovered = true
is_pending queued = true
is_pending downloading = true
is_pending _ = false

-- flaggedWithAQuestion
abbrev pub asks_a_question : Row → Bool
asks_a_question r = r.needs_review && (r.state == discovered || r.state == missing_upstream)

abbrev pub in_album : Db → String → Row → Bool
in_album db id r = exists (λ l. l.album_id == id && l.media_key == r.media_key) db.album_items

-- AlbumStats. The primary key of album_items pairs an album with each item once, so its join with
-- media_items gives each row of the album once.
unfoldable pub album_stats : String → Db → AlbumStats
album_stats id db = record {
  known = count (in_album db id) db.media_items;
  done = count (λ r. in_album db id r && r.state == State.done) db.media_items;
  pending = count (λ r. in_album db id r && is_pending r.state) db.media_items;
  failed = count (λ r. in_album db id r && r.state == State.failed) db.media_items;
  missing = count (λ r. in_album db id r && r.state == missing_upstream) db.media_items;
  needs_review = count (λ r. in_album db id r && asks_a_question r) db.media_items;
  picked =
      count
        (λ r.
          in_album db id r
          && exists (λ s. s.media_key == r.media_key && s.selected) db.media_selection)
        db.media_items;
}
