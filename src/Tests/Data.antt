-- ===== src/Tests/Data.antt =====
-- Tables, items and albums as internal/store/items_test.go and internal/syncer/syncer_test.go set up.
use gpb.Common.{ℕ, true, false, none, some, [], ◌∷◌, String}
use gpb.Store.Rows.{
  State, discovered, done, missing_upstream, SyncMode, sync_all, sync_none, AlbumKind, own, library,
  Row, MediaItem, AlbumRow, Album, Link, Db, library_id,
}
use gpb.Syncer.Source.{Listed}

abbrev pub row : String → State → Row
row key state = record {
  media_key = key;
  filename = "";
  captured_at = some 100;
  size_bytes = none;
  sha256 = none;
  state = state;
  fail_count = 0;
  last_error = none;
  local_path = none;
  first_seen_at = 5;
  downloaded_at = none;
  missing_since = none;
  needs_review = false;
  thumbnail_url = none;
  is_video = false;
}

abbrev pub kept_key : String
kept_key = "kept"

abbrev pub lost_key : String
lost_key = "lost"

abbrev pub trip_id : String
trip_id = "trip"

abbrev pub kept : Row
kept = record (row "kept" done) {
  size_bytes = some 9;
  sha256 = some "abc";
  local_path = some "/pool/kept.jpg";
  filename = "kept.jpg";
}

abbrev pub lost : Row
lost = record (row "lost" missing_upstream) {
  size_bytes = some 9;
  sha256 = some "abc";
  local_path = some "/pool/lost.jpg";
  filename = "lost.jpg";
  missing_since = some 50;
  needs_review = true;
}

abbrev pub fresh_row : Row
fresh_row = row "fresh" discovered

abbrev pub album_of : String → SyncMode → AlbumKind → AlbumRow
album_of id mode kind = record {
  id = id;
  title = "Trip";
  item_count = some 2;
  sync_mode = mode;
  created_at = some 3;
  kind = kind;
  cover_url = "";
  owner_name = "";
  owner_is_account = true;
  is_favourite = false;
  since_date = none;
  new_only = false;
  weekly_full_walk = false;
  walked_in_full_at = some 40;
  first_seen_at = 1;
  last_seen_at = 2;
  last_synced_at = some 4;
}

abbrev pub trip : AlbumRow
trip = album_of "trip" sync_all own

abbrev pub library_row : AlbumRow
library_row = album_of library_id sync_none library

abbrev pub link : String → String → Link
link album_id key = record { album_id = album_id; media_key = key }

abbrev pub tables : Db
tables = record {
  albums = trip ∷ library_row ∷ [];
  media_items = kept ∷ lost ∷ fresh_row ∷ [];
  album_items = link "trip" "kept" ∷ link "trip" "fresh" ∷ link library_id "fresh" ∷ [];
  media_selection = [];
}

abbrev pub item : String → MediaItem
item key = record {
  media_key = key;
  filename = "";
  captured_at = 200;
  size_bytes = 0;
  sha256 = "";
  state = discovered;
  fail_count = 0;
  last_error = "";
  local_path = "/pool/new.jpg";
  first_seen_at = 0;
  downloaded_at = 0;
  missing_since = 0;
  needs_review = false;
  thumbnail_url = "";
  is_video = false;
}

abbrev pub trip_listed : Album
trip_listed = record {
  id = "trip";
  title = "Trip, renamed";
  item_count = 3;
  sync_mode = sync_none;
  created_at = 0;
  kind = own;
  cover_url = "";
  owner_name = "";
  owner_is_account = true;
  favourite = false;
  since = 0;
  new_only = false;
  weekly_full_walk = false;
  walked_in_full_at = 0;
  first_seen_at = 0;
  last_seen_at = 0;
  last_synced_at = 0;
}

abbrev pub listed : String → ℕ → Listed
listed key captured_at = record {
  media_key = key;
  captured_at = captured_at;
  thumbnail_url = "";
  is_video = false;
}
