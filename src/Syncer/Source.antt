-- ===== src/Syncer/Source.antt =====
-- What internal/gphotos answers to a listing, as internal/syncer reads it, and its conversion into
-- the store's item and album (toStoreItem and toStoreAlbum of internal/syncer/listing.go). The
-- upstream itself is a parameter of what uses it: a function from page tokens to answers.
use gpb.Errors.{Result}
use gpb.Common.{ℕ, Bool, false, ◌&&◌, not, List, String, ◌==◌, string_eq}
use gpb.Store.Rows.{discovered, sync_none, AlbumKind, MediaItem, Album}

-- gphotos.MediaItem. `captured_at` is the instant of LocalCaptureTime(): the zone that this puts on
-- it changes neither IsZero nor a comparison.
pub record Listed : Type 0 where
  pub media_key : String
  pub captured_at : ℕ
  pub thumbnail_url : String
  pub is_video : Bool

pub record ItemPage : Type 0 where
  pub items : List Listed
  pub next_token : String

pub record Person : Type 0 where
  pub id : String
  pub name : String

-- gphotos.Album
pub record ListedAlbum : Type 0 where
  pub id : String
  pub title : String
  pub item_count : ℕ
  pub created_at : ℕ
  pub kind : AlbumKind
  pub cover_url : String
  pub owner : Person

pub record AlbumPage : Type 0 where
  pub albums : List ListedAlbum
  pub next_token : String

-- The listing calls of the Source interface.
pub record Source : Type 0 where
  pub account_id : String
  pub albums : String → Result AlbumPage
  pub shared_albums : String → Result AlbumPage
  pub album_items : String → String → Result ItemPage
  pub timeline : String → Result ItemPage

unfoldable pub to_store_item : Listed → MediaItem
to_store_item item = record {
  media_key = item.media_key;
  filename = "";
  captured_at = item.captured_at;
  size_bytes = 0;
  sha256 = "";
  state = discovered;
  fail_count = 0;
  last_error = "";
  local_path = "";
  first_seen_at = 0;
  downloaded_at = 0;
  missing_since = 0;
  needs_review = false;
  thumbnail_url = item.thumbnail_url;
  is_video = item.is_video;
}

unfoldable pub to_store_album : ListedAlbum → String → Album
to_store_album album account_id = record {
  id = album.id;
  title = album.title;
  item_count = album.item_count;
  sync_mode = sync_none;
  created_at = album.created_at;
  kind = album.kind;
  cover_url = album.cover_url;
  owner_name = album.owner.name;
  owner_is_account = not (account_id == "") && album.owner.id == account_id;
  favourite = false;
  since = 0;
  new_only = false;
  weekly_full_walk = false;
  walked_in_full_at = 0;
  first_seen_at = 0;
  last_seen_at = 0;
  last_synced_at = 0;
}
