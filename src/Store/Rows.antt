-- ===== src/Store/Rows.antt =====
-- The rows of internal/store/migrations, the Go structs that they are scanned into
-- (internal/store/items.go, albums.go), and the conversions between the two. An instant is the
-- count of nanoseconds since Go's zero time, so `0` is the time for which IsZero() holds.
use gpb.Common.{
  ℕ, ◌≡◌, ◌↔◌, Bool, true, false, Option, none, some, List, String, arith, Eq, ◌==◌, nat_eq,
  string_eq, if◌then◌else◌, get_or,
}

pub data State : Type 0 where
  discovered queued downloading done failed missing_upstream : State

abbrev pub state_beq : State → State → Bool
state_beq discovered discovered = true
state_beq queued queued = true
state_beq downloading downloading = true
state_beq done done = true
state_beq failed failed = true
state_beq missing_upstream missing_upstream = true
state_beq _ _ = false

pub state_beq_iff : (a b : State) → (state_beq a b ≡ true) ↔ (a ≡ b)
state_beq_iff a b = ground arith

instance abbrev pub state_eq : Eq State
state_eq = record { same = state_beq; same_iff = state_beq_iff }

pub data SyncMode : Type 0 where
  sync_none sync_all sync_picked : SyncMode

abbrev pub mode_beq : SyncMode → SyncMode → Bool
mode_beq sync_none sync_none = true
mode_beq sync_all sync_all = true
mode_beq sync_picked sync_picked = true
mode_beq _ _ = false

pub mode_beq_iff : (a b : SyncMode) → (mode_beq a b ≡ true) ↔ (a ≡ b)
mode_beq_iff a b = ground arith

instance abbrev pub mode_eq : Eq SyncMode
mode_eq = record { same = mode_beq; same_iff = mode_beq_iff }

-- `unlisted` is the empty string that a shared listing leaves for a kind.
pub data AlbumKind : Type 0 where
  unlisted own shared bundle library : AlbumKind

-- A row of media_items.
pub record Row : Type 0 where
  pub media_key : String
  pub filename : String
  pub captured_at : Option ℕ
  pub size_bytes : Option ℕ
  pub sha256 : Option String
  pub state : State
  pub fail_count : ℕ
  pub last_error : Option String
  pub local_path : Option String
  pub first_seen_at : ℕ
  pub downloaded_at : Option ℕ
  pub missing_since : Option ℕ
  pub needs_review : Bool
  pub thumbnail_url : Option String
  pub is_video : Bool

pub record MediaItem : Type 0 where
  pub media_key : String
  pub filename : String
  pub captured_at : ℕ
  pub size_bytes : ℕ
  pub sha256 : String
  pub state : State
  pub fail_count : ℕ
  pub last_error : String
  pub local_path : String
  pub first_seen_at : ℕ
  pub downloaded_at : ℕ
  pub missing_since : ℕ
  pub needs_review : Bool
  pub thumbnail_url : String
  pub is_video : Bool

-- A row of albums.
pub record AlbumRow : Type 0 where
  pub id : String
  pub title : String
  pub item_count : Option ℕ
  pub sync_mode : SyncMode
  pub created_at : Option ℕ
  pub kind : AlbumKind
  pub cover_url : String
  pub owner_name : String
  pub owner_is_account : Bool
  pub is_favourite : Bool
  pub since_date : Option ℕ
  pub new_only : Bool
  pub weekly_full_walk : Bool
  pub walked_in_full_at : Option ℕ
  pub first_seen_at : ℕ
  pub last_seen_at : ℕ
  pub last_synced_at : Option ℕ

pub record Album : Type 0 where
  pub id : String
  pub title : String
  pub item_count : ℕ
  pub sync_mode : SyncMode
  pub created_at : ℕ
  pub kind : AlbumKind
  pub cover_url : String
  pub owner_name : String
  pub owner_is_account : Bool
  pub favourite : Bool
  pub since : ℕ
  pub new_only : Bool
  pub weekly_full_walk : Bool
  pub walked_in_full_at : ℕ
  pub first_seen_at : ℕ
  pub last_seen_at : ℕ
  pub last_synced_at : ℕ

pub record Link : Type 0 where
  pub album_id : String
  pub media_key : String

pub record Selection : Type 0 where
  pub media_key : String
  pub selected : Bool

pub record Db : Type 0 where
  pub albums : List AlbumRow
  pub media_items : List Row
  pub album_items : List Link
  pub media_selection : List Selection

abbrev pub library_id : String
library_id = "library"

abbrev pub nullable_time : ℕ → Option ℕ
nullable_time at = if at == 0 then none else some at

abbrev pub null_empty : String → Option String
null_empty value = if value == "" then none else some value

-- The body of the loop of queryItems: NULL is scanned as the zero value.
unfoldable pub scan_item : Row → MediaItem
scan_item r = record {
  media_key = r.media_key;
  filename = r.filename;
  captured_at = get_or r.captured_at 0;
  size_bytes = get_or r.size_bytes 0;
  sha256 = get_or r.sha256 "";
  state = r.state;
  fail_count = r.fail_count;
  last_error = get_or r.last_error "";
  local_path = get_or r.local_path "";
  first_seen_at = r.first_seen_at;
  downloaded_at = get_or r.downloaded_at 0;
  missing_since = get_or r.missing_since 0;
  needs_review = r.needs_review;
  thumbnail_url = get_or r.thumbnail_url "";
  is_video = r.is_video;
}

-- The body of the loop of queryAlbums.
unfoldable pub scan_album : AlbumRow → Album
scan_album a = record {
  id = a.id;
  title = a.title;
  item_count = get_or a.item_count 0;
  sync_mode = a.sync_mode;
  created_at = get_or a.created_at 0;
  kind = a.kind;
  cover_url = a.cover_url;
  owner_name = a.owner_name;
  owner_is_account = a.owner_is_account;
  favourite = a.is_favourite;
  since = get_or a.since_date 0;
  new_only = a.new_only;
  weekly_full_walk = a.weekly_full_walk;
  walked_in_full_at = get_or a.walked_in_full_at 0;
  first_seen_at = a.first_seen_at;
  last_seen_at = a.last_seen_at;
  last_synced_at = get_or a.last_synced_at 0;
}
