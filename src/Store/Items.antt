-- ===== src/Store/Items.antt =====
-- The statements of internal/store/items.go that change media_items.
use gpb.Errors.{Result, ok, err, no_such_row}
use gpb.Common.{
  ℕ, ◌+◌, Bool, true, false, ◌&&◌, ◌||◌, not, Option, none, some, List, [], ◌∷◌, ◌++◌, String, ◌==◌,
  nat_eq, string_eq, if◌then◌else◌, is_some, sql_is, sql_eq, update, exists, leb,
}
use gpb.Store.Rows.{
  State, discovered, done, failed, missing_upstream, state_eq, Row, MediaItem, Db, nullable_time,
  null_empty,
}

-- What UpsertItem inserts for a key that has no row.
abbrev pub new_row : MediaItem → ℕ → Row
new_row item first_seen_at = record {
  media_key = item.media_key;
  filename = item.filename;
  captured_at = nullable_time item.captured_at;
  size_bytes = none;
  sha256 = none;
  state = discovered;
  fail_count = 0;
  last_error = none;
  local_path = none;
  first_seen_at = first_seen_at;
  downloaded_at = none;
  missing_since = none;
  needs_review = false;
  thumbnail_url = null_empty item.thumbnail_url;
  is_video = item.is_video;
}

abbrev bool_ne : Bool → Bool → Bool
bool_ne true b = not b
bool_ne false b = b

-- The WHERE of UpsertItem's conflict clause.
pub upsert_changes : MediaItem → Row → Bool
upsert_changes item r =
    not (sql_is r.captured_at (nullable_time item.captured_at))
    || not (sql_is r.thumbnail_url (null_empty item.thumbnail_url))
    || bool_ne r.is_video item.is_video
    || r.state == missing_upstream
    || is_some r.missing_since

-- Its SET.
pub refreshed : MediaItem → Row → Row
refreshed item r = record r {
  captured_at = nullable_time item.captured_at;
  thumbnail_url = null_empty item.thumbnail_url;
  is_video = item.is_video;
  missing_since = none;
  needs_review = if r.state == missing_upstream then false else r.needs_review;
  state =
      if not (r.state == missing_upstream)
      then r.state
      else if is_some r.local_path
      then done
      else discovered;
}

pub upsert_row : MediaItem → Row → Row
unfolding upsert_changes refreshed
upsert_row item r = if upsert_changes item r then refreshed item r else r

unfoldable pub upsert_item : MediaItem → ℕ → Db → Db
unfolding upsert_row
upsert_item item first_seen_at db =
    if exists (λ r. r.media_key == item.media_key) db.media_items
    then record db {
      media_items = update (λ r. r.media_key == item.media_key) (upsert_row item) db.media_items;
    }
    else record db { media_items = db.media_items ++ new_row item first_seen_at ∷ [] }

-- unlessWrittenOff
abbrev pub unless_written_off : State → State → State
unless_written_off old new = if old == missing_upstream then old else new

-- requireOneRow, for a statement whose WHERE names one key.
abbrev pub require_one_row : Bool → Db → Db → Result Db
require_one_row true old new = ok new
require_one_row false old new = err (record { kind = no_such_row; message = "no such media item" })

abbrev pub has_key : String → List Row → Bool
has_key key = exists (λ r. r.media_key == key)

abbrev pub set_where_key : String → (Row → Row) → Db → Db
set_where_key key f db = record db {
  media_items = update (λ r. r.media_key == key) f db.media_items;
}

abbrev pub state_set : State → Row → Row
state_set state r = record r { state = unless_written_off r.state state }

unfoldable pub set_item_state : String → State → Db → Result Db
set_item_state key state db =
    require_one_row (has_key key db.media_items) db (set_where_key key (state_set state) db)

abbrev pub downloaded_row : MediaItem → ℕ → Row → Row
downloaded_row item at r = record r {
  state = unless_written_off r.state done;
  local_path = some item.local_path;
  size_bytes = some item.size_bytes;
  sha256 = null_empty item.sha256;
  filename = item.filename;
  downloaded_at = some at;
  fail_count = 0;
  last_error = none;
}

unfoldable pub mark_downloaded : MediaItem → ℕ → Db → Result Db
mark_downloaded item at db =
    require_one_row (has_key item.media_key db.media_items) db
      (set_where_key item.media_key (downloaded_row item at) db)

abbrev pub failed_row : String → Row → Row
failed_row cause r = record r {
  state = unless_written_off r.state failed;
  fail_count = r.fail_count + 1;
  last_error = some cause;
}

unfoldable pub mark_failed : String → String → Db → Result Db
mark_failed key cause db =
    require_one_row (has_key key db.media_items) db (set_where_key key (failed_row cause) db)

-- sameBytesCopy and sameNameCopy: `copy` holds the same photograph as `r`.
unfoldable pub same_bytes_copy : Row → Row → Bool
same_bytes_copy r copy =
    sql_eq copy.sha256 r.sha256
    && is_some r.sha256
    && not (copy.media_key == r.media_key)
    && copy.state == done

-- `>=` in SQL: NULL compares with nothing.
abbrev pub sql_ge : Option ℕ → Option ℕ → Bool
sql_ge (some a) (some b) = leb b a
sql_ge none _ = false
sql_ge (some a) none = false

unfoldable pub same_name_copy : Row → Row → Bool
same_name_copy r copy =
    copy.filename == r.filename
    && sql_eq copy.captured_at r.captured_at
    && sql_ge copy.size_bytes r.size_bytes
    && not (r.filename == "")
    && not (copy.media_key == r.media_key)
    && copy.state == done

-- reviewUnlessACopyRemains, against the table as the statement reads it.
unfoldable pub review_unless_a_copy_remains : List Row → Row → Bool
unfolding same_bytes_copy same_name_copy
review_unless_a_copy_remains table r =
    not (exists (same_bytes_copy r) table || exists (same_name_copy r) table)

abbrev pub written_off : List Row → ℕ → Row → Row
written_off table at r = record r {
  state = missing_upstream;
  missing_since = some at;
  needs_review = review_unless_a_copy_remains table r;
}

unfoldable pub mark_missing_upstream : String → ℕ → Db → Db
mark_missing_upstream key at db = record db {
  media_items =
      update (λ r. r.media_key == key && not (is_some r.missing_since))
        (written_off db.media_items at) db.media_items;
}
