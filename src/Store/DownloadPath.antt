-- ===== src/Store/DownloadPath.antt =====
-- The writes of the download path (SetItemState, MarkDownloaded, MarkFailed,
-- internal/store/items.go): what they leave of a row, and what becomes of it on the work list.
use mathlib.Core.Option
use gpb.Errors.{no_such_row, Result, ok, err, Failure, ◌>>=◌}
use gpb.Common.{
  ℕ, ◌≡◌, refl, sym, none, some, List, [], ◌∷◌, String, arith, ◌==◌, ==_iff, ==_refl, string_eq,
  if◌then◌else◌, is_some, find-update, is_some-find,
}
use gpb.Store.Rows.{State, missing_upstream, state_eq, Row, MediaItem, Db}
use gpb.Store.Items.{
  set_item_state, mark_downloaded, mark_failed, state_set, downloaded_row, failed_row, has_key,
  require_one_row, set_where_key,
}
use gpb.Store.Upsert.{row_of}

-- The three statements, as one: a function on the row of a key, refused where there is none.
pub data Write : Type 0 where
  sets : State → Write
  downloads : MediaItem → ℕ → Write
  fails : String → Write

abbrev pub rewritten : Write → Row → Row
rewritten (sets s) = state_set s
rewritten (downloads item at) = downloaded_row item at
rewritten (fails cause) = failed_row cause

-- The call that makes the write to the row of a key.
abbrev pub write : String → Write → Db → Result Db
write key (sets s) db = set_item_state key s db
write key (downloads item at) db = mark_downloaded (record item { media_key = key }) at db
write key (fails cause) db = mark_failed key cause db

pub row_of-set_where_key :
    (key other : String) (f : Row → Row) (db : Db)
    → ((r : Row) → (f r).media_key ≡ r.media_key)
    → row_of other (set_where_key key f db)
      ≡ (if key == other then Option.map f (row_of other db) else row_of other db)
row_of-set_where_key key other f db h =
    find-update (λ (r : Row). r.media_key) key other f db.media_items h

write-eq :
    (key : String) (w : Write) (db : Db)
    → write key w db
      ≡ require_one_row (has_key key db.media_items) db (set_where_key key (rewritten w) db)
unfolding set_item_state mark_downloaded mark_failed
write-eq key (sets s) db = refl
write-eq key (downloads item at) db = refl
write-eq key (fails cause) db = refl

rewritten-key : (w : Write) (r : Row) → (rewritten w r).media_key ≡ r.media_key
rewritten-key (sets s) r = refl
rewritten-key (downloads item at) r = refl
rewritten-key (fails cause) r = refl

has_key_row : (key : String) (db : Db) → has_key key db.media_items ≡ is_some (row_of key db)
has_key_row key db = sym (is_some-find (λ r. r.media_key == key) db.media_items)

write-none :
    (key : String) (w : Write) (db : Db)
    → row_of key db ≡ none
    → (e : Failure) × (write key w db ≡ err e)
write-none key w db h = (
  record { kind = no_such_row; message = "no such media item" },
  rw (write-eq key w db, has_key_row key db, h) refl,
)

-- A write of the download path to a key that has a row rewrites that row alone.
pub write-some :
    (key : String) (w : Write) (db : Db) (r : Row)
    → row_of key db ≡ some r
    → (after : Db) × (write key w db ≡ ok after)
      × ((other : String)
          → row_of other after ≡ (if key == other then some (rewritten w r) else row_of other db))
write-some key w db r h = (
  set_where_key key (rewritten w) db,
  rw (write-eq key w db, has_key_row key db, h) refl,
  (λ other. ground (
    arith,
    row_of-set_where_key key other (rewritten w) db (rewritten-key w),
    ==_iff key other,
    h,
  )),
)

-- Several writes to one key, in the order of the list.
unfoldable pub write_all : String → List Write → Db → Result Db
write_all key [] db = ok db
write_all key (w ∷ ws) db = write key w db >>= write_all key ws

abbrev rewritten_all : List Write → Row → Row
rewritten_all [] r = r
rewritten_all (w ∷ ws) r = rewritten_all ws (rewritten w r)

write_all-some :
    (key : String) (ws : List Write) (db : Db) (r : Row)
    → row_of key db ≡ some r
    → (after : Db) × (write_all key ws db ≡ ok after)
      × (row_of key after ≡ some (rewritten_all ws r))
unfolding write_all
write_all-some key [] db r h = (db, refl, h)
write_all-some key (w ∷ ws) db r h =
    let (mid, e, rows) = write-some key w db r h in
    let found : row_of key mid ≡ some (rewritten w r) = ground (arith, rows key, ==_refl key) in
    let (after, e', found') = write_all-some key ws mid (rewritten w r) found in
    (after, rw e e', found')

still_written_off :
    (ws : List Write) (r : Row)
    → r.state ≡ missing_upstream
    → ((rewritten_all ws r).state ≡ missing_upstream)
      × ((rewritten_all ws r).missing_since ≡ r.missing_since)
      × ((rewritten_all ws r).needs_review ≡ r.needs_review)
still_written_off [] r h = (h, refl, refl)
still_written_off (sets s ∷ ws) r h = still_written_off ws (state_set s r) (ground arith)
still_written_off (downloads item at ∷ ws) r h =
    still_written_off ws (downloaded_row item at r) (ground arith)
still_written_off (fails cause ∷ ws) r h = still_written_off ws (failed_row cause r) (ground arith)

-- However the download path writes to an item that a listing has written off, it stays written off,
-- with its date and its review flag.
pub write_all-written_off :
    (key : String) (ws : List Write) (db : Db) (r : Row)
    → row_of key db ≡ some r
    → r.state ≡ missing_upstream
    → (after : Db) × (r' : Row) × (write_all key ws db ≡ ok after)
      × (row_of key after ≡ some r')
      × (r'.state ≡ missing_upstream)
      × (r'.missing_since ≡ r.missing_since)
      × (r'.needs_review ≡ r.needs_review)
write_all-written_off key ws db r h m =
    let (after, e, found) = write_all-some key ws db r h in
    let (s, d, n) = still_written_off ws r m in (after, rewritten_all ws r, e, found, s, d, n)
