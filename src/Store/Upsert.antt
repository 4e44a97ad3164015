-- ===== src/Store/Upsert.antt =====
-- What a re-listing (UpsertItem, internal/store/items.go) does to the row of an item.
use gpb.Common.{
  ℕ, ◌≡◌, refl, ap, inl, inr, Bool, ◌&&◌, not, Option, none, some, [], ◌∷◌, String, arith, ◌==◌,
  ==_iff, ==_refl, string_eq, if◌then◌else◌, is_some, exists, find, find-update, find-append,
  is_some-find, exists-update, exists-append, update_none, update-append, update_idem, Bool-cases,
  sql_is_iff, nat_eq,
}
use gpb.Store.Rows.{
  discovered, done, missing_upstream, state_eq, Row, MediaItem, Db, nullable_time, null_empty,
}
use gpb.Store.Items.{upsert_item, upsert_row, new_row}

-- The row of a key.
abbrev pub row_of : String → Db → Option Row
row_of key db = find (λ r. r.media_key == key) db.media_items

abbrev pub upserted : MediaItem → ℕ → Option Row → Row
upserted item at none = new_row item at
upserted item at (some r) = upsert_row item r

upsert_row-key : (item : MediaItem) (r : Row) → (upsert_row item r).media_key ≡ r.media_key
unfolding upsert_item
upsert_row-key item r = ground arith

-- A listing inserts the item where its key has no row, rewrites its own row where it has one, and
-- touches the row of no other key.
pub row_of-upsert_item :
    (item : MediaItem) (at : ℕ) (key : String) (db : Db)
    → row_of key (upsert_item item at db)
      ≡ (if item.media_key == key then some (upserted item at (row_of key db)) else row_of key db)
unfolding upsert_item
row_of-upsert_item item at key db = ground (
  arith,
  is_some-find (λ (r : Row). r.media_key == item.media_key) db.media_items,
  is_some-find (λ (r : Row). r.media_key == key) db.media_items,
  find-update (λ (r : Row). r.media_key) item.media_key key (upsert_row item) db.media_items
      (upsert_row-key item),
  find-append (λ (r : Row). r.media_key == key) db.media_items (new_row item at ∷ []),
  ==_iff item.media_key key,
)

-- The columns that the download path owns.
pub record SameDownload (r r' : Row) : Type 0 where
  pub filename : r'.filename ≡ r.filename
  pub size_bytes : r'.size_bytes ≡ r.size_bytes
  pub sha256 : r'.sha256 ≡ r.sha256
  pub fail_count : r'.fail_count ≡ r.fail_count
  pub last_error : r'.last_error ≡ r.last_error
  pub local_path : r'.local_path ≡ r.local_path
  pub first_seen_at : r'.first_seen_at ≡ r.first_seen_at
  pub downloaded_at : r'.downloaded_at ≡ r.downloaded_at

-- A re-listing of a known item keeps every column of the download path, takes over what the listing
-- says, and clears the date of disappearance; it keeps the state and the review flag, but for a
-- written-off item, which returns to `done` if it has a file and to `discovered` if it has none, with
-- no question left to ask.
pub upsert_item-known :
    (item : MediaItem) (at : ℕ) (db : Db) (r : Row)
    → row_of item.media_key db ≡ some r
    → (r' : Row) × (row_of item.media_key (upsert_item item at db) ≡ some r')
      × SameDownload r r'
      × (r'.captured_at ≡ nullable_time item.captured_at)
      × (r'.thumbnail_url ≡ null_empty item.thumbnail_url)
      × (r'.is_video ≡ item.is_video)
      × (r'.missing_since ≡ none)
      × (r'.state ≡ (
          if r.state == missing_upstream
          then if is_some r.local_path then done else discovered
          else r.state))
      × (r'.needs_review ≡ (r.needs_review && not (r.state == missing_upstream)))
unfolding upsert_item
upsert_item-known item at db r h = (
  upsert_row item r,
  rw (row_of-upsert_item item at item.media_key db, ==_refl item.media_key, h) refl,
  ground arith,
  ground (arith, sql_is_iff r.captured_at (nullable_time item.captured_at)),
  ground (arith, sql_is_iff r.thumbnail_url (null_empty item.thumbnail_url)),
  ground arith,
  ground arith,
  ground arith,
  ground arith,
)

upsert_row_idem :
    (item : MediaItem) (r : Row) → upsert_row item (upsert_row item r) ≡ upsert_row item r
unfolding upsert_item
upsert_row_idem item r = ground (
  arith,
  sql_is_iff (nullable_time item.captured_at) (nullable_time item.captured_at),
  sql_is_iff (null_empty item.thumbnail_url) (null_empty item.thumbnail_url),
)

upsert_new_row :
    (item : MediaItem) (at later : ℕ) → upsert_row item (new_row item at) ≡ new_row item at
unfolding upsert_item
upsert_new_row item at later = ground (
  arith,
  sql_is_iff (nullable_time item.captured_at) (nullable_time item.captured_at),
  sql_is_iff (null_empty item.thumbnail_url) (null_empty item.thumbnail_url),
)

-- Listing the same thing again, at any later time, changes nothing in the tables.
pub upsert_item_idem :
    (item : MediaItem) (at later : ℕ) (db : Db)
    → upsert_item item later (upsert_item item at db) ≡ upsert_item item at db
unfolding upsert_item
upsert_item_idem item at later db = elim (Bool-cases (exists hit db.media_items)) [
  | inl old ↦ ground (
    arith,
    old,
    exists-update hit hit (upsert_row item) db.media_items same,
    update_idem hit (upsert_row item) db.media_items (upsert_row_idem item) same,
  )
  | inr new ↦ ground (
    arith,
    new,
    exists-append hit db.media_items (new_row item at ∷ []),
    update-append hit (upsert_row item) db.media_items (new_row item at ∷ []),
    update_none hit (upsert_row item) db.media_items,
    upsert_new_row item at later,
    ==_refl item.media_key,
  )
]
  where
    hit : Row → Bool
    hit r = r.media_key == item.media_key

    same : (r : Row) → hit (upsert_row item r) ≡ hit r
    same r = ap (λ k. k == item.media_key) (upsert_row-key item r)
