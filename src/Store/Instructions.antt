-- ===== src/Store/Instructions.antt =====
-- What the user decides about an album, and what a listing or a setting leaves of it
-- (internal/store/albums.go).
use mathlib.Core.Option
use mathlib.Core.List.{Perm}
use gpb.Errors.{ok}
use gpb.Common.{
  ℕ, ◌+◌, ◌≤◌, ◌≡◌, ◌≢◌, refl, Bool, true, ◌&&◌, Option, none, some, List, [], ◌∷◌, map, String,
  arith, ◌==◌, ==_iff, string_eq, nat_eq, if◌then◌else◌, find, find-update, find-append,
  is_some-find, select, sort_by, sort_by-perm, All, All-map, All-sort_by, All-select,
  sort_by-IsOrdered_comparison, IsOrdered, reversed-compare, reversed-compare_bool, reversed, count,
  sql_is,
}
use gpb.Store.Rows.{
  done, failed, missing_upstream, state_eq, sync_none, mode_eq, mode_beq_iff, Row, AlbumRow, Album,
  Db, library_id, nullable_time, scan_album,
}
use gpb.Store.Albums.{
  upsert_album, upsert_album_row, new_album_row, set_library, library_instruction,
  LibraryInstruction, instructed, album, followed_albums, followed_order, is_followed, album_stats,
  in_album, is_pending, asks_a_question, coalesce, set_where_id,
}

abbrev pub album_row : String → Db → Option AlbumRow
album_row id db = find (λ a. a.id == id) db.albums

abbrev pub upserted_album : Album → ℕ → Option AlbumRow → AlbumRow
upserted_album a seen none = new_album_row a seen
upserted_album a seen (some r) = upsert_album_row a seen r

-- The columns that only the user's instructions and the walks write.
pub record SameDecisions (a a' : AlbumRow) : Type 0 where
  pub sync_mode : a'.sync_mode ≡ a.sync_mode
  pub is_favourite : a'.is_favourite ≡ a.is_favourite
  pub since_date : a'.since_date ≡ a.since_date
  pub new_only : a'.new_only ≡ a.new_only
  pub weekly_full_walk : a'.weekly_full_walk ≡ a.weekly_full_walk
  pub walked_in_full_at : a'.walked_in_full_at ≡ a.walked_in_full_at
  pub first_seen_at : a'.first_seen_at ≡ a.first_seen_at
  pub last_synced_at : a'.last_synced_at ≡ a.last_synced_at

album_row-upsert_album :
    (listed : Album) (seen : ℕ) (id : String) (db : Db)
    → album_row id (upsert_album listed seen db) ≡ (
        if listed.id == id
        then some (upserted_album listed seen (album_row id db))
        else album_row id db)
unfolding upsert_album
album_row-upsert_album listed seen id db = ground (
  arith,
  is_some-find (λ (a : AlbumRow). a.id == listed.id) db.albums,
  is_some-find (λ (a : AlbumRow). a.id == id) db.albums,
  find-update (λ (a : AlbumRow). a.id) listed.id id (upsert_album_row listed seen) db.albums
      (λ a. refl),
  find-append (λ (a : AlbumRow). a.id == id) db.albums (new_album_row listed seen ∷ []),
  ==_iff listed.id id,
)

-- A listing of a known album leaves everything the user decided about it and every date of a walk as
-- they were and dates its last sighting; a creation date that it does not carry is kept, and no
-- other album changes.
pub upsert_album_lem :
    (listed : Album) (seen : ℕ) (db : Db) (a : AlbumRow)
    → album_row listed.id db ≡ some a
    → (a' : AlbumRow) × SameDecisions a a'
      × (a'.last_seen_at ≡ seen)
      × (a'.created_at ≡ coalesce (nullable_time listed.created_at) a.created_at)
      × ((id : String)
          → album_row id (upsert_album listed seen db)
            ≡ (if listed.id == id then some a' else album_row id db))
unfolding upsert_album
upsert_album_lem listed seen db a h = (
  upsert_album_row listed seen a,
  record {
    sync_mode = refl;
    is_favourite = refl;
    since_date = refl;
    new_only = refl;
    weekly_full_walk = refl;
    walked_in_full_at = refl;
    first_seen_at = refl;
    last_synced_at = refl;
  },
  refl,
  refl,
  (λ id. ground (arith, album_row-upsert_album listed seen id db, ==_iff listed.id id, h)),
)

album-row :
    (id : String) (db : Db) (a : AlbumRow)
    → album_row id db ≡ some a
    → album id db ≡ ok (scan_album a)
unfolding album
album-row id db a h = rw h refl

-- Saving an instruction for the library and reading it back gives it again. The date of the last
-- whole walk outlives the save exactly where neither the mode nor the date bound has changed.
pub set_library_lem :
    (i : LibraryInstruction) (db : Db) (a : AlbumRow)
    → album_row library_id db ≡ some a
    → (after : Db) × (a' : Album) × (set_library i db ≡ ok after)
      × (album library_id after ≡ ok a')
      × (library_instruction a' ≡ i)
      × (a'.walked_in_full_at ≡ (
          if a.sync_mode == i.mode && sql_is a.since_date (nullable_time i.since)
          then (scan_album a).walked_in_full_at
          else 0))
unfolding set_library library_instruction scan_album
set_library_lem i db a h = (
  set_where_id library_id (instructed i) db,
  scan_album (instructed i a),
  ground (arith, is_some-find (λ (x : AlbumRow). x.id == library_id) db.albums),
  album-row library_id _ (instructed i a) (rw (found, h) refl),
  ground arith,
  ground arith,
)
  where
    found : album_row library_id (set_where_id library_id (instructed i) db) ≡ (
        if library_id == library_id
        then Option.map (instructed i) (album_row library_id db)
        else album_row library_id db)
    found =
        find-update (λ (x : AlbumRow). x.id) library_id library_id (instructed i) db.albums
          (λ x. refl)

followed_order-reversed : (a b : AlbumRow) → followed_order b a ≡ reversed (followed_order a b)
unfolding followed_order
followed_order-reversed a b = ground (
  arith,
  reversed-compare_bool a.is_favourite b.is_favourite,
  reversed-compare a.title b.title,
  reversed-compare a.id b.id,
)

-- A run walks each followed album once and never the library, favourites first, then by title and id.
pub followed_albums_lem :
    (db : Db)
    → (rows : List AlbumRow) × (followed_albums db ≡ map scan_album rows)
      × Perm rows (select is_followed db.albums)
      × All (λ a. (a.sync_mode ≢ sync_none) × (a.id ≢ library_id)) rows
      × IsOrdered followed_order rows
unfolding followed_albums
followed_albums_lem db = (
  sort_by followed_order chosen,
  refl,
  sort_by-perm followed_order chosen,
  All-sort_by followed_order _ chosen
      (All-map _ _ chosen meaning (All-select is_followed db.albums)),
  sort_by-IsOrdered_comparison followed_order chosen followed_order-reversed,
)
  where
    chosen : List AlbumRow
    chosen = select is_followed db.albums

    meaning :
        (a : AlbumRow) → is_followed a ≡ true → (a.sync_mode ≢ sync_none) × (a.id ≢ library_id)
    meaning a h =
        (ground (arith, mode_beq_iff a.sync_mode sync_none), ground (arith, ==_iff a.id library_id))

counts-split :
    (q : Row → Bool) (rows : List Row)
    → count q rows
      ≡ count (λ r. q r && r.state == done) rows
        + count (λ r. q r && is_pending r.state) rows
        + count (λ r. q r && r.state == failed) rows
        + count (λ r. q r && r.state == missing_upstream) rows
counts-split q [] = omega arith
counts-split q (r ∷ rows) = ground (arith, counts-split q rows)

asked-le :
    (q : Row → Bool) (rows : List Row)
    → count (λ r. q r && asks_a_question r) rows
      ≤ count (λ r. q r && is_pending r.state) rows
        + count (λ r. q r && r.state == missing_upstream) rows
asked-le q [] = omega arith
asked-le q (r ∷ rows) = ground (arith, asked-le q rows)

-- Each known item of an album is counted under exactly one of done, pending, failed and missing, and
-- only pending and missing ones can wait for a decision.
pub album_stats_lem :
    (id : String) (db : Db)
    → let s = album_stats id db in
      (s.known ≡ s.done + s.pending + s.failed + s.missing)
      × (s.needs_review ≤ s.pending + s.missing)
unfolding album_stats
album_stats_lem id db =
    (counts-split (in_album db id) db.media_items, asked-le (in_album db id) db.media_items)
