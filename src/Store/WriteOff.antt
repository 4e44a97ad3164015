-- ===== src/Store/WriteOff.antt =====
-- What a completed listing writes off, and which memberships it drops (Reconcile,
-- internal/store/items.go), over all of its chunks.
use gpb.Common.{
  ℕ, ◌≡◌, refl, sym, ◌∙◌, Bool, true, false, ◌&&◌, ◌||◌, not, none, List, [], ◌∷◌, map, String,
  arith, ◌==◌, ==_iff, string_eq, nat_eq, is_some, exists, exists-reading, exists_or, exists_and,
  exists-delete_all, map-update_reading, contains, contains_chunk, contains-chunk, chunk, length,
}
use gpb.Store.Rows.{done, missing_upstream, state_eq, Row, Link, Db}
use gpb.Store.Items.{written_off}
use gpb.Store.Membership.{
  reconcile, reconcile_chunk, reconcile_chunks, is_gone, has_left, listed_elsewhere,
  departure_chunk,
}

-- The item of this key is written off.
abbrev pub is_missing : String → Db → Bool
is_missing key db = exists (λ r. r.state == missing_upstream && r.media_key == key) db.media_items

-- It has a row with no date of disappearance.
abbrev pub is_undated : String → Db → Bool
is_undated key db = exists (λ r. not (is_some r.missing_since) && r.media_key == key) db.media_items

abbrev pub is_member : String → String → Db → Bool
is_member album_id key db =
    exists (λ l. l.album_id == album_id && l.media_key == key) db.album_items

-- A row without the three columns that a write-off sets.
abbrev pub kept_of : Row → Row
kept_of r = record r { state = done; missing_since = none; needs_review = false }

module _ (album_id : String) (at : ℕ) (key : String) where
  listed_elsewhere-chunk :
      (keys : List String) (db : Db)
      → listed_elsewhere album_id (reconcile_chunk album_id at keys db).album_items key
        ≡ listed_elsewhere album_id db.album_items key
  unfolding reconcile_chunk has_left listed_elsewhere
  listed_elsewhere-chunk keys db =
      exists-delete_all (λ l. l.media_key == key && not (l.album_id == album_id)) _ false
        db.album_items (λ l h. ground arith)
      ∙ ground arith

  abbrev departs : List String → Db → Bool
  departs keys db = contains key keys && not (listed_elsewhere album_id db.album_items key)

  is_gone-departs :
      (keys : List String) (db : Db) (r : Row)
      → (r.media_key == key) ≡ true
      → is_gone album_id keys db.album_items r ≡ (not (is_some r.missing_since) && departs keys db)
  unfolding is_gone
  is_gone-departs keys db r h =
      let e : r.media_key ≡ key = (==_iff r.media_key key).0 h in rw e (ground arith)

  is_missing-chunk :
      (keys : List String) (db : Db)
      → is_missing key (reconcile_chunk album_id at keys db)
        ≡ (is_missing key db || departs keys db && is_undated key db)
  unfolding reconcile_chunk
  is_missing-chunk keys db =
      exists-reading (λ r. r.state == missing_upstream && r.media_key == key)
        (is_gone album_id keys db.album_items) (λ r. r.media_key == key)
        (λ table. written_off table at) [] db.media_items (λ t r. refl)
      ∙ exists_or _ (λ r. r.state == missing_upstream && r.media_key == key)
          (λ r. not (is_some r.missing_since) && r.media_key == key) (departs keys db)
          db.media_items (λ r. ground (arith, is_gone-departs keys db r))

  is_undated-chunk :
      (keys : List String) (db : Db)
      → is_undated key (reconcile_chunk album_id at keys db)
        ≡ (is_undated key db && not (departs keys db))
  unfolding reconcile_chunk
  is_undated-chunk keys db =
      exists-reading (λ r. not (is_some r.missing_since) && r.media_key == key)
        (is_gone album_id keys db.album_items) (λ r. false) (λ table. written_off table at) []
        db.media_items (λ t r. refl)
      ∙ exists_and _ (λ r. not (is_some r.missing_since) && r.media_key == key)
          (not (departs keys db)) db.media_items (λ r. ground (arith, is_gone-departs keys db r))

  abbrev drops : String → Bool → Bool → Bool
  drops a departed missing = a == album_id && departed && not missing

  has_left-drops :
      (keys : List String) (db : Db) (a : String) (l : Link)
      → (l.album_id == a && l.media_key == key) ≡ true
      → has_left album_id keys (reconcile_chunk album_id at keys db).media_items l
        ≡ drops a (contains key keys) (is_missing key (reconcile_chunk album_id at keys db))
  unfolding has_left
  has_left-drops keys db a l h =
      let e : l.media_key ≡ key = ground (arith, ==_iff l.media_key key) in
      let f : l.album_id ≡ a = ground (arith, ==_iff l.album_id a) in rw (e, f) (ground arith)

  is_member-chunk :
      (keys : List String) (db : Db) (a : String)
      → is_member a key (reconcile_chunk album_id at keys db) ≡ (
          is_member a key db
          && not
              (drops a (contains key keys) (is_missing key (reconcile_chunk album_id at keys db))))
  unfolding reconcile_chunk
  is_member-chunk keys db a =
      exists-delete_all (λ l. l.album_id == a && l.media_key == key)
        (has_left album_id keys (reconcile_chunk album_id at keys db).media_items)
        (drops a (contains key keys) (is_missing key (reconcile_chunk album_id at keys db)))
        db.album_items (has_left-drops keys db a)

  abbrev after_chunks : List (List String) → Db → (ℕ × ℕ) → Db
  after_chunks chunks db counts = (reconcile_chunks album_id at chunks db counts).0

  is_missing-chunks :
      (chunks : List (List String)) (db : Db) (counts : ℕ × ℕ)
      → is_missing key (after_chunks chunks db counts) ≡ (
          is_missing key db
          || (contains_chunk key chunks && not (listed_elsewhere album_id db.album_items key))
            && is_undated key db)
  unfolding reconcile_chunks
  is_missing-chunks [] db counts = ground arith
  is_missing-chunks (keys ∷ rest) db counts =
      is_missing-chunks rest (reconcile_chunk album_id at keys db) _
      ∙ rw (listed_elsewhere-chunk keys db, is_missing-chunk keys db, is_undated-chunk keys db)
          (ground arith)

  is_member-chunks :
      (chunks : List (List String)) (db : Db) (counts : ℕ × ℕ) (a : String)
      → is_member a key (after_chunks chunks db counts) ≡ (
          is_member a key db
          && not (
              drops a (contains_chunk key chunks) (is_missing key (after_chunks chunks db counts))))
  unfolding reconcile_chunks
  is_member-chunks [] db counts a = ground arith
  is_member-chunks (keys ∷ rest) db counts a =
      is_member-chunks rest (reconcile_chunk album_id at keys db) _ a
      ∙ rw
          (
            is_missing-chunks rest (reconcile_chunk album_id at keys db) _,
            is_member-chunk keys db a,
            listed_elsewhere-chunk keys db,
            is_missing-chunk keys db,
            is_undated-chunk keys db,
          )
          (ground arith)

kept-chunks :
    (album_id : String) (at : ℕ) (chunks : List (List String)) (db : Db) (counts : ℕ × ℕ)
    → map kept_of (reconcile_chunks album_id at chunks db counts).0.media_items
      ≡ map kept_of db.media_items
unfolding reconcile_chunks reconcile_chunk
kept-chunks album_id at [] db counts = refl
kept-chunks album_id at (keys ∷ rest) db counts =
    kept-chunks album_id at rest (reconcile_chunk album_id at keys db) _
    ∙ map-update_reading kept_of (is_gone album_id keys db.album_items)
        (λ table. written_off table at) [] db.media_items (λ t r. refl)

-- A listing writes off an item exactly if it departed, was not written off before and is a member of
-- no other album. It takes the item out of the listed album exactly if it departed and is not
-- written off now; every other membership stays. No row is lost, and of the rows nothing changes but
-- the state, the date of disappearance and the review flag.
pub reconcile_lem :
    (album_id : String) (departed : List String) (at : ℕ) (key : String) (db : Db)
    → (is_missing key (reconcile album_id departed at db).0 ≡ (
        is_missing key db
        || (contains key departed && not (listed_elsewhere album_id db.album_items key))
          && is_undated key db))
      × ((a : String)
          → is_member a key (reconcile album_id departed at db).0 ≡ (
              is_member a key db
              && not (
                  a == album_id
                  && contains key departed
                  && not (is_missing key (reconcile album_id departed at db).0))))
      × (map kept_of (reconcile album_id departed at db).0.media_items ≡ map kept_of db.media_items)
unfolding reconcile
reconcile_lem album_id [] at key db = (ground arith, (λ a. ground arith), refl)
reconcile_lem album_id (d ∷ departed) at key db = (
  rw (sym all) (is_missing-chunks album_id at key chunks db (0, 0)),
  (λ a. rw (sym all) (is_member-chunks album_id at key chunks db (0, 0) a)),
  kept-chunks album_id at chunks db (0, 0),
)
  where
    chunks : List (List String)
    chunks = chunk (length (d ∷ departed)) departure_chunk (d ∷ departed)

    all : contains_chunk key chunks ≡ contains key (d ∷ departed)
    all =
        contains-chunk key (length (d ∷ departed)) departure_chunk (d ∷ departed) (omega arith)
          (omega arith)
