-- ===== src/Store/WellFormed.antt =====
-- What each statement of internal/store keeps of the tables: the primary keys, and that exactly the
-- written-off items carry the date on which they were first found missing.
use gpb.Errors.{ok}
use gpb.Common.{
  chunk, length, ℕ, ◌≡◌, ◌≢◌, refl, ap, subst, inl, inr, Bool, true, false, ◌&&◌, not, List, [],
  ◌∷◌, ◌++◌, String, arith, ◌==◌, ==_iff, string_eq, is_some, exists, All, All-append, All-update,
  All-update_reading, All-delete, IsUnique, IsUnique-append_new, IsUnique-update,
  IsUnique-update_reading, IsUnique-delete, Bool-cases, update,
}
use gpb.Store.Rows.{State, missing_upstream, state_eq, Row, MediaItem, Link, AlbumRow, Album, Db}
use gpb.Store.Items.{
  new_row, upsert_row, state_set, downloaded_row, failed_row, written_off, has_key, require_one_row,
  upsert_item, set_item_state, mark_downloaded, mark_failed, mark_missing_upstream,
}
use gpb.Store.Membership.{
  departure_chunk, link_item_to_album, select_item, reconcile, reconcile_chunk, reconcile_chunks,
}
use gpb.Store.Albums.{require_album, upsert_album}
use gpb.Store.Review.{set_review, flag_for_review}
use gpb.Store.Twins.{forget}

abbrev pub same_item : Row → Row → Bool
same_item a b = b.media_key == a.media_key

abbrev pub same_link : Link → Link → Bool
same_link a b = b.album_id == a.album_id && b.media_key == a.media_key

-- `missing_since` is set exactly in the state missing_upstream.
abbrev pub IsDated : Row → Type 0
IsDated r = (r.state == missing_upstream) ≡ is_some r.missing_since

pub record IsWellFormed (db : Db) : Type 0 where
  pub items : IsUnique same_item db.media_items
  pub links : IsUnique same_link db.album_items
  pub dated : All IsDated db.media_items

pub same_item_comm : (a b : Row) → same_item a b ≡ same_item b a
same_item_comm a b = ground (arith, ==_iff a.media_key b.media_key, ==_iff b.media_key a.media_key)

pub same_link_comm : (a b : Link) → same_link a b ≡ same_link b a
same_link_comm a b = ground (
  arith,
  ==_iff a.media_key b.media_key,
  ==_iff b.media_key a.media_key,
  ==_iff a.album_id b.album_id,
  ==_iff b.album_id a.album_id,
)

-- A statement that rewrites rows keeps the tables well formed if it keeps each key and each date.
pub update-IsWellFormed :
    (p : Row → Bool) (f : Row → Row) (db : Db)
    → ((r : Row) → (f r).media_key ≡ r.media_key)
    → ((r : Row) → p r ≡ true → IsDated r → IsDated (f r))
    → IsWellFormed db
    → IsWellFormed (record db { media_items = update p f db.media_items })
update-IsWellFormed p f db key dated w = record {
  items =
      IsUnique-update same_item p f db.media_items (λ a b. ap (λ k. b.media_key == k) (key a))
        (λ a b. ap (λ k. k == a.media_key) (key b)) w.items;
  links = w.links;
  dated = All-update IsDated p f db.media_items dated w.dated;
}

pub insert-IsWellFormed :
    (r : Row) (db : Db)
    → exists (λ x. x.media_key == r.media_key) db.media_items ≡ false
    → IsDated r
    → IsWellFormed db
    → IsWellFormed (record db { media_items = db.media_items ++ r ∷ [] })
insert-IsWellFormed r db new d w = record {
  items = IsUnique-append_new same_item db.media_items r same_item_comm new w.items;
  links = w.links;
  dated = All-append IsDated db.media_items (r ∷ []) w.dated (d, tt);
}

pub upsert_row-key : (item : MediaItem) (r : Row) → (upsert_row item r).media_key ≡ r.media_key
unfolding upsert_item
upsert_row-key item r = ground arith

pub upsert_row-IsDated : (item : MediaItem) (r : Row) → IsDated r → IsDated (upsert_row item r)
unfolding upsert_item
upsert_row-IsDated item r d = ground arith

pub upsert_item-IsWellFormed :
    (item : MediaItem) (at : ℕ) (db : Db) → IsWellFormed db → IsWellFormed (upsert_item item at db)
unfolding upsert_item
upsert_item-IsWellFormed item at db w =
    elim (Bool-cases (exists (λ r. r.media_key == item.media_key) db.media_items)) [
      | inl old ↦ rw old (
          update-IsWellFormed (λ r. r.media_key == item.media_key) (upsert_row item) db
            (upsert_row-key item) (λ r _. upsert_row-IsDated item r) w)
      | inr new ↦ rw new (insert-IsWellFormed (new_row item at) db new refl w)
    ]

pub require_one_row-ok :
    (found : Bool) (old new : Db) {after : Db}
    → require_one_row found old new ≡ ok after
    → new ≡ after
require_one_row-ok found old new h = ground arith

pub set_item_state-IsWellFormed :
    (key : String) (s : State) (db : Db) {after : Db}
    → s ≢ missing_upstream
    → set_item_state key s db ≡ ok after
    → IsWellFormed db
    → IsWellFormed after
unfolding set_item_state
set_item_state-IsWellFormed key s db live h w =
    subst IsWellFormed (require_one_row-ok (has_key key db.media_items) db _ h) (
      update-IsWellFormed (λ r. r.media_key == key) (state_set s) db (λ r. refl)
        (λ r _ d. ground arith) w)

pub mark_downloaded-IsWellFormed :
    (item : MediaItem) (at : ℕ) (db : Db) {after : Db}
    → mark_downloaded item at db ≡ ok after
    → IsWellFormed db
    → IsWellFormed after
unfolding mark_downloaded
mark_downloaded-IsWellFormed item at db h w =
    subst IsWellFormed (require_one_row-ok (has_key item.media_key db.media_items) db _ h) (
      update-IsWellFormed (λ r. r.media_key == item.media_key) (downloaded_row item at) db
        (λ r. refl) (λ r _ d. ground arith) w)

pub mark_failed-IsWellFormed :
    (key cause : String) (db : Db) {after : Db}
    → mark_failed key cause db ≡ ok after
    → IsWellFormed db
    → IsWellFormed after
unfolding mark_failed
mark_failed-IsWellFormed key cause db h w =
    subst IsWellFormed (require_one_row-ok (has_key key db.media_items) db _ h) (
      update-IsWellFormed (λ r. r.media_key == key) (failed_row cause) db (λ r. refl)
        (λ r _ d. ground arith) w)

pub mark_missing_upstream-IsWellFormed :
    (key : String) (at : ℕ) (db : Db)
    → IsWellFormed db
    → IsWellFormed (mark_missing_upstream key at db)
unfolding mark_missing_upstream
mark_missing_upstream-IsWellFormed key at db =
    update-IsWellFormed (λ r. r.media_key == key && not (is_some r.missing_since))
      (written_off db.media_items at) db (λ r. refl) (λ r _ d. refl)

pub link_item_to_album-IsWellFormed :
    (album_id key : String) (db : Db)
    → IsWellFormed db
    → IsWellFormed (link_item_to_album album_id key db)
unfolding link_item_to_album
link_item_to_album-IsWellFormed album_id key db w =
    elim (Bool-cases (exists (λ l. l.album_id == album_id && l.media_key == key) db.album_items)) [
      | inl old ↦ rw old w
      | inr new ↦ rw new (record {
        items = w.items;
        links = IsUnique-append_new same_link db.album_items _ same_link_comm new w.links;
        dated = w.dated;
      })
    ]

pub set_review-IsWellFormed :
    (flag : Bool) (keys : List String) (db : Db)
    → IsWellFormed db
    → IsWellFormed (set_review flag keys db)
unfolding flag_for_review
set_review-IsWellFormed flag [] db w = w
set_review-IsWellFormed flag (k ∷ keys) db w = set_review-IsWellFormed flag keys _ (
    update-IsWellFormed (λ r. r.media_key == k) (λ r. record r { needs_review = flag }) db
      (λ r. refl) (λ r _ d. d) w)

pub reconcile_chunk-IsWellFormed :
    (album_id : String) (at : ℕ) (keys : List String) (db : Db)
    → IsWellFormed db
    → IsWellFormed (reconcile_chunk album_id at keys db)
unfolding reconcile
reconcile_chunk-IsWellFormed album_id at keys db w = record {
  items =
      IsUnique-update_reading same_item _ (λ table. written_off table at) [] db.media_items
        (λ t a b. refl) (λ t a b. refl) w.items;
  links = IsUnique-delete same_link _ db.album_items w.links;
  dated =
      All-update_reading IsDated _ (λ table. written_off table at) [] db.media_items
        (λ t r _ d. refl) w.dated;
}

pub reconcile_chunks-IsWellFormed :
    (album_id : String) (at : ℕ) (chunks : List (List String)) (db : Db) (counts : ℕ × ℕ)
    → IsWellFormed db
    → IsWellFormed (reconcile_chunks album_id at chunks db counts).0
unfolding reconcile
reconcile_chunks-IsWellFormed album_id at [] db counts w = w
reconcile_chunks-IsWellFormed album_id at (keys ∷ rest) db counts w =
    reconcile_chunks-IsWellFormed album_id at rest _ _
      (reconcile_chunk-IsWellFormed album_id at keys db w)

pub reconcile-IsWellFormed :
    (album_id : String) (departed : List String) (at : ℕ) (db : Db)
    → IsWellFormed db
    → IsWellFormed (reconcile album_id departed at db).0
unfolding reconcile
reconcile-IsWellFormed album_id [] at db w = w
reconcile-IsWellFormed album_id (d ∷ departed) at db w =
    reconcile_chunks-IsWellFormed album_id at
      (chunk (length (d ∷ departed)) departure_chunk (d ∷ departed)) db (0, 0) w

pub forget-IsWellFormed : (key : String) (db : Db) → IsWellFormed db → IsWellFormed (forget key db)
unfolding forget
forget-IsWellFormed key db w = record {
  items = IsUnique-delete same_item _ db.media_items w.items;
  links = IsUnique-delete same_link _ db.album_items w.links;
  dated = All-delete IsDated _ db.media_items w.dated;
}

pub select_item-IsWellFormed :
    (key : String) (chosen : Bool) (db : Db)
    → IsWellFormed db
    → IsWellFormed (select_item key chosen db)
unfolding select_item
select_item-IsWellFormed key chosen db w =
    elim (Bool-cases (exists (λ s. s.media_key == key) db.media_selection)) [
      | inl old ↦ rw old (record { items = w.items; links = w.links; dated = w.dated })
      | inr new ↦ rw new (record { items = w.items; links = w.links; dated = w.dated })
    ]

-- A call that writes the table of albums alone keeps the others well formed.
pub albums-IsWellFormed :
    (rows : List AlbumRow) (db : Db) → IsWellFormed db → IsWellFormed (record db { albums = rows })
albums-IsWellFormed rows db w = record { items = w.items; links = w.links; dated = w.dated }

pub upsert_album-IsWellFormed :
    (album : Album) (seen : ℕ) (db : Db)
    → IsWellFormed db
    → IsWellFormed (upsert_album album seen db)
unfolding upsert_album
upsert_album-IsWellFormed album seen db w =
    elim (Bool-cases (exists (λ a. a.id == album.id) db.albums)) [
      | inl old ↦ rw old (albums-IsWellFormed _ db w)
      | inr new ↦ rw new (albums-IsWellFormed _ db w)
    ]

pub require_album-ok :
    (id : String) (old new : Db) {after : Db} → require_album id old new ≡ ok after → new ≡ after
require_album-ok id old new h = ground arith

pub require_album-IsWellFormed :
    (id : String) (rows : List AlbumRow) (db : Db) {after : Db}
    → require_album id db (record db { albums = rows }) ≡ ok after
    → IsWellFormed db
    → IsWellFormed after
require_album-IsWellFormed id rows db h w =
    subst IsWellFormed (require_album-ok id db (record db { albums = rows }) h)
      (albums-IsWellFormed rows db w)
