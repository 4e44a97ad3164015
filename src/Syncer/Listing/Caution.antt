-- ===== src/Syncer/Listing/Caution.antt =====
-- What the walk of one album (listAlbum, internal/syncer/listing.go) leaves alone where it fails, and
-- what it may take for gone where it does not.
use gpb.Errors.{Result, ok, err, Failure}
use gpb.Common.{
  ℕ, zero, suc, ◌≡◌, ◌≢◌, ◌⊎◌, refl, ◌∙◌, subst, inl, inr, Bool, false, ◌&&◌, not, Option, none,
  some, List, [], ◌∷◌, String, arith, ◌==◌, nat_eq, string_eq, exists, exists-append, update,
  Bool-cases, Option-cases,
}
use gpb.Store.Rows.{Db, Album, Row, missing_upstream, state_eq, MediaItem}
use gpb.Store.Items.{upsert_item, upsert_row, new_row}
use gpb.Store.Albums.{album}
use gpb.Store.Membership.{link_item_to_album, album_members}
use gpb.Store.WriteOff.{is_missing, is_member}
use gpb.Syncer.Source.{Listed, ItemPage, Source, to_store_item}
use gpb.Syncer.Listing.{
  Wording, AlbumWalk, record_item, record_items, list_pages, finish_album, list_album,
  arrivals_matter, check_the_walk_agrees_with_google,
}

-- Nothing is written off that was not, no item has left an album, and the albums are as they were.
abbrev pub IsCautious : Db → Db → Type 0
IsCautious db after =
    ((key : String) → (is_missing key after && not (is_missing key db)) ≡ false)
    × ((album_id key : String)
        → (is_member album_id key db && not (is_member album_id key after)) ≡ false)
    × (after.albums ≡ db.albums)

upsert_row-live :
    (item : MediaItem) (r : Row) → ((upsert_row item r).state == missing_upstream) ≡ false
unfolding upsert_item
upsert_row-live item r = ground arith

missing-update :
    (key : String) (item : MediaItem) (rows : List Row)
    → (exists
          (λ r. r.state == missing_upstream && r.media_key == key)
          (update (λ r. r.media_key == item.media_key) (upsert_row item) rows)
        && not (exists (λ r. r.state == missing_upstream && r.media_key == key) rows))
      ≡ false
missing-update key item [] = refl
missing-update key item (r ∷ rows) = elim (Bool-cases (r.media_key == item.media_key)) [
  | inl e ↦ rw (e, upsert_row-live item r) (ground (arith, missing-update key item rows))
  | inr e ↦ rw e (ground (arith, missing-update key item rows))
]

missing-upsert_item :
    (key : String) (item : MediaItem) (at : ℕ) (db : Db)
    → item.state ≢ missing_upstream
    → (is_missing key (upsert_item item at db) && not (is_missing key db)) ≡ false
unfolding upsert_item
missing-upsert_item key item at db live =
    elim (Bool-cases (exists (λ r. r.media_key == item.media_key) db.media_items)) [
      | inl old ↦ ground (arith, old, missing-update key item db.media_items)
      | inr new ↦ ground (
        arith,
        new,
        live,
        exists-append (λ r. r.state == missing_upstream && r.media_key == key) db.media_items
            (new_row item at ∷ []),
      )
    ]

-- The memberships as lists: one that `before` has, `after` has.
linked :
    (id key : String) (db : Db) (a other : String)
    → (is_member a other db && not (is_member a other (link_item_to_album id key db))) ≡ false
unfolding link_item_to_album
linked id key db a other = ground (
  arith,
  exists-append (λ l. l.album_id == a && l.media_key == other) db.album_items
      (record { album_id = id; media_key = key } ∷ []),
)

same_links :
    (item : MediaItem) (at : ℕ) (db : Db) → (upsert_item item at db).album_items ≡ db.album_items
unfolding upsert_item
same_links item at db = ground arith

same_items :
    (id key : String) (db : Db) → (link_item_to_album id key db).media_items ≡ db.media_items
unfolding link_item_to_album
same_items id key db = ground arith

same_albums :
    (id : String) (item : MediaItem) (at : ℕ) (db : Db)
    → (link_item_to_album id item.media_key (upsert_item item at db)).albums ≡ db.albums
unfolding link_item_to_album upsert_item
same_albums id item at db = ground arith

to_store_item-live : (item : Listed) → (to_store_item item).state ≢ missing_upstream
unfolding to_store_item
to_store_item-live item h = ground (arith, h)

record_item-IsCautious :
    (id : String) (members : List (String × ℕ)) (matter : Bool) (at : ℕ) (item : Listed)
    (w : AlbumWalk)
    → IsCautious w.db (record_item id members matter at item w).db
unfolding record_item to_store_item
record_item-IsCautious id members matter at item w =
    let upserted = upsert_item (to_store_item item) at w.db in
    (
      (λ key.
          rw (same_items id item.media_key upserted)
            (missing-upsert_item key (to_store_item item) at w.db (to_store_item-live item))),
      (λ a key.
          subst
            (λ links.
              (exists (λ l. l.album_id == a && l.media_key == key) links
                && not (is_member a key (link_item_to_album id item.media_key upserted)))
              ≡ false)
            (same_links (to_store_item item) at w.db) (linked id item.media_key upserted a key)),
      same_albums id (to_store_item item) at w.db,
    )

IsCautious-trans : (a b c : Db) → IsCautious a b → IsCautious b c → IsCautious a c
IsCautious-trans a b c ab bc = (
  (λ key. ground (arith, ab.0 key, bc.0 key)),
  (λ id key. ground (arith, ab.1 id key, bc.1 id key)),
  bc.2 ∙ ab.2,
)

IsCautious-refl : (db : Db) → IsCautious db db
IsCautious-refl db = ((λ key. ground arith), (λ id key. ground arith), refl)

module _ (source : Source) (id : String) (members : List (String × ℕ)) (matter : Bool)
    (at : ℕ) where
  record_items-IsCautious :
      (items : List Listed) (w : AlbumWalk)
      → IsCautious w.db (record_items id members matter at items w).db
  unfolding record_items
  record_items-IsCautious [] w = IsCautious-refl w.db
  record_items-IsCautious (item ∷ items) w =
      IsCautious-trans w.db (record_item id members matter at item w).db
        (record_items id members matter at items (record_item id members matter at item w)).db
        (record_item-IsCautious id members matter at item w)
        (record_items-IsCautious items (record_item id members matter at item w))

  Paged-cases :
      (r : Result ItemPage)
      → ((page : ItemPage) × (r ≡ ok page)) ⊎ ((cause : Failure) × (r ≡ err cause))
  Paged-cases (ok page) = inl (page, refl)
  Paged-cases (err cause) = inr (cause, refl)

  list_pages-IsCautious :
      (fuel : ℕ) (token : String) (w after : AlbumWalk) (failed : Option Failure)
      → list_pages source id members matter at fuel token w ≡ some (after, failed)
      → IsCautious w.db after.db
  unfolding list_pages
  list_pages-IsCautious zero token w after failed h = ground (arith, h)
  list_pages-IsCautious (suc fuel) token w after failed h =
      elim (Paged-cases (source.album_items id token)) [
        | inr (cause, e) ↦
            let p : w ≡ after = ground (arith, h, e) in
            subst (λ x. IsCautious w.db x.db) p (IsCautious-refl w.db)
        | inl (page, e) ↦
            let recorded = record_items id members matter at page.items w in
            let here = record_items-IsCautious page.items w in
            elim (Bool-cases (page.next_token == "")) [
              | inl stop ↦
                  let p : recorded ≡ after = ground (arith, h, e, stop) in
                  subst (λ x. IsCautious w.db x.db) p here
              | inr goes ↦ IsCautious-trans w.db recorded.db after.db here (
                  list_pages-IsCautious fuel page.next_token recorded after failed
                    (ground (arith, h, e, goes)))
            ]
      ]

finish_album-failed :
    (wording : Wording) (id : String) (members : List (String × ℕ)) (at : ℕ) (w : AlbumWalk)
    (cause : Failure)
    → (finish_album wording id members at w).1 ≡ some cause
    → (finish_album wording id members at w).0 ≡ w.db
unfolding finish_album
finish_album-failed wording id members at w cause h =
    ground (arith, h, Option-cases (check_the_walk_agrees_with_google wording id w.listed w.db))

Album-cases :
    (r : Result Album) → ((a : Album) × (r ≡ ok a)) ⊎ ((cause : Failure) × (r ≡ err cause))
Album-cases (ok a) = inl (a, refl)
Album-cases (err cause) = inr (cause, refl)

-- A walk of an album that fails, on whatever page or in the check after the last one, writes off
-- nothing that was not written off before and takes no item out of any album;
-- the albums are as they were.
pub list_album-failed :
    (wording : Wording) (source : Source) (fuel : ℕ) (id : String) (at : ℕ) (db after : Db)
    (count : ℕ) (cause : Failure)
    → list_album wording source fuel id at db ≡ some (after, count, some cause)
    → IsCautious db after
unfolding list_album
list_album-failed wording source fuel id at db after count cause h =
    elim (Album-cases (album id db)) [
      | inr (cause', e) ↦
          let p : db ≡ after = ground (arith, h, e) in
          subst (λ x. IsCautious db x) p (IsCautious-refl db)
      | inl (a, e) ↦
          let members = album_members db id in
          elim (Option-cases (
            list_pages source id members (arrivals_matter a) at fuel ""
              (record { db = db; seen = []; arrived = []; listed = 0 }))) [
                | inl e' ↦ ground (arith, h, e, e')
                | inr ((w, failed), e') ↦
                    let walked =
                      list_pages-IsCautious source id members (arrivals_matter a) at fuel "" _ w
                        failed e' in
                    let p : w.db ≡ after = ground (
                      arith,
                      h,
                      e,
                      e',
                      Option-cases failed,
                      finish_album-failed wording id members at w cause,
                    ) in
                    subst (λ x. IsCautious db x) p walked
              ]
    ]

-- A walk of an album that lists no item at all succeeds only where the album is recorded as empty.
pub list_album-empty :
    (wording : Wording) (source : Source) (fuel : ℕ) (id : String) (at : ℕ) (db after : Db)
    (a : Album)
    → album id db ≡ ok a
    → list_album wording source fuel id at db ≡ some (after, 0, none)
    → a.item_count ≡ 0
unfolding list_album finish_album album check_the_walk_agrees_with_google
list_album-empty wording source fuel id at db after a e h =
    let members = album_members db id in
    elim (Option-cases (
      list_pages source id members (arrivals_matter a) at fuel ""
        (record { db = db; seen = []; arrived = []; listed = 0 }))) [
          | inl e' ↦ ground (arith, h, e, e')
          | inr ((w, some cause), e') ↦ ground (arith, h, e, e')
          | inr ((w, none), e') ↦
              let walked =
                list_pages-IsCautious source id members (arrivals_matter a) at fuel "" _ w none
                  e' in
              let none_listed : w.listed ≡ 0 = ground (arith, h, e, e') in
              let same : album id w.db ≡ ok a = ground (arith, e, walked.2) in
              ground (arith, h, e, e', none_listed, same)
        ]
