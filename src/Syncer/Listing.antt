-- ===== src/Syncer/Listing.antt =====
-- internal/syncer/listing.go: the walk of one album, the walk of every followed album, and the two
-- listings of albums. The sentences of describeAlbum and of the errors are a parameter, the wording.
pub mod Caution
pub mod Accounts
use gpb.Errors.{
  Result, ok, err, Failure, count_contradicted, other, is_count_contradicted, is_drift,
}
use gpb.Common.{
  ℕ, zero, suc, ◌+◌, Bool, true, false, ◌&&◌, ◌||◌, not, Option, none, some, List, [], ◌∷◌, ◌++◌,
  String, ◌==◌, nat_eq, string_eq, if◌then◌else◌, contains, exists, ltb, length, is_some,
}
use gpb.Store.Rows.{Db, Album, AlbumKind, unlisted, shared, sync_picked, mode_eq}
use gpb.Store.Items.{upsert_item}
use gpb.Store.Albums.{album, upsert_album, mark_album_synced}
use gpb.Store.Membership.{link_item_to_album, album_members, reconcile}
use gpb.Store.Review.{flag_for_review}
use gpb.Syncer.Source.{
  Listed, ItemPage, ListedAlbum, AlbumPage, Source, to_store_item, to_store_album,
}
use gpb.Syncer.Library.{departures}

pub record Wording : Type 0 where
  pub describe : Db → String → String
  pub describe_row : Album → String
  pub while_listing : String → String → String
  pub contradicted : String → String
  pub nothing_named : ℕ → String

abbrev pub is_empty {ℓ} : {A : Type ℓ} → List A → Bool
is_empty [] = true
is_empty (x ∷ xs) = false

-- What a walk of an album holds between two items.
pub record AlbumWalk : Type 0 where
  pub db : Db
  pub seen : List String
  pub arrived : List String
  pub listed : ℕ

-- The body of the loop over the items of a page.
unfoldable pub record_item : String → List (String × ℕ) → Bool → ℕ → Listed → AlbumWalk → AlbumWalk
record_item album_id members arrivals_matter at item w = record {
  db = link_item_to_album album_id item.media_key (upsert_item (to_store_item item) at w.db);
  seen = item.media_key ∷ w.seen;
  arrived =
      if arrivals_matter && not (exists (λ m. m.0 == item.media_key) members)
      then w.arrived ++ item.media_key ∷ []
      else w.arrived;
  listed = w.listed + 1;
}

unfoldable pub record_items :
    String → List (String × ℕ) → Bool → ℕ → List Listed → AlbumWalk → AlbumWalk
unfolding record_item
record_items album_id members arrivals_matter at [] w = w
record_items album_id members arrivals_matter at (item ∷ items) w =
    record_items album_id members arrivals_matter at items
      (record_item album_id members arrivals_matter at item w)

-- The loop over the pages: what it holds at the end, or where a page failed. `none` where the fuel
-- runs out, one unit for a page.
unfoldable pub list_pages :
    Source
    → String
    → List (String × ℕ)
    → Bool
    → ℕ
    → ℕ
    → String
    → AlbumWalk
    → Option (AlbumWalk × Option Failure)
unfolding record_items
list_pages source album_id members arrivals_matter at zero token w = none
list_pages source album_id members arrivals_matter at (suc fuel) token w =
    elim (source.album_items album_id token) [
      | err cause ↦ some (w, some cause)
      | ok page ↦
          let recorded = record_items album_id members arrivals_matter at page.items w in
          let rest =
            list_pages source album_id members arrivals_matter at fuel page.next_token recorded in
          if page.next_token == "" then some (recorded, none) else rest
    ]

-- checkTheWalkAgreesWithGoogle
unfoldable pub check_the_walk_agrees_with_google : Wording → String → ℕ → Db → Option Failure
check_the_walk_agrees_with_google wording album_id listed db =
    if ltb 0 listed then none else elim (album album_id db) [
      | err cause ↦ some cause
      | ok a ↦
          if a.item_count == 0
          then none
          else some (record {
            kind = count_contradicted;
            message = wording.contradicted (wording.describe_row a);
          })
    ]

unfoldable pub arrivals_matter : Album → Bool
arrivals_matter album = album.sync_mode == sync_picked && not (album.last_synced_at == 0)

unfoldable pub flag_arrivals : List String → Db → Db
flag_arrivals arrived db = if is_empty arrived then db else flag_for_review arrived db

-- What follows the loop of listAlbum.
unfoldable pub finish_album :
    Wording → String → List (String × ℕ) → ℕ → AlbumWalk → Db × Option Failure
unfolding check_the_walk_agrees_with_google flag_arrivals
finish_album wording album_id members at w =
    elim (check_the_walk_agrees_with_google wording album_id w.listed w.db) [
      | some cause ↦ (w.db, some cause)
      | none ↦ (
        mark_album_synced album_id at
            (reconcile album_id (departures members w.seen 0) at (flag_arrivals w.arrived w.db)).0,
        none,
      )
    ]

-- listAlbum: the tables it leaves, how many items it listed, and its error.
unfoldable pub list_album :
    Wording → Source → ℕ → String → ℕ → Db → Option (Db × ℕ × Option Failure)
unfolding list_pages arrivals_matter finish_album
list_album wording source fuel album_id at db =
    let members = album_members db album_id in
    elim (album album_id db) [
      | err cause ↦ some (db, 0, some cause)
      | ok a ↦
          elim (list_pages source album_id members (arrivals_matter a) at fuel ""
            (record { db = db; seen = []; arrived = []; listed = 0 })) [
              | none ↦ none
              | some (w, some cause) ↦ some (
                w.db,
                w.listed,
                some (record cause {
                  message = wording.while_listing (wording.describe w.db album_id) cause.message;
                }),
              )
              | some (w, none) ↦
                  let finished = finish_album wording album_id members at w in
                  some (finished.0, w.listed, finished.1)
            ]
    ]

-- albumWalk, and the tables.
pub record AlbumsWalk : Type 0 where
  pub db : Db
  pub listed : ℕ
  pub walked : ℕ
  pub skipped : List String
  pub unlisted : List String
  pub drifted : Option Failure
  pub attempts : ℕ
  pub listing_was_empty : Bool

abbrev pub at_start : Db → Bool → AlbumsWalk
at_start db listing_was_empty = record {
  db = db;
  listed = 0;
  walked = 0;
  skipped = [];
  unlisted = [];
  drifted = none;
  attempts = 0;
  listing_was_empty = listing_was_empty;
}

unfoldable pub verdict : Wording → AlbumsWalk → Option Failure
verdict wording walk =
    if is_some walk.drifted && walk.walked == 0
    then walk.drifted
    else if walk.listing_was_empty && not (is_empty walk.unlisted)
    then some (record { kind = other; message = wording.nothing_named (length walk.unlisted) })
    else none

abbrev pub first_failure : Option Failure → Failure → Option Failure
first_failure none cause = some cause
first_failure (some first) cause = some first

-- The outcome of one album's walk: go on with `inl`, or return the error.
unfoldable pub after_album :
    Wording → String → Db × ℕ × Option Failure → AlbumsWalk → AlbumsWalk × Option Failure
after_album wording id (db, count, none) walk = (
  record walk {
    db = db;
    listed = walk.listed + count;
    attempts = walk.attempts + 1;
    walked = walk.walked + 1;
  },
  none,
)
after_album wording id (db, count, some cause) walk =
    let tried = record walk {
      db = db;
      listed = walk.listed + count;
      attempts = walk.attempts + 1;
    } in
    if is_count_contradicted cause.kind || not (is_drift cause.kind) then (tried, some cause) else (
      record tried {
        skipped = walk.skipped ++ wording.describe db id ∷ [];
        drifted = first_failure walk.drifted cause;
      },
      none,
    )

-- The loop of walkAlbums and its verdict; an album's walk starts at its own instant.
unfoldable pub walk_albums :
    Wording
    → Source
    → ℕ
    → ℕ
    → (String → ℕ)
    → List Album
    → AlbumsWalk
    → Option (AlbumsWalk × Option Failure)
unfolding list_album after_album verdict
walk_albums wording source fuel refreshed_at now [] walk = some (walk, verdict wording walk)
walk_albums wording source fuel refreshed_at now (a ∷ followed) walk =
    if ltb a.last_seen_at refreshed_at
    then walk_albums wording source fuel refreshed_at now followed
        (record walk { unlisted = walk.unlisted ++ wording.describe_row a ∷ [] })
    else elim (list_album wording source fuel a.id (now a.id) walk.db) [
      | none ↦ none
      | some outcome ↦
          let next = after_album wording a.id outcome walk in
          elim next.1 [
            | some cause ↦ some (next.0, some cause)
            | none ↦ walk_albums wording source fuel refreshed_at now followed next.0
          ]
    ]

-- The loop of recordListing over the albums of a page: the tables, and the ids seen.
unfoldable pub record_albums :
    String → List String → ℕ → List ListedAlbum → Db × List String → Db × List String
record_albums account_id claimed seen_at [] state = state
record_albums account_id claimed seen_at (a ∷ albums) (db, seen) =
    if contains a.id claimed
    then record_albums account_id claimed seen_at albums (db, seen)
    else record_albums account_id claimed seen_at albums (
      upsert_album
          (to_store_album (record a { kind = elim a.kind [ unlisted ↦ shared | k ↦ k ] })
            account_id)
          seen_at db,
      (if contains a.id seen then seen else a.id ∷ seen),
    )

-- recordListing; `none` where the fuel, one unit for a page, runs out.
unfoldable pub record_listing :
    (String → Result AlbumPage)
    → String
    → List String
    → ℕ
    → ℕ
    → String
    → Db × List String
    → Option (Db × Result (List String))
unfolding record_albums
record_listing fetch account_id claimed seen_at zero token state = none
record_listing fetch account_id claimed seen_at (suc fuel) token state = elim (fetch token) [
  | err cause ↦ some (state.0, err cause)
  | ok page ↦
      let recorded = record_albums account_id claimed seen_at page.albums state in
      let rest = record_listing fetch account_id claimed seen_at fuel page.next_token recorded in
      if page.next_token == "" then some (recorded.0, ok recorded.1) else rest
]
