-- ===== src/Tests/ListingRuns.antt =====
-- The theorems about the listings of internal/syncer at concrete answers.
use gpb.Errors.{Result, ok, err, Failure, protocol_drift}
use gpb.Common.{
  ◌+◌, ◌*◌, ◌<◌, ◌≡◌, ◌≢◌, ◌⊎◌, refl, inr, true, false, none, some, List, [], ◌∷◌, String, arith,
  ◌==◌, ==_iff, nat_eq, string_eq, if◌then◌else◌, length, contains,
}
use gpb.Store.Rows.{Db, Album, library_id, scan_album}
use gpb.Store.Membership.{album_members}
use gpb.Syncer.Source.{ItemPage, Source}
use gpb.Syncer.Library.{departures, Walk, Ending, vouched_from, finish_walk, list_library, hour}
use gpb.Syncer.Library.Timeline.{Pages, last, more, AllPages, IsTimeline}
use gpb.Syncer.Library.Departures.{is_stale, list_library-safe}
use gpb.Store.Albums.{album}
use gpb.Syncer.Listing.{Wording, list_album, walk_albums, AlbumsWalk, at_start}
use gpb.Syncer.Listing.Caution.{IsCautious, list_album-failed, list_album-empty}
use gpb.Syncer.Listing.Accounts.{walk_albums_lem}
use gpb.Tests.Data.{trip, tables, trip_listed, listed}

abbrev newest : ItemPage
newest = record {
  items = listed "new" (900 * hour) ∷ listed "fresh" (870 * hour) ∷ [];
  next_token = "older";
}

abbrev oldest : ItemPage
oldest = record {
  items = listed "kept" (880 * hour) ∷ listed "lost" (3 * hour) ∷ [];
  next_token = "";
}

abbrev first_token : String
first_token = ""

abbrev timeline_page : String → ItemPage
timeline_page token = if token == "" then newest else oldest

abbrev google : Source
google = record {
  account_id = "me";
  albums = λ token. ok (record { albums = []; next_token = "" });
  shared_albums = λ token. ok (record { albums = []; next_token = "" });
  album_items = λ id token. ok (record { items = []; next_token = "" });
  timeline = λ token. ok (timeline_page token);
}

goes_on : newest.next_token ≢ ""
goes_on e = ground (arith, (==_iff newest.next_token "").1 e)

served : Pages google first_token (newest.items ∷ oldest.items ∷ [])
served = more newest refl goes_on (last oldest refl refl)

in_order : IsTimeline (newest.items ∷ oldest.items ∷ [])
in_order = (
  (
    (
      (inr (inr (ground arith)), (inr (inr (ground arith)), tt)),
      ((inr (inr (ground arith)), (inr (inr (ground arith)), tt)), tt),
    ),
    tt,
  ),
  (tt, tt),
)

abbrev library_album : Album
library_album = record trip_listed { id = library_id; since = 850 * hour }

list_library-safe_example :
    (ending : Ending) × (w : Walk) × (list_library google 2 library_album 9 tables
      ≡ some (
        finish_walk library_album.since 9 (album_members tables library_id) ending w,
        w.listed,
        none,
      ))
    × AllPages
        (λ y.
          (contains y.media_key (
              departures
                (album_members tables library_id)
                w.seen
                (vouched_from library_album.since ending))
            ≡ false)
          ⊎ (is_stale (album_members tables library_id) y ≡ true))
        (newest.items ∷ oldest.items ∷ [])
list_library-safe_example =
    list_library-safe google library_album 9 2 tables served in_order (ground arith)

abbrev wording : Wording
wording = record {
  describe = λ db id. id;
  describe_row = λ a. a.title;
  while_listing = λ id message. message;
  contradicted = λ a. a;
  nothing_named = λ n. "no albums";
}

abbrev unreadable : Failure
unreadable = record { kind = protocol_drift; message = "unexpected shape" }

-- One page with a new item, then one that does not decode.
abbrev half_an_album : String → Result ItemPage
half_an_album token = if token == "" then ok newest else err unreadable

abbrev breaking : Source
breaking = record google { album_items = λ id token. half_an_album token }

abbrev half_walked : Db
half_walked = elim (list_album wording breaking 5 "trip" 9 tables) [
  | some (after, count, failed) ↦ after
  | none ↦ tables
]

half_walk : list_album wording breaking 5 "trip" 9 tables ≡ some (half_walked, 2, some unreadable)
unfolding list_album album
half_walk = refl

list_album-failed_example : IsCautious tables half_walked
list_album-failed_example =
    list_album-failed wording breaking 5 "trip" 9 tables half_walked 2 unreadable half_walk

abbrev empty_album : Album
empty_album = record (scan_album trip) { item_count = 0 }

abbrev empty_tables : Db
empty_tables = record tables { albums = record trip { item_count = none } ∷ [] }

abbrev emptied : Db
emptied = elim (list_album wording google 5 "trip" 9 empty_tables) [
  | some (after, count, failed) ↦ after
  | none ↦ tables
]

recorded_as_empty : album "trip" empty_tables ≡ ok empty_album
unfolding album scan_album
recorded_as_empty = refl

empty_walk : list_album wording google 5 "trip" 9 empty_tables ≡ some (emptied, 0, none)
unfolding list_album album scan_album
empty_walk = refl

list_album-empty_example : empty_album.item_count ≡ 0
list_album-empty_example =
    list_album-empty wording google 5 "trip" 9 empty_tables emptied empty_album recorded_as_empty
      empty_walk

-- An album that Google has stopped listing, and one whose every page holds the two items.
abbrev full : Source
full = record google { album_items = λ id token. ok oldest }

abbrev two_followed : List Album
two_followed = trip_listed ∷ record trip_listed { last_seen_at = 20 } ∷ []

abbrev walked_albums : AlbumsWalk
walked_albums =
    elim (walk_albums wording full 5 20 (λ id. 21) two_followed (at_start tables false)) [
      | some (after, failed) ↦ after
      | none ↦ at_start tables false
    ]

albums_walk :
    walk_albums wording full 5 20 (λ id. 21) two_followed (at_start tables false)
    ≡ some (walked_albums, none)
unfolding walk_albums album
albums_walk = refl

walk_albums_lem_example :
    (walked_albums.walked + length walked_albums.skipped + length walked_albums.unlisted
      ≡ length two_followed)
    × ((length walked_albums.skipped ≡ 0) ⊎ (0 < walked_albums.walked))
    × ((false ≡ false) ⊎ (length walked_albums.unlisted ≡ 0))
walk_albums_lem_example =
    walk_albums_lem wording full 5 20 (λ id. 21) two_followed tables false walked_albums albums_walk
