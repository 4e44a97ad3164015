-- ===== src/Tests/StoreRuns.antt =====
-- The theorems about internal/store at concrete tables.
use mathlib.Core.List.{Perm}
use gpb.Errors.{ok}
use gpb.Common.{
  exists, inr, ◌≡◌, ◌≢◌, ◌↔◌, refl, true, false, ◌&&◌, ◌||◌, not, none, some, List, [], ◌∷◌, map,
  String, arith, ◌==◌, nat_eq, string_eq, take, All, contains, select, ==_iff,
}
use gpb.Store.Rows.{
  discovered, done, missing_upstream, state_eq, mode_eq, sync_all, Row, Album, Db, library_id,
  scan_item,
}
use gpb.Store.Items.{upsert_item}
use gpb.Store.Membership.{pending, album_for_item, in_the_sync_set, reconcile, listed_elsewhere}
use gpb.Store.Albums.{LibraryInstruction, library_instruction, set_library, album}
use gpb.Store.Twins.{Pairing, written_off_twins, to_twin}
use gpb.Store.WellFormed.{IsWellFormed}
use gpb.Store.Invariant.{Reach, lists, reconciles, here, next, Reach-IsWellFormed}
use gpb.Store.Upsert.{row_of, SameDownload, upsert_item-known, upsert_item_idem}
use gpb.Store.Work.{is_wanted, IsInOrder, pending_rows_lem, album_for_item_iff}
use gpb.Store.WriteOff.{reconcile_lem, is_missing, is_undated, is_member, kept_of}
use gpb.Store.DownloadPath.{downloads, fails, write_all, write_all-written_off}
use gpb.Store.Retirement.{Reach-retired}
use gpb.Store.Review.{waiting_for_review, keys_waiting_for_review}
use gpb.Store.ReviewPage.{items_needing_review}
use gpb.Store.ReviewPage.Offered.{is_offered, items_needing_review-offers}
use gpb.Store.Instructions.{set_library_lem}
use gpb.Store.Copies.{IsTwin, written_off_twins_lem}
use gpb.Tests.Data.{fresh_row, kept_key, trip_id, lost, library_row, tables, item}

tables-IsWellFormed : IsWellFormed tables
tables-IsWellFormed = record {
  items = (refl, (refl, (refl, tt)));
  links = (refl, (refl, (refl, tt)));
  dated = (refl, (refl, (refl, tt)));
}

-- The photo is listed again, and a later listing of the album does not see it.
abbrev listed_again : Db
listed_again = upsert_item (item "lost") 300 tables

abbrev departed_since : Db
departed_since = (reconcile "trip" ("kept" ∷ "lost" ∷ []) 400 listed_again).0

two_steps : Reach tables departed_since
two_steps =
    next (next here (lists (item "lost") 300)) (reconciles "trip" ("kept" ∷ "lost" ∷ []) 400)

Reach-IsWellFormed_example : IsWellFormed departed_since
Reach-IsWellFormed_example = Reach-IsWellFormed two_steps tables-IsWellFormed

upsert_item-known_example :
    (r' : Row) × (row_of "lost" (upsert_item (item "lost") 300 tables) ≡ some r')
    × SameDownload lost r'
    × (r'.captured_at ≡ some 200)
    × (r'.thumbnail_url ≡ none)
    × (r'.is_video ≡ false)
    × (r'.missing_since ≡ none)
    × (r'.state ≡ done)
    × (r'.needs_review ≡ false)
upsert_item-known_example = upsert_item-known (item "lost") 300 tables lost refl

upsert_item_idem_example :
    upsert_item (item "new") 400 (upsert_item (item "new") 300 tables)
    ≡ upsert_item (item "new") 300 tables
upsert_item_idem_example = upsert_item_idem (item "new") 300 400 tables

pending_rows_lem_example :
    (rows : List Row) × (pending tables 5 10 ≡ map scan_item (take 10 rows))
    × Perm rows (select (is_wanted tables 5) tables.media_items)
    × All (λ r. is_wanted tables 5 r ≡ true) (take 10 rows)
    × IsInOrder tables rows
pending_rows_lem_example = pending_rows_lem tables 5 10

named : (id : String) → (id == "") ≡ false → id ≢ ""
named id h e = ground (arith, h, (==_iff id "").1 e)

album_for_item_iff_example :
    (album_for_item tables "fresh" ≢ "") ↔ (in_the_sync_set tables "fresh" ≡ true)
album_for_item_iff_example =
    album_for_item_iff tables "fresh"
      (named trip_id refl, (named trip_id refl, (named library_id refl, tt)))

reconcile_lem_example :
    (is_missing "kept" (reconcile "trip" ("kept" ∷ "fresh" ∷ []) 400 tables).0 ≡ (
      is_missing "kept" tables
      || (contains kept_key ("kept" ∷ "fresh" ∷ [])
          && not (listed_elsewhere "trip" tables.album_items "kept"))
        && is_undated "kept" tables))
    × ((a : String)
        → is_member a "kept" (reconcile "trip" ("kept" ∷ "fresh" ∷ []) 400 tables).0 ≡ (
            is_member a "kept" tables
            && not (
                a == trip_id
                && contains kept_key ("kept" ∷ "fresh" ∷ [])
                && not
                    (is_missing "kept" (reconcile "trip" ("kept" ∷ "fresh" ∷ []) 400 tables).0))))
    × (map kept_of (reconcile "trip" ("kept" ∷ "fresh" ∷ []) 400 tables).0.media_items
        ≡ map kept_of tables.media_items)
reconcile_lem_example = reconcile_lem "trip" ("kept" ∷ "fresh" ∷ []) 400 "kept" tables

write_all-written_off_example :
    (after : Db) × (r' : Row) × (write_all "lost"
        (fails "no answer" ∷ downloads (item "lost") 60 ∷ [])
        tables
      ≡ ok after)
    × (row_of "lost" after ≡ some r')
    × (r'.state ≡ missing_upstream)
    × (r'.missing_since ≡ some 50)
    × (r'.needs_review ≡ true)
write_all-written_off_example =
    write_all-written_off "lost" (fails "no answer" ∷ downloads (item "lost") 60 ∷ []) tables lost
      refl refl

-- An item that failed five times is written off and listed again.
abbrev tired : Db
tired = record tables { media_items = record fresh_row { fail_count = 5 } ∷ [] }

abbrev relisted : Db
relisted = upsert_item (item "fresh") 500 (reconcile "trip" ("fresh" ∷ []) 400 tired).0

Reach-retired_example : exists (λ item. item.media_key == "fresh") (pending relisted 5 10) ≡ false
Reach-retired_example =
    Reach-retired "fresh" 5 10
      (next (next here (reconciles "trip" ("fresh" ∷ []) 400)) (lists (item "fresh") 500))
      ((tt, tt), tt) refl (inr (omega arith), tt)

-- A photo that Google has lost waits for an answer.
abbrev asked : Db
asked = record tables { media_items = record lost { needs_review = true } ∷ fresh_row ∷ [] }

abbrev lost_key : String
lost_key = "lost"

items_needing_review-offers_example :
    (is_offered lost_key (items_needing_review asked missing_upstream)
      ≡ exists
          (λ r. waiting_for_review asked missing_upstream r && r.media_key == lost_key)
          asked.media_items)
    × (contains lost_key (keys_waiting_for_review asked (lost_key ∷ [])) ≡ (
        is_offered lost_key (items_needing_review asked discovered)
        || is_offered lost_key (items_needing_review asked missing_upstream)))
items_needing_review-offers_example = items_needing_review-offers asked missing_upstream lost_key

abbrev everything : LibraryInstruction
everything = record { mode = sync_all; since = 700; new_only = true; weekly_full_walk = true }

set_library_lem_example :
    (after : Db) × (a' : Album) × (set_library everything tables ≡ ok after)
    × (album library_id after ≡ ok a')
    × (library_instruction a' ≡ everything)
    × (a'.walked_in_full_at ≡ 0)
set_library_lem_example = set_library_lem everything tables library_row refl

written_off_twins_lem_example :
    (pairs : List Pairing) × (written_off_twins tables ≡ map to_twin pairs) × All IsTwin pairs
written_off_twins_lem_example = written_off_twins_lem tables
