-- ===== src/Tests/AlbumSortRuns.antt =====
-- The order and the links of internal/web/albumsort.go at three albums.
use gpb.Common.{
  ℕ, Bool, true, false, not, ◌≡◌, refl, List, [], ◌∷◌, ◌++◌, String, string_eq, All, IsOrdered,
}
use mathlib.Core.List.{Perm}
use gpb.Store.Rows.{SyncMode, sync_none, sync_all}
use gpb.Web.AlbumSort.{AlbumRow, AlbumsQuery, effective, row_order, sort, is_missing}
use gpb.Web.AlbumSort.Arrangement.{sort_lem}

abbrev lower : String → String
lower title = title

abbrev album : String → ℕ → SyncMode → Bool → AlbumRow
album id at mode favourite = record {
  id = id;
  display_title = id;
  created_at = at;
  item_count = 1;
  done = 0;
  mode = mode;
  favourite = favourite;
}

abbrev rows : List AlbumRow
rows =
    album "undated" 0 sync_none false
    ∷ album "trip" 7 sync_all false
    ∷ album "star" 3 sync_none true
    ∷ []

abbrev unsorted : AlbumsQuery
unsorted = record { key = ""; descending = false; bundles_open = true; favourites_only = false }

sort_lem_example :
    Perm (sort lower unsorted rows) rows
    × IsOrdered (row_order lower unsorted) (sort lower unsorted rows)
    × ((starred : List AlbumRow) × (others : List AlbumRow) × (sort lower unsorted rows
          ≡ starred ++ others)
        × All (λ row. not row.favourite ≡ false) starred
        × All (λ row. not row.favourite ≡ true) others)
sort_lem_example = sort_lem lower unsorted rows

undated : is_missing ((effective unsorted).0) (album "undated" 0 sync_none false) ≡ true
unfolding effective
undated = refl

dated : is_missing ((effective unsorted).0) (album "dated" 9 sync_none false) ≡ false
unfolding effective
dated = refl

abbrev request : List (String × String)
request = ("sort", "items") ∷ ("dir", "desc") ∷ ("bundles", "open") ∷ []
