-- ===== src/Web/AlbumSort.antt =====
-- internal/web/albumsort.go: the order of the album list, and the links that carry it. strings.ToLower is
-- a parameter, and so is DisplayTitle, a field of the row here. url.Values is a list of pairs, whose
-- encoding into a URL is left out.
pub mod Arrangement
pub mod Links
use Prim.Native.String.{compare as compare_text}
use gpb.Common.{
  ℕ, Ordering, compare, Bool, true, false, ◌&&◌, not, Option, none, some, List, [], ◌∷◌, String,
  ◌==◌, string_eq, if◌then◌else◌, then_by, nat_eq, compare_bool, sort_by,
}
use gpb.Store.Rows.{SyncMode, sync_none, mode_eq}

pub record AlbumRow : Type 0 where
  pub id : String
  pub display_title : String
  pub created_at : ℕ
  pub item_count : ℕ
  pub done : ℕ
  pub mode : SyncMode
  pub favourite : Bool

pub record AlbumsQuery : Type 0 where
  pub key : String
  pub descending : Bool
  pub bundles_open : Bool
  pub favourites_only : Bool

-- sortableColumns
pub data Column : Type 0 where
  title created items backed_up mode_column : Column

abbrev pub key_of : Column → String
key_of title = "title"
key_of created = "created"
key_of items = "items"
key_of backed_up = "done"
key_of mode_column = "mode"

abbrev pub descending_first : Column → Bool
descending_first title = false
descending_first created = true
descending_first items = true
descending_first backed_up = true
descending_first mode_column = false

abbrev pub column_in : List Column → String → Option Column
column_in [] key = none
column_in (column ∷ columns) key =
    if key_of column == key then some column else column_in columns key

abbrev pub sortable_columns : List Column
sortable_columns = title ∷ created ∷ items ∷ backed_up ∷ mode_column ∷ []

unfoldable pub column_for : String → Option Column
column_for key = column_in sortable_columns key

abbrev pub is_missing : Column → AlbumRow → Bool
is_missing created row = row.created_at == 0
is_missing _ row = false

-- backupRank, whether it is one.
abbrev pub unfollowed : SyncMode → Bool
unfollowed mode = mode == sync_none

abbrev pub effective_of : Option Column → Bool → Column × Bool
effective_of (some column) descending = (column, descending)
effective_of none descending = (created, true)

unfoldable pub effective : AlbumsQuery → Column × Bool
unfolding column_for
effective query = effective_of (column_for query.key) query.descending

abbrev pub is_none {ℓ} : {A : Type ℓ} → Option A → Bool
is_none none = true
is_none (some a) = false

unfoldable pub unchosen : AlbumsQuery → Bool
unfolding column_for
unchosen query = is_none (column_for query.key)

module _ (to_lower : String → String) where
  abbrev pub by_title : AlbumRow → AlbumRow → Ordering
  by_title a b =
      then_by (compare_text (to_lower a.display_title) (to_lower b.display_title))
        (compare_text a.id b.id)

  unfoldable pub compare_by : Column → AlbumRow → AlbumRow → Ordering
  compare_by title a b = by_title a b
  compare_by created a b = then_by (compare a.created_at b.created_at) (by_title a b)
  compare_by items a b = then_by (compare a.item_count b.item_count) (by_title a b)
  compare_by backed_up a b = then_by (compare a.done b.done) (by_title a b)
  compare_by mode_column a b =
      then_by (compare_bool (unfollowed a.mode) (unfollowed b.mode)) (by_title a b)

  abbrev pub in_direction : Bool → Column → AlbumRow → AlbumRow → Ordering
  in_direction descending column a b =
      if descending then compare_by column b a else compare_by column a b

  -- The comparison that sort is given.
  unfoldable pub row_order : AlbumsQuery → AlbumRow → AlbumRow → Ordering
  unfolding effective unchosen compare_by
  row_order query a b = then_by (compare_bool (not a.favourite) (not b.favourite)) (
      then_by
        (if unchosen query
          then compare_bool (unfollowed a.mode) (unfollowed b.mode)
          else Ordering.eq)
        (then_by
          (compare_bool (is_missing ((effective query).0) a) (is_missing ((effective query).0) b))
          (in_direction ((effective query).1) ((effective query).0) a b)))

  unfoldable pub sort : AlbumsQuery → List AlbumRow → List AlbumRow
  unfolding row_order
  sort query rows = sort_by (row_order query) rows

-- url.Values: Get gives "" for a missing key, and Set replaces.
abbrev pub Values : Type 0
Values = List (String × String)

abbrev pub get : String → Values → String
get key [] = ""
get key (value ∷ values) = if value.0 == key then value.1 else get key values

abbrev pub set : String → String → Values → Values
set key value [] = (key, value) ∷ []
set key value (old ∷ values) =
    if old.0 == key then (key, value) ∷ values else old ∷ set key value values

abbrev pub direction_set : Bool → Values → Values
direction_set descending values = if descending then set "dir" "desc" values else values

unfoldable pub keep_what_is_shown : AlbumsQuery → Values → Values
keep_what_is_shown query values =
    let with_bundles = if query.bundles_open then set "bundles" "open" values else values in
    if query.favourites_only then set "favourites" "only" with_bundles else with_bundles

unfoldable pub keep : AlbumsQuery → Values → Values
unfolding keep_what_is_shown
keep query values =
    let shown = keep_what_is_shown query values in
    if query.key == "" then shown else direction_set query.descending (set "sort" query.key shown)

-- linkFor, before the values are encoded.
unfoldable pub link_for : AlbumsQuery → Column → Values
unfolding effective keep_what_is_shown
link_for query column =
    let in_force = effective query in
    let descending =
      if key_of (in_force.0) == key_of column then not (in_force.1) else descending_first column in
    keep_what_is_shown query (direction_set descending (set "sort" (key_of column) []))

unfoldable pub query_from : Values → AlbumsQuery
unfolding column_for
query_from values =
    let chosen = not (is_none (column_for (get "sort" values))) in
    record {
      key = if chosen then get "sort" values else "";
      descending = chosen && get "dir" values == "desc";
      bundles_open = get "bundles" values == "open";
      favourites_only = get "favourites" values == "only";
    }

unfoldable pub toggle_bundles : AlbumsQuery → AlbumsQuery
toggle_bundles query = record query { bundles_open = not query.bundles_open }

unfoldable pub toggle_favourites : AlbumsQuery → AlbumsQuery
toggle_favourites query = record query { favourites_only = not query.favourites_only }
