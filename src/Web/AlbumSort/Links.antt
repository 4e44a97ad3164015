-- ===== src/Web/AlbumSort/Links.antt =====
-- internal/web/albumsort.go: what a link carries is what the request that follows it reads.
use gpb.Common.{
  Bool, true, false, not, ◌≡◌, ◌∙◌, ap, subst, refl, some, List, [], String, ◌==◌, string_eq,
  if◌then◌else◌, arith, Bool-cases, Option-cases, inl, inr, ==_iff,
}
use gpb.Web.AlbumSort.{
  AlbumsQuery, Column, title, created, items, backed_up, mode_column, key_of, descending_first,
  column_for, effective_of, effective, direction_set, get, set, keep_what_is_shown, keep, link_for,
  query_from,
}

abbrev asked : String → Bool → Bool → Bool → AlbumsQuery
asked key descending bundles favourites = record {
  key = key;
  descending = descending;
  bundles_open = bundles;
  favourites_only = favourites;
}

-- A sort that is set among what is shown is read back.
query_from-sorted :
    (key : String) (column : Column) (d b f : Bool) (other : AlbumsQuery)
    → column_for key ≡ some column
    → other.bundles_open ≡ b
    → other.favourites_only ≡ f
    → query_from (keep_what_is_shown other (direction_set d (set "sort" key []))) ≡ asked key d b f
unfolding query_from keep_what_is_shown
query_from-sorted key column true true true other e i j = rw (i, j, e) refl
query_from-sorted key column true true false other e i j = rw (i, j, e) refl
query_from-sorted key column true false true other e i j = rw (i, j, e) refl
query_from-sorted key column true false false other e i j = rw (i, j, e) refl
query_from-sorted key column false true true other e i j = rw (i, j, e) refl
query_from-sorted key column false true false other e i j = rw (i, j, e) refl
query_from-sorted key column false false true other e i j = rw (i, j, e) refl
query_from-sorted key column false false false other e i j = rw (i, j, e) refl

column_for-key_of : (column : Column) → column_for (key_of column) ≡ some column
unfolding column_for
column_for-key_of title = refl
column_for-key_of created = refl
column_for-key_of items = refl
column_for-key_of backed_up = refl
column_for-key_of mode_column = refl

-- The heading of a column is a link to the same page sorted by it: in the other direction where it is the
-- column in force, else in the column's own first direction, with the sections and the filter as they were.
pub query_from-link_for :
    (query : AlbumsQuery) (column : Column)
    → (effective (query_from (link_for query column)) ≡ (
      column,
      (if key_of ((effective query).0) == key_of column
          then not ((effective query).1)
          else descending_first column),
    ))
      × ((query_from (link_for query column)).bundles_open ≡ query.bundles_open)
      × ((query_from (link_for query column)).favourites_only ≡ query.favourites_only)
unfolding link_for effective
query_from-link_for query column =
    let d : Bool =
      if key_of ((effective query).0) == key_of column
      then not ((effective query).1)
      else descending_first column in
    let read : query_from (link_for query column)
        ≡ asked (key_of column) d query.bundles_open query.favourites_only =
      query_from-sorted (key_of column) column d query.bundles_open query.favourites_only query
        (column_for-key_of column) refl refl in
    (
      ap effective read ∙ ap (λ found. effective_of found d) (column_for-key_of column),
      ap (λ q. q.bundles_open) read,
      ap (λ q. q.favourites_only) read,
    )

query_from-kept :
    (key : String) (column : Column) (d b f : Bool)
    → (key == "") ≡ false
    → column_for key ≡ some column
    → query_from (keep (asked key d b f) []) ≡ asked key d b f
unfolding query_from keep keep_what_is_shown
query_from-kept key column true true true n e = rw (n, e) refl
query_from-kept key column true true false n e = rw (n, e) refl
query_from-kept key column true false true n e = rw (n, e) refl
query_from-kept key column true false false n e = rw (n, e) refl
query_from-kept key column false true true n e = rw (n, e) refl
query_from-kept key column false true false n e = rw (n, e) refl
query_from-kept key column false false true n e = rw (n, e) refl
query_from-kept key column false false false n e = rw (n, e) refl

query_from-unsorted : (b f : Bool) → query_from (keep (asked "" false b f) []) ≡ asked "" false b f
unfolding query_from keep keep_what_is_shown column_for
query_from-unsorted true true = refl
query_from-unsorted true false = refl
query_from-unsorted false true = refl
query_from-unsorted false false = refl

column_for-empty :
    (key : String) (column : Column) → column_for key ≡ some column → (key == "") ≡ false
unfolding column_for
column_for-empty key column e = elim (Bool-cases (key == "")) [
  | inl i ↦ ground (arith, subst (λ k. column_for k ≡ some column) ((==_iff key "").0 i) e)
  | inr i ↦ i
]

-- The query of any request, carried across a redirect, is read back whole: the column and its direction,
-- the open section and the filter.
pub query_from-keep :
    (values : List (String × String)) → query_from (keep (query_from values) []) ≡ query_from values
unfolding query_from
query_from-keep values =
    let key = get "sort" values in
    elim (Option-cases (column_for key)) [
      | inl e ↦
          rw e (
            query_from-unsorted (get "bundles" values == "open")
              (get "favourites" values == "only"))
      | inr (column, e) ↦ rw e (
          query_from-kept key column (get "dir" values == "desc") (get "bundles" values == "open")
            (get "favourites" values == "only") (column_for-empty key column e) e)
    ]
