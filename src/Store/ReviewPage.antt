-- ===== src/Store/ReviewPage.antt =====
-- internal/store/review.go: the page of the queue (ItemsNeedingReview), grouped by album.
pub mod Offered
use Prim.Native.String.{compare as compare_text}
use gpb.Common.{
  ℕ, Bool, true, false, ◌&&◌, ◌||◌, not, ◌≡◌, refl, sym, ap, subst, ◌∙◌, inl, inr, Option, none,
  some, List, [], ◌∷◌, ◌++◌, map, String, ◌==◌, ==_iff, string_eq, if◌then◌else◌, exists,
  exists-append, exists-sort_by, exists-congr, exists_and, select, find, find_holds, is_some,
  is_some-find, sort_by, then_by, reversed, compare_option, compare, Ordering, arith, Bool-cases,
  Option-cases,
}
use gpb.Store.Rows.{
  State, state_eq, sync_none, mode_eq, AlbumKind, AlbumRow, Row, Link, MediaItem, Db, scan_item,
}
use gpb.Store.Review.{waiting_for_review, held_by_a_followed_album}

pub record ReviewGroup : Type 0 where
  pub album_id : String
  pub title : String
  pub kind : AlbumKind
  pub owner : String
  pub owned_by_me : Bool
  pub items : List MediaItem

-- Each of some albums with each of some items.
abbrev pairs : List AlbumRow → List Row → List (AlbumRow × Row)
pairs [] rows = []
pairs (a ∷ albums) rows = map (λ r. (a, r)) rows ++ pairs albums rows

abbrev is_followed_by : Link → AlbumRow → Bool
is_followed_by ai a = a.id == ai.album_id && not (a.sync_mode == sync_none)

abbrev is_flagged_in : State → Row → Bool
is_flagged_in state mi = mi.needs_review && mi.state == state

-- The FROM and the WHERE of groupForReview.
unfoldable pub joined : Db → State → List Link → List (AlbumRow × Row)
joined db state [] = []
joined db state (ai ∷ links) =
    pairs (select (is_followed_by ai) db.albums)
      (select (λ mi. mi.media_key == ai.media_key && is_flagged_in state mi) db.media_items)
    ++ joined db state links

-- Its ORDER BY.
unfoldable pub review_order : AlbumRow × Row → AlbumRow × Row → Ordering
review_order (a, mi) (b, other) = then_by (compare_text a.title b.title) (
    then_by (compare_text a.id b.id) (
      then_by (reversed (compare_option compare mi.captured_at other.captured_at))
        (compare_text mi.media_key other.media_key)))

abbrev group_of : AlbumRow → MediaItem → ReviewGroup
group_of a item = record {
  album_id = a.id;
  title = a.title;
  kind = a.kind;
  owner = a.owner_name;
  owned_by_me = a.owner_is_account;
  items = item ∷ [];
}

-- An item at the end of the last group, or in a new group where that is of another album.
unfoldable pub placed : AlbumRow → MediaItem → List ReviewGroup → List ReviewGroup
placed a item [] = group_of a item ∷ []
placed a item (g ∷ []) =
    if g.album_id == a.id
    then record g { items = g.items ++ item ∷ [] } ∷ []
    else g ∷ group_of a item ∷ []
placed a item (g ∷ h ∷ groups) = g ∷ placed a item (h ∷ groups)

-- The loop of groupForReview.
unfoldable pub group_rows :
    List MediaItem → List ReviewGroup → List (AlbumRow × Row) → List ReviewGroup
unfolding placed
group_rows by_key groups [] = groups
group_rows by_key groups ((a, mi) ∷ rows) =
    elim (find (λ item. item.media_key == mi.media_key) by_key) [
      | none ↦ group_rows by_key groups rows
      | some item ↦ group_rows by_key (placed a item groups) rows
    ]

abbrev grouped_unless_empty : Db → State → List MediaItem → List ReviewGroup
grouped_unless_empty db state [] = []
grouped_unless_empty db state (item ∷ items) =
    group_rows (item ∷ items) [] (sort_by review_order (joined db state db.album_items))

-- ItemsNeedingReview
unfoldable pub items_needing_review : Db → State → List ReviewGroup
unfolding group_rows joined review_order waiting_for_review
items_needing_review db state =
    grouped_unless_empty db state
      (map scan_item (select (waiting_for_review db state) db.media_items))
