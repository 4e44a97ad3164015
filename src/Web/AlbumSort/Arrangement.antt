-- ===== src/Web/AlbumSort/Arrangement.antt =====
-- internal/web/albumsort.go: what a sorted album list looks like.
use gpb.Common.{
  ℕ, Ordering, compare, Bool, true, false, not, ◌≡◌, refl, sym, ap, List, [], ◌∷◌, ◌++◌, String,
  if◌then◌else◌, then_by, reversed, not_after, compare_bool, sort_by, sort_by-perm,
  sort_by-IsOrdered_comparison, IsOrdered, reversed-then_by, reversed-compare_bool,
  reversed-compare, All, arith, Bool-cases, inl, inr,
}
use mathlib.Core.List.{Perm}
use Prim.Native.String.{compare as compare_text}
use gpb.Web.AlbumSort.{
  AlbumRow, AlbumsQuery, Column, title, created, items, backed_up, mode_column, is_missing,
  unfollowed, effective, unchosen, by_title, compare_by, in_direction, row_order, sort,
}

reversed-compare_ℕ : (m n : ℕ) → compare n m ≡ reversed (compare m n)
reversed-compare_ℕ m n = ground arith

reversed-chain :
    (a b c d : Ordering)
    → then_by (reversed a) (then_by (reversed b) (then_by (reversed c) (reversed d)))
      ≡ reversed (then_by a (then_by b (then_by c d)))
reversed-chain a b c d = ground arith

starred-first :
    (a b : Bool) (o : Ordering)
    → not_after (then_by (compare_bool a b) o) ≡ true
    → a ≡ true
    → b ≡ true
starred-first a b o h i = ground (arith, h, i)

-- Where the first two comparisons tie, the third decides.
chain-missing :
    (s t pins u v p q x y : Bool) (o : Ordering)
    → s ≡ t
    → u ≡ v
    → x ≡ p
    → y ≡ q
    → p ≡ not q
    → then_by
        (compare_bool s t)
        (then_by (if pins then compare_bool u v else Ordering.eq) (then_by (compare_bool x y) o))
      ≡ compare_bool p q
chain-missing s t pins u v p q x y o e f g h i = ground (arith, e, f, g, h, i)

module _ {A : Type 0} (c : A → A → Ordering) (later : A → Bool)
    (first : (a b : A) → not_after (c a b) ≡ true → later a ≡ true → later b ≡ true) where
  all_later :
      (x : A) (xs : List A) → IsOrdered c (x ∷ xs) → later x ≡ true → All (λ y. later y ≡ true) xs
  all_later x [] h l = tt
  all_later x (y ∷ xs) h l = (first x y h.0 l, all_later y xs h.1 (first x y h.0 l))

  IsOrdered-rest : (x : A) (xs : List A) → IsOrdered c (x ∷ xs) → IsOrdered c xs
  IsOrdered-rest x [] h = tt
  IsOrdered-rest x (y ∷ xs) h = h.1

  -- An ordered list is cut where the later rows begin.
  parted :
      (xs : List A)
      → IsOrdered c xs
      → (front : List A) × (back : List A) × (xs ≡ front ++ back)
        × All (λ x. later x ≡ false) front
        × All (λ x. later x ≡ true) back
  parted [] h = ([], [], refl, tt, tt)
  parted (x ∷ xs) h = elim (Bool-cases (later x)) [
    | inl e ↦ ([], x ∷ xs, refl, tt, (e, all_later x xs h e))
    | inr e ↦
        let (front, back, cut, f, b) = parted xs (IsOrdered-rest x xs h) in
        (x ∷ front, back, ap (λ rest. x ∷ rest) cut, (e, f), b)
  ]

module _ (to_lower : String → String) where
  reversed-by_title : (a b : AlbumRow) → by_title to_lower b a ≡ reversed (by_title to_lower a b)
  reversed-by_title a b =
      rw
        (
          reversed-compare (to_lower a.display_title) (to_lower b.display_title),
          reversed-compare a.id b.id,
        )
        (reversed-then_by (compare_text (to_lower a.display_title) (to_lower b.display_title))
          (compare_text a.id b.id))

  reversed-compare_by :
      (column : Column) (a b : AlbumRow)
      → compare_by to_lower column b a ≡ reversed (compare_by to_lower column a b)
  unfolding compare_by
  reversed-compare_by title a b = reversed-by_title a b
  reversed-compare_by created a b =
      rw (reversed-by_title a b, reversed-compare_ℕ a.created_at b.created_at)
        (reversed-then_by (compare a.created_at b.created_at) (by_title to_lower a b))
  reversed-compare_by items a b =
      rw (reversed-by_title a b, reversed-compare_ℕ a.item_count b.item_count)
        (reversed-then_by (compare a.item_count b.item_count) (by_title to_lower a b))
  reversed-compare_by backed_up a b =
      rw (reversed-by_title a b, reversed-compare_ℕ a.done b.done)
        (reversed-then_by (compare a.done b.done) (by_title to_lower a b))
  reversed-compare_by mode_column a b =
      rw (reversed-by_title a b, reversed-compare_bool (unfollowed a.mode) (unfollowed b.mode))
        (reversed-then_by (compare_bool (unfollowed a.mode) (unfollowed b.mode))
          (by_title to_lower a b))

  reversed-in_direction :
      (descending : Bool) (column : Column) (a b : AlbumRow)
      → in_direction to_lower descending column b a
        ≡ reversed (in_direction to_lower descending column a b)
  reversed-in_direction true column a b = reversed-compare_by column b a
  reversed-in_direction false column a b = reversed-compare_by column a b

  reversed-pinned :
      (pins : Bool) (a b : AlbumRow)
      → (if pins then compare_bool (unfollowed b.mode) (unfollowed a.mode) else Ordering.eq)
        ≡ reversed
            (if pins then compare_bool (unfollowed a.mode) (unfollowed b.mode) else Ordering.eq)
  reversed-pinned true a b = reversed-compare_bool (unfollowed a.mode) (unfollowed b.mode)
  reversed-pinned false a b = refl

  reversed-row_order :
      (query : AlbumsQuery) (a b : AlbumRow)
      → row_order to_lower query b a ≡ reversed (row_order to_lower query a b)
  unfolding row_order
  reversed-row_order query a b =
      rw
        (
          reversed-compare_bool (not a.favourite) (not b.favourite),
          reversed-pinned (unchosen query) a b,
          reversed-compare_bool (is_missing ((effective query).0) a)
              (is_missing ((effective query).0) b),
          reversed-in_direction ((effective query).1) ((effective query).0) a b,
        )
        (reversed-chain (compare_bool (not a.favourite) (not b.favourite))
          (if unchosen query
            then compare_bool (unfollowed a.mode) (unfollowed b.mode)
            else Ordering.eq)
          (compare_bool (is_missing ((effective query).0) a) (is_missing ((effective query).0) b))
          (in_direction to_lower ((effective query).1) ((effective query).0) a b))

  favourite-first :
      (query : AlbumsQuery) (a b : AlbumRow)
      → not_after (row_order to_lower query a b) ≡ true
      → not a.favourite ≡ true
      → not b.favourite ≡ true
  unfolding row_order
  favourite-first query a b h i = starred-first (not a.favourite) (not b.favourite) _ h i

  -- The list is the same rows, each not after the next in the order of its query, and the favourites are
  -- at its front, whatever column and direction was asked for.
  pub sort_lem :
      (query : AlbumsQuery) (rows : List AlbumRow)
      → Perm (sort to_lower query rows) rows
        × IsOrdered (row_order to_lower query) (sort to_lower query rows)
        × ((starred : List AlbumRow) × (others : List AlbumRow) × (sort to_lower query rows
              ≡ starred ++ others)
            × All (λ row. not row.favourite ≡ false) starred
            × All (λ row. not row.favourite ≡ true) others)
  unfolding sort
  sort_lem query rows =
      let ordered =
        sort_by-IsOrdered_comparison (row_order to_lower query) rows (reversed-row_order query) in
      (
        sort_by-perm (row_order to_lower query) rows,
        ordered,
        parted (row_order to_lower query) (λ row. not row.favourite) (favourite-first query)
            (sort_by (row_order to_lower query) rows) ordered,
      )

  -- Of two rows alike in star and in being followed, the one without a value in the column in force is
  -- after the other, in both directions.
  pub row_order-missing :
      (query : AlbumsQuery) (a b : AlbumRow)
      → a.favourite ≡ b.favourite
      → unfollowed a.mode ≡ unfollowed b.mode
      → is_missing ((effective query).0) a ≡ true
      → is_missing ((effective query).0) b ≡ false
      → (row_order to_lower query a b ≡ Ordering.gt) × (row_order to_lower query b a ≡ Ordering.lt)
  unfolding row_order
  row_order-missing query a b f m i j = (
    chain-missing (not a.favourite) (not b.favourite) (unchosen query) (unfollowed a.mode)
        (unfollowed b.mode) true false (is_missing ((effective query).0) a)
        (is_missing ((effective query).0) b) _ (ap not f) m i j refl,
    chain-missing (not b.favourite) (not a.favourite) (unchosen query) (unfollowed b.mode)
        (unfollowed a.mode) false true (is_missing ((effective query).0) b)
        (is_missing ((effective query).0) a) _ (ap not (sym f)) (sym m) j i refl,
  )
