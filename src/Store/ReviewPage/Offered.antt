-- ===== src/Store/ReviewPage/Offered.antt =====
-- internal/store/review.go: what the page of the queue offers is what waits for an answer.
use gpb.Common.{
  Bool, true, false, ◌&&◌, ◌||◌, ◌≡◌, refl, sym, ap, subst, ◌∙◌, inl, inr, List, [], ◌∷◌, map,
  String, ◌==◌, ==_iff, string_eq, contains, exists, exists-append, exists-sort_by, exists_and,
  exists-congr, select, find, find_holds, is_some, is_some-find, sort_by, arith, Bool-cases,
  Option-cases,
}
use gpb.Store.Rows.{
  State, discovered, missing_upstream, state_eq, mode_eq, AlbumRow, Row, Link, MediaItem, Db,
  scan_item,
}
use gpb.Store.Queue.{contains-keys_waiting, contains-map-select}
use gpb.Store.Review.{
  waiting_for_review, held_by_a_followed_album, keys_waiting_for_review, keys_waiting_in_state,
}
use gpb.Store.ReviewPage.{
  ReviewGroup, pairs, is_followed_by, is_flagged_in, joined, review_order, placed, group_rows,
  grouped_unless_empty, items_needing_review,
}

abbrev pub is_among : String → List MediaItem → Bool
is_among key items = exists (λ item. item.media_key == key) items

-- Some group lists an item of the key.
abbrev pub is_offered : String → List ReviewGroup → Bool
is_offered key groups = exists (λ g. is_among key g.items) groups

module _ (key : String) where
  is_offered-placed :
      (a : AlbumRow) (item : MediaItem) (groups : List ReviewGroup)
      → is_offered key (placed a item groups) ≡ (is_offered key groups || item.media_key == key)
  unfolding placed
  is_offered-placed a item [] = ground arith
  is_offered-placed a item (g ∷ []) = elim (Bool-cases (g.album_id == a.id)) [
    | inl e ↦ rw e (ground (arith, exists-append (λ i. i.media_key == key) g.items (item ∷ [])))
    | inr e ↦ rw e (ground arith)
  ]
  is_offered-placed a item (g ∷ h ∷ groups) = ground (arith, is_offered-placed a item (h ∷ groups))

  -- What a joined row adds: its key, where an item of that key was read.
  adds : List MediaItem → AlbumRow × Row → Bool
  adds by_key (a, mi) = mi.media_key == key && is_among key by_key

  is_offered-group_rows :
      (by_key : List MediaItem) (groups : List ReviewGroup) (rows : List (AlbumRow × Row))
      → is_offered key (group_rows by_key groups rows)
        ≡ (is_offered key groups || exists (adds by_key) rows)
  unfolding group_rows adds
  is_offered-group_rows by_key groups [] = ground arith
  is_offered-group_rows by_key groups ((a, mi) ∷ rows) =
      elim (Option-cases (find (λ item. item.media_key == mi.media_key) by_key)) [
        | inl e ↦
            let unread : is_among mi.media_key by_key ≡ false =
              sym (is_some-find (λ item. item.media_key == mi.media_key) by_key) ∙ ap is_some e in
            let nothing : (mi.media_key == key && is_among key by_key) ≡ false =
              elim (Bool-cases (mi.media_key == key)) [
                | inl i ↦
                    rw i (
                      subst (λ k. is_among k by_key ≡ false) ((==_iff mi.media_key key).0 i) unread)
                | inr i ↦ rw i refl
              ] in
            rw (e, nothing, group_rows) (is_offered-group_rows by_key groups rows)
        | inr (item, e) ↦
            let same : item.media_key ≡ mi.media_key =
              (==_iff item.media_key mi.media_key).0
                (find_holds (λ (i : MediaItem). i.media_key == mi.media_key) by_key item e) in
            let read : is_among mi.media_key by_key ≡ true =
              sym (is_some-find (λ item. item.media_key == mi.media_key) by_key) ∙ ap is_some e in
            let all : (mi.media_key == key && is_among key by_key) ≡ (item.media_key == key) =
              elim (Bool-cases (mi.media_key == key)) [
                | inl i ↦
                    rw (same, i)
                      (subst (λ k. is_among k by_key ≡ true) ((==_iff mi.media_key key).0 i) read)
                | inr i ↦ rw (same, i) refl
              ] in
            rw (e, all, group_rows)
              (ground (
                arith,
                is_offered-group_rows by_key (placed a item groups) rows,
                is_offered-placed a item groups,
              ))
      ]

  exists-pairs :
      (q : Row → Bool) (albums : List AlbumRow) (rows : List Row)
      → exists (λ j. q j.1) (pairs albums rows) ≡ (exists (λ a. true) albums && exists q rows)
  exists-pairs q [] rows = refl
  exists-pairs q (a ∷ albums) rows =
      exists-append (λ j. q j.1) (map (λ r. (a, r)) rows) (pairs albums rows)
      ∙ ground (arith, with_album rows, exists-pairs q albums rows)
    where
      with_album :
          (xs : List Row)
          → exists (λ (j : AlbumRow × Row). q j.1) (map (λ r. (a, r)) xs) ≡ exists q xs
      with_album [] = refl
      with_album (x ∷ xs) = ground (arith, with_album xs)

exists-select :
    {A : Type 0} (q p : A → Bool) (xs : List A)
    → exists q (select p xs) ≡ exists (λ x. p x && q x) xs
exists-select q p [] = refl
exists-select q p (x ∷ xs) = elim (Bool-cases (p x)) [
  | inl e ↦ rw e (ground (arith, exists-select q p xs))
  | inr e ↦ rw e (exists-select q p xs)
]

-- A row of the key that is flagged and in the state.
abbrev is_asked : State → String → Row → Bool
is_asked state key mi = is_flagged_in state mi && mi.media_key == key

same_key : (a b c : String) (f : Bool) → ((b == a && f) && b == c) ≡ ((f && b == c) && a == c)
same_key a b c f = elim (Bool-cases (b == a)) [
  | inl e ↦
      let p = (==_iff b a).0 e in
      rw (e) (subst (λ x. (f && x == c) ≡ ((f && x == c) && a == c)) (sym p) (ground arith))
  | inr e ↦ elim (Bool-cases (b == c)) [
    | inr i ↦ rw (e, i) (ground arith)
    | inl i ↦ elim (Bool-cases (a == c)) [
      | inr j ↦ rw (e, i, j) (ground arith)
      | inl j ↦
          let p : b ≡ a = (==_iff b c).0 i ∙ sym ((==_iff a c).0 j) in
          absurd (ground (arith, e, (==_iff b a).1 p))
    ]
  ]
]

exists-joined :
    (db : Db) (state : State) (key : String) (links : List Link)
    → exists (λ j. j.1.media_key == key) (joined db state links) ≡ (
        exists (λ ai. ai.media_key == key && exists (is_followed_by ai) db.albums) links
        && exists (is_asked state key) db.media_items)
unfolding joined
exists-joined db state key [] = refl
exists-joined db state key (ai ∷ links) =
    let albums = select (is_followed_by ai) db.albums in
    let rows =
      select (λ mi. mi.media_key == ai.media_key && is_flagged_in state mi) db.media_items in
    exists-append (λ j. j.1.media_key == key) (pairs albums rows) (joined db state links)
    ∙ ground (
      arith,
      exists-pairs key (λ r. r.media_key == key) albums rows,
      exists-select (λ a. true) (is_followed_by ai) db.albums,
      exists-congr (λ a. is_followed_by ai a && true) (is_followed_by ai) db.albums
          (λ a. ground arith),
      exists-select (λ r. r.media_key == key)
          (λ mi. mi.media_key == ai.media_key && is_flagged_in state mi) db.media_items,
      exists_and
          (λ mi. (mi.media_key == ai.media_key && is_flagged_in state mi) && mi.media_key == key)
          (is_asked state key) (ai.media_key == key) db.media_items
          (λ mi. same_key ai.media_key mi.media_key key (is_flagged_in state mi)),
      exists-joined db state key links,
    )

-- A waiting row of the key is one that is asked about, of an item that a followed album holds.
waiting-key :
    (db : Db) (state : State) (key : String) (r : Row)
    → (waiting_for_review db state r && r.media_key == key)
      ≡ (is_asked state key r && held_by_a_followed_album db key)
unfolding waiting_for_review
waiting-key db state key r = elim (Bool-cases (r.media_key == key)) [
  | inl e ↦
      let p = sym ((==_iff r.media_key key).0 e) in
      subst
        (λ k.
          (waiting_for_review db state r && r.media_key == k)
          ≡ (is_asked state k r && held_by_a_followed_album db k))
        (sym p) (ground arith)
  | inr e ↦ rw e (ground arith)
]

is_among-scan_item :
    (key : String) (p : Row → Bool) (rows : List Row)
    → is_among key (map scan_item (select p rows)) ≡ exists (λ r. p r && r.media_key == key) rows
unfolding scan_item
is_among-scan_item key p [] = refl
is_among-scan_item key p (r ∷ rows) = elim (Bool-cases (p r)) [
  | inl e ↦ rw e (ground (arith, is_among-scan_item key p rows))
  | inr e ↦ rw e (is_among-scan_item key p rows)
]

grouped-offers :
    (db : Db) (state : State) (key : String) (by_key : List MediaItem)
    → is_offered key (grouped_unless_empty db state by_key)
      ≡ (exists (λ j. j.1.media_key == key) (joined db state db.album_items) && is_among key by_key)
unfolding adds
grouped-offers db state key [] = ground arith
grouped-offers db state key (item ∷ items) =
    is_offered-group_rows key (item ∷ items) [] (sort_by review_order rows)
    ∙ exists-sort_by review_order (adds key (item ∷ items)) rows
    ∙ exists_and (adds key (item ∷ items)) (λ j. j.1.media_key == key) (is_among key (item ∷ items))
        rows (λ j. refl)
  where
    rows : List (AlbumRow × Row)
    rows = joined db state db.album_items

offers-waiting :
    (db : Db) (state : State) (key : String)
    → is_offered key (items_needing_review db state)
      ≡ exists (λ r. waiting_for_review db state r && r.media_key == key) db.media_items
unfolding items_needing_review held_by_a_followed_album
offers-waiting db state key = ground (
  arith,
  grouped-offers db state key (map scan_item (select (waiting_for_review db state) db.media_items)),
  exists-joined db state key db.album_items,
  is_among-scan_item key (waiting_for_review db state) db.media_items,
  exists_and (λ r. waiting_for_review db state r && r.media_key == key) (is_asked state key)
      (held_by_a_followed_album db key) db.media_items (waiting-key db state key),
)

key_waits :
    (db : Db) (state : State) (key : String)
    → contains key (keys_waiting_in_state db (key ∷ []) state)
      ≡ exists (λ r. waiting_for_review db state r && r.media_key == key) db.media_items
unfolding keys_waiting_for_review
key_waits db state key =
    contains-map-select (λ r. waiting_for_review db state r && contains r.media_key (key ∷ [])) key
      db.media_items
    ∙ exists-congr _ _ db.media_items
        (λ r. ground (arith, ==_iff key r.media_key, ==_iff r.media_key key))

-- The page of a state lists an item just where a row of its key is flagged, in that state, and held by an
-- album that somebody follows, which is what CountNeedingReview counts. And a decision on a key is let
-- through just where the page of new items or the page of lost ones lists it.
pub items_needing_review-offers :
    (db : Db) (state : State) (key : String)
    → (is_offered key (items_needing_review db state)
        ≡ exists (λ r. waiting_for_review db state r && r.media_key == key) db.media_items)
      × (contains key (keys_waiting_for_review db (key ∷ [])) ≡ (
          is_offered key (items_needing_review db discovered)
          || is_offered key (items_needing_review db missing_upstream)))
items_needing_review-offers db state key = (
  offers-waiting db state key,
  contains-keys_waiting db (key ∷ []) key
      ∙ ground (
        arith,
        key_waits db discovered key,
        key_waits db missing_upstream key,
        offers-waiting db discovered key,
        offers-waiting db missing_upstream key,
      ),
)
