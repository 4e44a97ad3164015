-- ===== src/Store/Work.antt =====
-- The work list of a run (Pending and AlbumForItem, internal/store/items.go).
use Prim.Native.String.{compare as compare_text}
use mathlib.Core.List.{Perm}
use gpb.Common.{
  ℕ, ◌<◌, ◌≡◌, ◌≢◌, ◌↔◌, refl, sym, ap, ◌∙◌, inl, inr, Bool, true, false, not, ltb, ◌&&◌, Option,
  none, some, not_after, compare_bool, compare_option, compare, sort_by, ◌⊎◌, subst, List, [], ◌∷◌,
  map, String, arith, ◌==◌, string_eq, is_some, exists, select, minimum, All, All-sort_by,
  All-select, All-take, sort_by-perm, sort_by-IsOrdered_comparison, IsOrdered, reversed, then_by,
  reversed-compare, reversed-compare_bool, reversed-compare_option, take, Ordering, Bool-cases,
  Option-cases,
}
use gpb.Store.Rows.{
  State, discovered, queued, downloading, failed, done, missing_upstream, state_eq, Row, Link, Db,
  scan_item,
}
use gpb.Store.Membership.{
  pending, pending_order, is_owed, is_live, in_the_sync_set, in_a_favourite_album, album_for_item,
  albums_wanting, wanted_through,
}

combine :
    (f g a b c d : Ordering)
    → f ≡ reversed g
    → a ≡ reversed b
    → c ≡ reversed d
    → then_by (reversed f) (then_by (reversed a) c)
      ≡ reversed (then_by (reversed g) (then_by (reversed b) d))
combine f g a b c d hf ha hc = ground arith

pending_order-reversed :
    (db : Db) (a b : Row) → pending_order db b a ≡ reversed (pending_order db a b)
unfolding pending_order
pending_order-reversed db a b =
    combine _ _ _ _ _ _
      (reversed-compare_bool (in_a_favourite_album db a.media_key)
        (in_a_favourite_album db b.media_key))
      (reversed-compare_option a.captured_at b.captured_at)
      (reversed-compare a.media_key b.media_key)

-- What a row needs to be owed: not backed up, not written off, under the failure limit, in the sync set.
abbrev pub is_wanted : Db → ℕ → Row → Bool
is_wanted db max_failures r =
    not (r.state == done)
    && not (r.state == missing_upstream)
    && ltb r.fail_count max_failures
    && in_the_sync_set db r.media_key

is_live_lem : (s : State) → is_live s ≡ (not (s == done) && not (s == missing_upstream))
unfolding is_live
is_live_lem discovered = refl
is_live_lem queued = refl
is_live_lem downloading = refl
is_live_lem failed = refl
is_live_lem done = refl
is_live_lem missing_upstream = refl

is_owed-is_wanted :
    (db : Db) (max_failures : ℕ) (r : Row) → is_owed db max_failures r ≡ is_wanted db max_failures r
unfolding is_owed
is_owed-is_wanted db max_failures r = ground (arith, is_live_lem r.state)

select-congr :
    (p q : Row → Bool) (rows : List Row) → ((r : Row) → p r ≡ q r) → select p rows ≡ select q rows
select-congr p q [] h = refl
select-congr p q (r ∷ rows) h = elim (Bool-cases (q r)) [
  | inl e ↦ rw (h r, e) (ap (λ rs. r ∷ rs) (select-congr p q rows h))
  | inr e ↦ rw (h r, e) (select-congr p q rows h)
]

-- Of two dates the first is the later; no date is earlier than every date.
abbrev pub IsLater : Option ℕ → Option ℕ → Type 0
IsLater (some s) (some t) = t < s
IsLater (some s) none = Unit
IsLater none t = ⊥

-- A row may stand right before another: its item is in a favourite album and the other's is not, or they
-- are alike in that and it was captured later, or at the same time and its key is not after the other's.
abbrev pub MayPrecede : Db → Row → Row → Type 0
MayPrecede db a b =
    let first = in_a_favourite_album db a.media_key in
    let second = in_a_favourite_album db b.media_key in
    ((first ≡ true) × (second ≡ false))
    ⊎ ((first ≡ second) × IsLater a.captured_at b.captured_at)
    ⊎ ((first ≡ second)
        × (a.captured_at ≡ b.captured_at)
        × (not_after (compare_text a.media_key b.media_key) ≡ true))

abbrev pub IsInOrder : Db → List Row → Type 0
IsInOrder db [] = Unit
IsInOrder db (a ∷ []) = Unit
IsInOrder db (a ∷ b ∷ rows) = MayPrecede db a b × IsInOrder db (b ∷ rows)

captured_cases :
    (a b : Option ℕ)
    → ((compare_option compare a b ≡ Ordering.gt) × IsLater a b)
      ⊎ ((compare_option compare a b ≡ Ordering.eq) × (a ≡ b))
      ⊎ (compare_option compare a b ≡ Ordering.lt)
captured_cases none none = inr (inl (refl, refl))
captured_cases none (some t) = inr (inr refl)
captured_cases (some s) none = inl (refl, tt)
captured_cases (some s) (some t) = ground arith

favourite_cases :
    (a b : Bool)
    → ((compare_bool a b ≡ Ordering.gt) × (a ≡ true) × (b ≡ false))
      ⊎ ((compare_bool a b ≡ Ordering.eq) × (a ≡ b))
      ⊎ (compare_bool a b ≡ Ordering.lt)
favourite_cases a b = ground arith

pending_order-MayPrecede :
    (db : Db) (a b : Row) → not_after (pending_order db a b) ≡ true → MayPrecede db a b
unfolding pending_order
pending_order-MayPrecede db a b h =
    let f =
      favourite_cases (in_a_favourite_album db a.media_key) (in_a_favourite_album db b.media_key) in
    let c = captured_cases a.captured_at b.captured_at in
    elim f [
      | inl e ↦ inl (e.1, e.2)
      | inr (inr e) ↦ absurd (ground (arith, rw e at h))
      | inr (inl e) ↦ elim c [
        | inl d ↦ inr (inl (e.1, d.1))
        | inr (inr d) ↦ absurd (ground (arith, rw (e.0, d) at h))
        | inr (inl d) ↦ inr (inr (e.1, d.1, rw (e.0, d.0) at h))
      ]
    ]

IsOrdered-IsInOrder :
    (db : Db) (rows : List Row) → IsOrdered (pending_order db) rows → IsInOrder db rows
IsOrdered-IsInOrder db [] h = tt
IsOrdered-IsInOrder db (a ∷ []) h = tt
IsOrdered-IsInOrder db (a ∷ b ∷ rows) h =
    (pending_order-MayPrecede db a b h.0, IsOrdered-IsInOrder db (b ∷ rows) h.1)

-- The work list is the first `limit` of the rows that are owed, each of them once: those neither backed
-- up nor written off, that failed less often than the failure limit, whose items are in the sync set. They
-- stand in this order: items of favourite albums first, among those alike the newest capture first, with
-- no capture date last, and for equal dates by their keys.
pub pending_rows_lem :
    (db : Db) (max_failures limit : ℕ)
    → (rows : List Row) × (pending db max_failures limit ≡ map scan_item (take limit rows))
      × Perm rows (select (is_wanted db max_failures) db.media_items)
      × All (λ r. is_wanted db max_failures r ≡ true) (take limit rows)
      × IsInOrder db rows
unfolding pending
pending_rows_lem db max_failures limit =
    let owed = select (is_wanted db max_failures) db.media_items in
    let same =
      select-congr (is_owed db max_failures) (is_wanted db max_failures) db.media_items
        (is_owed-is_wanted db max_failures) in
    (
      sort_by (pending_order db) owed,
      ap (λ rows. map scan_item (take limit (sort_by (pending_order db) rows))) same,
      sort_by-perm (pending_order db) owed,
      All-take _ limit _ (
          All-sort_by (pending_order db) _ owed
            (All-select (is_wanted db max_failures) db.media_items)),
      IsOrdered-IsInOrder db _
          (sort_by-IsOrdered_comparison (pending_order db) owed (pending_order-reversed db)),
    )

minimum-cons :
    (x : String) (xs : List String) (y : String)
    → minimum (x ∷ xs) ≡ some y
    → (x ≡ y) ⊎ (minimum xs ≡ some y)
minimum-cons x xs y h = ground arith

minimum-holds {κ} :
    (P : String → Type κ) (xs : List String) (y : String) → All P xs → minimum xs ≡ some y → P y
minimum-holds P [] y a h = absurd (cc)
minimum-holds P (x ∷ xs) y a h = elim (minimum-cons x xs y h) [
  | inl e ↦ subst P e a.0
  | inr e ↦ minimum-holds P xs y a.1 e
]

is_some-minimum :
    (q : Link → Bool) (links : List Link)
    → is_some (minimum (map (λ (l : Link). l.album_id) (select q links))) ≡ exists q links
is_some-minimum q [] = refl
is_some-minimum q (l ∷ links) = ground (arith, is_some-minimum q links)

All-album_id :
    (q : Link → Bool) (links : List Link)
    → All (λ l. l.album_id ≢ "") links
    → All (λ id. id ≢ "") (map (λ (l : Link). l.album_id) (select q links))
All-album_id q [] a = tt
All-album_id q (l ∷ links) a = elim (Bool-cases (q l)) [
  | inl e ↦ rw e (a.0, All-album_id q links a.1)
  | inr e ↦ rw e (All-album_id q links a.1)
]

-- Where no album has the empty id, the download path finds an album for exactly the items of the
-- sync set, so an item on the work list is skipped only if the set has changed since.
pub album_for_item_iff :
    (db : Db) (key : String)
    → All (λ l. l.album_id ≢ "") db.album_items
    → (album_for_item db key ≢ "") ↔ (in_the_sync_set db key ≡ true)
unfolding album_for_item in_the_sync_set
album_for_item_iff db key a = (found, covered)
  where
    wanting : Link → Bool
    wanting ai = ai.media_key == key && exists (wanted_through db ai) db.albums

    agrees : is_some (minimum (albums_wanting db key)) ≡ in_the_sync_set db key
    agrees = is_some-minimum wanting db.album_items

    found : album_for_item db key ≢ "" → in_the_sync_set db key ≡ true
    found h = elim (Option-cases (minimum (albums_wanting db key))) [
      | inl e ↦ absurd (h (ground (arith, e)))
      | inr (y, e) ↦ sym agrees ∙ ground (arith, e)
    ]

    covered : in_the_sync_set db key ≡ true → album_for_item db key ≢ ""
    covered h = elim (Option-cases (minimum (albums_wanting db key))) [
      | inl e ↦ absurd (ground (arith, e, agrees))
      | inr (y, e) ↦ λ empty.
          minimum-holds (λ id. id ≢ "") (albums_wanting db key) y
            (All-album_id wanting db.album_items a) e (ground (arith, e, empty))
    ]
