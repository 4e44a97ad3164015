-- ===== src/Syncer/Library/Departures.antt =====
-- What the listing of the library (internal/syncer/library.go) takes for gone.
use gpb.Common.{
  ℕ, zero, suc, ◌≤◌, ◌≡◌, ◌⊎◌, refl, ap, inl, inr, Bool, true, false, ◌&&◌, not, none, some, List,
  [], ◌∷◌, String, arith, ◌==◌, ==_iff, ==_refl, nat_eq, string_eq, contains, exists, All, All-map,
  length, Bool-cases, Option-cases,
}
use gpb.Store.Rows.{Db, Album, library_id}
use gpb.Store.Membership.{album_members}
use gpb.Syncer.Source.{Listed, Source}
use gpb.Syncer.Library.{
  reconcilable, departures, Walk, record_page, Ending, whole, walked, page_ends, walk_pages,
  vouched_from, finish_walk, list_library, walks_new_only,
}
use gpb.Syncer.Library.Timeline.{Pages, last, more, AllPages, IsTimeline, IsSafe, AllPages-map}
use gpb.Syncer.Library.Coverage.{
  seen-record_page, recorded, seen-walk-IsSafe, page_ends-IsSafe, page_ends-last,
}

-- Exactly the members that the walk was obliged to see and did not see depart.
pub departures_lem :
    (members : List (String × ℕ)) (seen : List String) (floor : ℕ) (key : String)
    → contains key (departures members seen floor)
      ≡ (exists (λ m. m.0 == key && reconcilable m.1 floor) members && not (contains key seen))
unfolding departures
departures_lem [] seen floor key = refl
departures_lem ((k, captured) ∷ members) seen floor key = elim (Bool-cases (k == key)) [
  | inl e ↦
      let p : k ≡ key = (==_iff k key).0 e in
      rw p (ground (arith, ==_refl key, departures_lem members seen floor key))
  | inr e ↦ ground (arith, e, departures_lem members seen floor key)
]

-- What the walk was told of the item when it began is not what the timeline serves of it now.
unfoldable pub is_stale : List (String × ℕ) → Listed → Bool
is_stale members y = exists (λ m. m.0 == y.media_key && not (m.1 == y.captured_at)) members

exists-stale :
    (members : List (String × ℕ)) (y : Listed) (floor : ℕ)
    → reconcilable y.captured_at floor ≡ false
    → exists (λ m. m.0 == y.media_key && reconcilable m.1 floor) members ≡ true
    → is_stale members y ≡ true
unfolding is_stale
exists-stale [] y floor n h = h
exists-stale ((key, captured) ∷ members) y floor n h =
    elim (Bool-cases (captured == y.captured_at)) [
      | inl e ↦
          let p : captured ≡ y.captured_at = (==_iff captured y.captured_at).0 e in
          ground (arith, e, ap (λ c. reconcilable c floor) p, exists-stale members y floor n, h)
      | inr e ↦ ground (arith, e, exists-stale members y floor n, h)
    ]

covered_here :
    (since at : ℕ) (ending : Ending) (items : List Listed) (w w' : Walk)
    → ((key : String)
        → contains key (record_page since at items w).seen ≡ true
        → contains key w'.seen ≡ true)
    → All (IsSafe since ending w') items
covered_here since at ending items w w' keep =
    All-map _ _ items
      (λ y c. seen-walk-IsSafe since ending w' y (ground (arith, c, keep y.media_key)))
      (recorded since at items w)

walk_pages-IsSafe :
    (source : Source) (new_only : Bool) (since at : ℕ) (members : List (String × ℕ)) (fuel : ℕ)
    (token : String) (w : Walk) {pages : List (List Listed)} (served : Pages source token pages)
    → IsTimeline pages
    → length pages ≤ fuel
    → (ending : Ending) × (w' : Walk) × (walk_pages source new_only since at members fuel token w
        ≡ some (walked ending w'))
      × ((key : String) → contains key w.seen ≡ true → contains key w'.seen ≡ true)
      × AllPages (IsSafe since ending w') pages
unfolding walk_pages
walk_pages-IsSafe source new_only since at members zero token w (last page _ _) t le =
    ground (arith, le)
walk_pages-IsSafe source new_only since at members zero token w (more page _ _ _) t le =
    ground (arith, le)
walk_pages-IsSafe source new_only since at members (suc fuel) token w (last page answered stop) t
      le =
    let ends = page_ends-last new_only since members page stop in
    (
      whole,
      record_page since at page.items w,
      rw (answered, walk_pages) (rw ends refl),
      seen-record_page since at page.items w,
      (
        covered_here since at whole page.items w (record_page since at page.items w) (λ key h. h),
        tt,
      ),
    )
walk_pages-IsSafe source new_only since at members (suc fuel) token w (more page answered goes rest)
      t le =
    elim (Option-cases (page_ends new_only since members page)) [
      | inl e ↦
          let next =
            walk_pages-IsSafe source new_only since at members fuel page.next_token
              (record_page since at page.items w) rest t.1 (ground (arith, le)) in
          (
            next.0,
            next.1,
            rw (answered, walk_pages) (rw e next.2),
            (λ key h. next.3 key (seen-record_page since at page.items w key h)),
            (covered_here since at next.0 page.items w next.1 next.3, next.4),
          )
      | inr (ending, e) ↦ (
        ending,
        record_page since at page.items w,
        rw (answered, walk_pages) (rw e refl),
        seen-record_page since at page.items w,
        (
          covered_here since at ending page.items w (record_page since at page.items w)
              (λ key h. h),
          page_ends-IsSafe new_only since members page ending (record_page since at page.items w) _
              goes e t.0,
        ),
      )
    ]

safe-departures :
    (since : ℕ) (ending : Ending) (w : Walk) (members : List (String × ℕ)) (y : Listed)
    → IsSafe since ending w y
    → (contains y.media_key (departures members w.seen (vouched_from since ending)) ≡ false)
      ⊎ (is_stale members y ≡ true)
unfolding is_stale
safe-departures since ending w members y safe = ground (
  arith,
  departures_lem members w.seen (vouched_from since ending) y.media_key,
  safe,
  exists-stale members y (vouched_from since ending),
)

-- Over a timeline served page by page without a failure, newest first up to the wobble, the listing
-- of the library returns, and it reconciles by a list of departures in which no item of the timeline
-- stands, unless the capture that the tables held of it had become another.
pub list_library-safe :
    (source : Source) (library : Album) (at fuel : ℕ) (db : Db) {pages : List (List Listed)}
    → Pages source "" pages
    → IsTimeline pages
    → length pages ≤ fuel
    → (ending : Ending) × (w : Walk) × (list_library source fuel library at db
        ≡ some
            (finish_walk library.since at (album_members db library_id) ending w, w.listed, none))
      × AllPages
          (λ y.
            (contains y.media_key (
                departures (album_members db library_id) w.seen (vouched_from library.since ending))
              ≡ false)
            ⊎ (is_stale (album_members db library_id) y ≡ true))
          pages
unfolding list_library
list_library-safe source library at fuel db served t le =
    let run =
      walk_pages-IsSafe source (walks_new_only library at) library.since at
        (album_members db library_id) fuel "" (record { db = db; seen = []; listed = 0 }) served t
        le in
    (
      run.0,
      run.1,
      rw (run.2, list_library) refl,
      AllPages-map _ _ _
          (λ y safe. safe-departures library.since run.0 run.1 (album_members db library_id) y safe)
          run.4,
    )
