-- ===== src/Syncer/Library/Coverage.antt =====
-- What a walk of internal/syncer/library.go sees of each page, and what the tests after a page are
-- right about.
use gpb.Common.{
  ℕ, ◌+◌, ◌<◌, ◌≡◌, ◌≢◌, ◌⊎◌, refl, ap, inl, inr, Bool, true, false, some, List, [], ◌∷◌, String,
  arith, ◌==◌, ==_iff, ==_refl, nat_eq, string_eq, contains, exists, All, All-map, Bool-cases,
}
use gpb.Syncer.Source.{Listed, ItemPage}
use gpb.Syncer.Library.{
  older_than, reconcilable, Walk, record_page, Ending, whole, bound, held, page_ends, vouched_from,
  later, reconcilable_from, boundary_wobble, known_ground, known_ground_from, oldest_with,
  held_ending, walked_past_the_bound,
}
use gpb.Syncer.Library.Timeline.{Follows, AllPages, IsSafe, AllPages-map}

-- What recording a page keeps of the keys seen, and what it adds.
pub seen-record_page :
    (since at : ℕ) (items : List Listed) (w : Walk) (key : String)
    → contains key w.seen ≡ true
    → contains key (record_page since at items w).seen ≡ true
unfolding record_page
seen-record_page since at [] w key h = h
seen-record_page since at (item ∷ items) w key h =
    seen-record_page since at items _ key (ground arith)

pub recorded :
    (since at : ℕ) (items : List Listed) (w : Walk)
    → All
        (λ y.
          (contains y.media_key (record_page since at items w).seen ≡ true)
          ⊎ (older_than y since ≡ true))
        items
unfolding record_page
recorded since at [] w = tt
recorded since at (item ∷ items) w = (
  elim (Bool-cases (older_than item since)) [
    | inl e ↦ inr e
    | inr e ↦ inl (
        seen-record_page since at items _ item.media_key
          (ground (arith, e, ==_refl item.media_key)))
  ],
  recorded since at items _,
)

pub seen-walk-IsSafe :
    (since : ℕ) (ending : Ending) (w : Walk) (y : Listed)
    → (contains y.media_key w.seen ≡ true) ⊎ (older_than y since ≡ true)
    → IsSafe since ending w y
unfolding older_than reconcilable vouched_from later reconcilable_from
seen-walk-IsSafe since whole w y h = ground arith
seen-walk-IsSafe since bound w y h = ground arith
seen-walk-IsSafe since (held from) w y h = ground arith

-- The last item of a page lies before the bound, so that every later one lies below the vouched part.
past_the_bound :
    (since : ℕ) (w : Walk) (y : Listed) (items : List Listed)
    → walked_past_the_bound items since ≡ true
    → All (λ x. Follows x y) items
    → IsSafe since bound w y
unfolding walked_past_the_bound older_than reconcilable vouched_from reconcilable_from
past_the_bound since w y [] h f = ground arith
past_the_bound since w y (x ∷ []) h f = ground (arith, f.0)
past_the_bound since w y (x ∷ next ∷ items) h f = past_the_bound since w y (next ∷ items) h f.1

from_held_ground :
    (y : ℕ) (oldest reached : ℕ) (items : List Listed) (members : List (String × ℕ))
    → All (λ x. (x.captured_at ≡ 0) ⊎ (y < x.captured_at + boundary_wobble)) items
    → (oldest ≡ 0) ⊎ (y < oldest + boundary_wobble)
    → known_ground_from oldest items members ≡ (reached, true)
    → y < reached + boundary_wobble
unfolding known_ground_from
from_held_ground y oldest reached [] members a b h =
    ground (arith, ap (λ p. p.0) h, ap (λ p. p.1) h)
from_held_ground y oldest reached (x ∷ items) members a b h =
    elim (Bool-cases (exists (λ m. m.0 == x.media_key) members)) [
      | inl e ↦
          from_held_ground y (oldest_with oldest x) reached items members a.1 (ground (arith, a.0))
            (ground (arith, e))
      | inr e ↦ ground (arith, e, ap (λ p. p.1) h)
    ]

held_ground :
    (since reached : ℕ) (w : Walk) (y : Listed) (items : List Listed) (members : List (String × ℕ))
    → known_ground items members ≡ (reached, true)
    → All (λ x. Follows x y) items
    → IsSafe since (held reached) w y
unfolding known_ground reconcilable vouched_from reconcilable_from later
held_ground since reached w y items members h f = elim (Bool-cases (y.captured_at == 0)) [
  | inl e ↦ ground (arith, e)
  | inr e ↦
      let below =
        from_held_ground y.captured_at 0 reached items members
          (All-map _ _ items (λ x fx. ground (arith, fx, e)) f) (inl refl) h in
      ground (arith, e, below)
]

held_ending-some :
    (ground_held : ℕ × Bool) (new_only : Bool) (ending : Ending)
    → held_ending ground_held new_only ≡ some ending
    → (ending ≡ held ground_held.0) × (ground_held ≡ (ground_held.0, true))
held_ending-some (reached, true) true ending h = (ground (arith, h), refl)
held_ending-some (reached, true) false ending h = ground (arith, h)
held_ending-some (reached, false) new_only ending h = ground (arith, h)

-- What the tests after a page answer is right about every page after it.
pub page_ends-IsSafe :
    (new_only : Bool) (since : ℕ) (members : List (String × ℕ)) (page : ItemPage) (ending : Ending)
    (w : Walk) (pages : List (List Listed))
    → page.next_token ≢ ""
    → page_ends new_only since members page ≡ some ending
    → AllPages (λ y. All (λ x. Follows x y) page.items) pages
    → AllPages (IsSafe since ending w) pages
unfolding page_ends
page_ends-IsSafe new_only since members page ending w pages n h f =
    AllPages-map _ _ pages
      (λ y fy. elim (Bool-cases (walked_past_the_bound page.items since)) [
        | inl e ↦
            let q : ending ≡ bound = ground (arith, e, h, n, ==_iff page.next_token "") in
            rw q (past_the_bound since w y page.items e fy)
        | inr e ↦
            let q =
              held_ending-some (known_ground page.items members) new_only ending
                (ground (arith, e, h, n, ==_iff page.next_token "")) in
            rw q.0
              (held_ground since (known_ground page.items members).0 w y page.items members q.1 fy)
      ])
      f

pub page_ends-last :
    (new_only : Bool) (since : ℕ) (members : List (String × ℕ)) (page : ItemPage)
    → page.next_token ≡ ""
    → page_ends new_only since members page ≡ some whole
unfolding page_ends
page_ends-last new_only since members page h = rw h refl
