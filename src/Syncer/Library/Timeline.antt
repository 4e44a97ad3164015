-- ===== src/Syncer/Library/Timeline.antt =====
-- The timeline that Google would serve page by page to internal/syncer/library.go.
use gpb.Errors.{ok}
use gpb.Common.{
  ℕ, ◌+◌, ◌<◌, ◌≡◌, ◌≢◌, ◌⊎◌, true, false, List, [], ◌∷◌, String, nat_eq, string_eq, contains, All,
  All-map,
}
use gpb.Syncer.Source.{Listed, ItemPage, Source}
use gpb.Syncer.Library.{reconcilable, Walk, Ending, vouched_from, boundary_wobble}

-- The pages of the timeline from a token on.
pub data Pages (source : Source) : String → List (List Listed) → Type 0 where
  last :
      {token : String} (page : ItemPage)
      → source.timeline token ≡ ok page
      → page.next_token ≡ ""
      → Pages source token (page.items ∷ [])
  more :
      {token : String} (page : ItemPage) {pages : List (List Listed)}
      → source.timeline token ≡ ok page
      → page.next_token ≢ ""
      → Pages source page.next_token pages
      → Pages source token (page.items ∷ pages)

-- Out of order by less than the wobble: no dated item of a later page lies as far above `x`.
abbrev pub Follows : Listed → Listed → Type 0
Follows x y =
    (x.captured_at ≡ 0) ⊎ (y.captured_at ≡ 0) ⊎ (y.captured_at < x.captured_at + boundary_wobble)

abbrev pub AllPages : (Listed → Type 0) → List (List Listed) → Type 0
AllPages P [] = Unit
AllPages P (page ∷ pages) = All P page × AllPages P pages

-- Newest first, up to the wobble.
abbrev pub IsTimeline : List (List Listed) → Type 0
IsTimeline [] = Unit
IsTimeline (page ∷ pages) = AllPages (λ y. All (λ x. Follows x y) page) pages × IsTimeline pages

-- A walk that ended so does not take the item for gone: it saw it, or does not vouch for it.
abbrev pub IsSafe : ℕ → Ending → Walk → Listed → Type 0
IsSafe since ending w y =
    (contains y.media_key w.seen ≡ true)
    ⊎ (reconcilable y.captured_at (vouched_from since ending) ≡ false)

pub AllPages-map :
    (P Q : Listed → Type 0) (pages : List (List Listed))
    → ((y : Listed) → P y → Q y)
    → AllPages P pages
    → AllPages Q pages
AllPages-map P Q [] f a = tt
AllPages-map P Q (page ∷ pages) f a = (All-map P Q page f a.0, AllPages-map P Q pages f a.1)
