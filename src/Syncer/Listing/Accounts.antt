-- ===== src/Syncer/Listing/Accounts.antt =====
-- What the walk of the followed albums (walkAlbums, internal/syncer/listing.go) answers for.
use gpb.Errors.{Failure}
use gpb.Common.{
  ℕ, ◌+◌, ◌<◌, ◌≡◌, ◌⊎◌, refl, subst, inl, inr, Bool, true, false, Option, none, some, List, [],
  ◌∷◌, ◌++◌, String, arith, nat_eq, length, length-append, is_some, ltb, Bool-cases, Option-cases,
}
use gpb.Store.Rows.{Db, Album}
use gpb.Syncer.Source.{Source}
use gpb.Syncer.Listing.{
  Wording, AlbumsWalk, list_album, after_album, verdict, walk_albums, first_failure, is_empty,
  at_start,
}

-- The counts of a walk so far: every album visited stands under one of three headings, and an error
-- is remembered as soon as an album has been stepped over.
abbrev pub IsCounted : ℕ → AlbumsWalk → Type 0
IsCounted visited walk =
    (walk.walked + length walk.skipped + length walk.unlisted ≡ visited)
    × (walk.attempts ≡ walk.walked + length walk.skipped)
    × ((length walk.skipped ≡ 0) ⊎ (is_some walk.drifted ≡ true))

first_failure-is_some :
    (o : Option Failure) (cause : Failure) → is_some (first_failure o cause) ≡ true
first_failure-is_some none cause = refl
first_failure-is_some (some first) cause = refl

after_album-IsCounted :
    (wording : Wording) (id : String) (outcome : Db × ℕ × Option Failure) (walk : AlbumsWalk)
    (visited : ℕ)
    → IsCounted visited walk
    → (after_album wording id outcome walk).1 ≡ none
    → IsCounted (visited + 1) (after_album wording id outcome walk).0
      × ((after_album wording id outcome walk).0.listing_was_empty ≡ walk.listing_was_empty)
unfolding after_album
after_album-IsCounted wording id (db, count, none) walk visited c h = ground (arith, c)
after_album-IsCounted wording id (db, count, some cause) walk visited c h = ground (
  arith,
  c,
  h,
  length-append walk.skipped (wording.describe db id ∷ []),
  first_failure-is_some walk.drifted cause,
)

length-is_empty : (xs : List String) → is_empty xs ≡ true → length xs ≡ 0
length-is_empty [] h = refl
length-is_empty (x ∷ xs) h = ground (arith, h)

verdict-none :
    (wording : Wording) (walk : AlbumsWalk) (visited : ℕ)
    → IsCounted visited walk
    → verdict wording walk ≡ none
    → ((length walk.skipped ≡ 0) ⊎ (0 < walk.walked))
      × ((walk.listing_was_empty ≡ false) ⊎ (length walk.unlisted ≡ 0))
unfolding verdict
verdict-none wording walk visited c h =
    ground (arith, c, h, Option-cases walk.drifted, length-is_empty walk.unlisted)

module _ (wording : Wording) (source : Source) (fuel refreshed_at : ℕ) (now : String → ℕ) where
  walk_albums-IsCounted :
      (followed : List Album) (walk after : AlbumsWalk) (visited : ℕ)
      → IsCounted visited walk
      → walk_albums wording source fuel refreshed_at now followed walk ≡ some (after, none)
      → IsCounted (visited + length followed) after
        × (after.listing_was_empty ≡ walk.listing_was_empty)
        × (verdict wording after ≡ none)
  unfolding walk_albums
  walk_albums-IsCounted [] walk after visited c h =
      let p : walk ≡ after = ground (arith, h) in
      let v : verdict wording walk ≡ none = ground (arith, h) in
      subst
        (λ a.
          IsCounted (visited + 0) a
          × (a.listing_was_empty ≡ walk.listing_was_empty)
          × (verdict wording a ≡ none))
        p (ground (arith, c), refl, v)
  walk_albums-IsCounted (a ∷ followed) walk after visited c h =
      elim (Bool-cases (ltb a.last_seen_at refreshed_at)) [
        | inl gone ↦
            let here : IsCounted (visited + 1) (left_out a walk) =
              ground (arith, c, length-append walk.unlisted (wording.describe_row a ∷ [])) in
            let rest =
              walk_albums-IsCounted followed (left_out a walk) after (visited + 1) here
                (ground (arith, h, gone)) in
            ground (arith, rest)
        | inr listed ↦
            elim (Option-cases (list_album wording source fuel a.id (now a.id) walk.db)) [
              | inl e ↦ ground (arith, h, listed, e)
              | inr (outcome, e) ↦ elim (Option-cases (after_album wording a.id outcome walk).1) [
                | inr (cause, e') ↦ ground (arith, h, listed, e, e')
                | inl e' ↦
                    let here = after_album-IsCounted wording a.id outcome walk visited c e' in
                    let rest =
                      walk_albums-IsCounted followed (after_album wording a.id outcome walk).0 after
                        (visited + 1) here.0 (ground (arith, h, listed, e, e')) in
                    ground (arith, rest, here.1)
              ]
            ]
      ]
    where
      left_out : Album → AlbumsWalk → AlbumsWalk
      left_out b w = record w { unlisted = w.unlisted ++ wording.describe_row b ∷ [] }

-- A walk of the followed albums that returns no error accounts for every one of them, as walked, as
-- stepped over or as no longer listed. It has read at least one album if it stepped over any, and it
-- has been told of some album if it took any for no longer listed.
pub walk_albums_lem :
    (wording : Wording) (source : Source) (fuel refreshed_at : ℕ) (now : String → ℕ)
    (followed : List Album) (db : Db) (listing_was_empty : Bool) (after : AlbumsWalk)
    → walk_albums wording source fuel refreshed_at now followed (at_start db listing_was_empty)
      ≡ some (after, none)
    → (after.walked + length after.skipped + length after.unlisted ≡ length followed)
      × ((length after.skipped ≡ 0) ⊎ (0 < after.walked))
      × ((listing_was_empty ≡ false) ⊎ (length after.unlisted ≡ 0))
walk_albums_lem wording source fuel refreshed_at now followed db listing_was_empty after h =
    let c =
      walk_albums-IsCounted wording source fuel refreshed_at now followed
        (at_start db listing_was_empty) after 0 (refl, refl, inl refl) h in
    ground (arith, c, verdict-none wording after (0 + length followed) c.0 c.2)
