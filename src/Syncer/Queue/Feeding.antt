-- ===== src/Syncer/Queue/Feeding.antt =====
-- What the feeder of internal/syncer/queue.go hands out, and when it stops.
use gpb.Errors.{ok}
use gpb.Common.{
  ℕ, ◌+◌, ◌≤◌, ◌≡◌, ◌⊎◌, refl, sym, subst, ◌++◌, inl, inr, Bool, true, false, some, List, [], ◌∷◌,
  String, nat_eq, string_eq, if◌then◌else◌, contains, length, is_some, arith, All, Bool-cases,
}
use gpb.Store.Rows.{MediaItem}
use gpb.Syncer.Queue.{Handing, offer, Turn, Fed, nothing_left, ends, after_offer, feed}
use gpb.Syncer.Queue.Offers.{
  HasNoRepeat, offer-IsGiven, offer-through, after_offer-goes_on, after_offer-nothing_left,
  offer-full, Next-cases, keys_of, offer-keys_of, length-keys_of,
}

abbrev pub SomeTurn : (Turn → Type 0) → List Turn → Type 0
SomeTurn P [] = ⊥
SomeTurn P (turn ∷ turns) = P turn ⊎ SomeTurn P turns

-- The work list as the turn read it, after the listing had ended, holds only keys among these.
abbrev pub IsExhausted : List String → Turn → Type 0
IsExhausted given turn =
    (batch : List MediaItem) × (turn.listing_closed ≡ true)
    × (turn.pending ≡ ok batch)
    × All (λ item. contains item.media_key given ≡ true) batch

module _ (handing : ℕ → Handing) (max_items : ℕ) where
  feed-HasNoRepeat :
      (turns : List Turn) (batch : List MediaItem) (over : Bool) (offered given : List String)
      (fed : Fed) (sent all_sent : List MediaItem)
      → HasNoRepeat offered
      → length offered ≤ max_items
      → feed handing max_items turns batch over offered sent ≡ some (given, fed, all_sent)
      → HasNoRepeat given × (length given ≤ max_items)
  unfolding feed
  feed-HasNoRepeat [] batch over offered given fed sent all_sent n le h = ground (arith, h)
  feed-HasNoRepeat (turn ∷ turns) batch over offered given fed sent all_sent n le h =
      let o = offer handing max_items batch offered 0 sent in
      let is = offer-IsGiven handing max_items batch offered 0 sent n le in
      elim (Next-cases (after_offer max_items turn over o)) [
        | inl (fed', e) ↦
            let p : o.0 ≡ given = ground (arith, h, e) in
            subst (λ g. HasNoRepeat g × (length g ≤ max_items)) p (is.0, is.1)
        | inr (next, e) ↦
            feed-HasNoRepeat turns next turn.listing_closed o.0 given fed o.3 all_sent is.0 is.1
              (ground (arith, h, e))
      ]

  feed-nothing_left :
      (turns : List Turn) (batch : List MediaItem) (over : Bool) (offered given : List String)
      (sent all_sent : List MediaItem)
      → HasNoRepeat offered
      → length offered ≤ max_items
      → feed handing max_items turns batch over offered sent ≡ some (given, nothing_left, all_sent)
      → ((over ≡ true) × All (λ item. contains item.media_key given ≡ true) batch)
        ⊎ SomeTurn (IsExhausted given) turns
  unfolding feed
  feed-nothing_left [] batch over offered given sent all_sent n le h = ground (arith, h)
  feed-nothing_left (turn ∷ turns) batch over offered given sent all_sent n le h =
      let o = offer handing max_items batch offered 0 sent in
      let is = offer-IsGiven handing max_items batch offered 0 sent n le in
      elim (Next-cases (after_offer max_items turn over o)) [
        | inl (fed', e) ↦
            let p : o.0 ≡ given = ground (arith, h, e) in
            let q : after_offer max_items turn over o ≡ ends nothing_left = ground (arith, h, e) in
            let r = after_offer-nothing_left max_items turn over o is.1 q in
            inl (
              r.0,
              subst (λ g. All (λ item. contains item.media_key g ≡ true) batch) p
                  (offer-through handing max_items batch offered 0 sent o refl
                    (ground (arith, r, offer-full handing max_items batch offered 0 sent))),
            )
        | inr (next, e) ↦
            let r = after_offer-goes_on max_items turn over o next e in
            elim (feed-nothing_left turns next turn.listing_closed o.0 given o.3 all_sent is.0 is.1
              (ground (arith, h, e))) [
                | inl (closed, all) ↦ inr (inl (next, closed, r.0, all))
                | inr later ↦ inr (inr later)
              ]
      ]

  feed-ends :
      (turns : List Turn) (batch : List MediaItem) (over : Bool) (offered : List String)
      (sent : List MediaItem)
      → HasNoRepeat offered
      → length offered ≤ max_items
      → All (λ turn. turn.listing_closed ≡ true) turns
      → max_items + (if over then 1 else 2) ≤ length turns + length offered
      → is_some (feed handing max_items turns batch over offered sent) ≡ true
  unfolding feed
  feed-ends [] batch over offered sent n le c enough = ground (arith, enough)
  feed-ends (turn ∷ turns) batch over offered sent n le c enough =
      let o = offer handing max_items batch offered 0 sent in
      let is = offer-IsGiven handing max_items batch offered 0 sent n le in
      elim (Next-cases (after_offer max_items turn over o)) [
        | inl (fed', e) ↦ ground (arith, e)
        | inr (next, e) ↦
            let r = after_offer-goes_on max_items turn over o next e in
            ground
              (arith, e, r, is, c, feed-ends turns next turn.listing_closed o.0 o.3 is.0 is.1 c.1)
      ]

module _ (handing : ℕ → Handing) (max_items : ℕ) where
  feed-keys_of :
      (turns : List Turn) (batch : List MediaItem) (over : Bool) (offered given : List String)
      (fed : Fed) (sent all_sent : List MediaItem)
      → keys_of sent ≡ offered
      → feed handing max_items turns batch over offered sent ≡ some (given, fed, all_sent)
      → keys_of all_sent ≡ given
  unfolding feed
  feed-keys_of [] batch over offered given fed sent all_sent k h = ground (arith, h)
  feed-keys_of (turn ∷ turns) batch over offered given fed sent all_sent k h =
      let o = offer handing max_items batch offered 0 sent in
      let same = offer-keys_of handing max_items batch offered 0 sent k in
      elim (Next-cases (after_offer max_items turn over o)) [
        | inl (fed', e) ↦ ground (arith, h, e, same)
        | inr (next, e) ↦
            feed-keys_of turns next turn.listing_closed o.0 given fed o.3 all_sent same
              (ground (arith, h, e))
      ]

  -- Once every turn that is left finds the listing over, as many of them as the limit and two more are
  -- enough, whatever was offered in the turns before.
  feed-ends_after :
      (before after : List Turn) (batch : List MediaItem) (over : Bool) (offered : List String)
      (sent : List MediaItem)
      → HasNoRepeat offered
      → length offered ≤ max_items
      → All (λ turn. turn.listing_closed ≡ true) after
      → max_items + 2 ≤ length after
      → is_some (feed handing max_items (before ++ after) batch over offered sent) ≡ true
  unfolding feed
  feed-ends_after [] after batch over offered sent n le c enough =
      feed-ends handing max_items after batch over offered sent n le c
        (ground (arith, enough, Bool-cases over))
  feed-ends_after (turn ∷ before) after batch over offered sent n le c enough =
      let o = offer handing max_items batch offered 0 sent in
      let is = offer-IsGiven handing max_items batch offered 0 sent n le in
      elim (Next-cases (after_offer max_items turn over o)) [
        | inl (fed', e) ↦ ground (arith, e)
        | inr (next, e) ↦ ground (
          arith,
          e,
          feed-ends_after before after next turn.listing_closed o.0 o.3 is.0 is.1 c enough,
        )
      ]

-- Whatever a feeder is answered, no two of the items that it sends to the workers have the same key, and
-- they are never more than the limit of a run.
pub feed-bounded :
    (handing : ℕ → Handing) (max_items : ℕ) (turns : List Turn) (backlog : List MediaItem)
    (given : List String) (fed : Fed) (sent : List MediaItem)
    → feed handing max_items turns backlog false [] [] ≡ some (given, fed, sent)
    → HasNoRepeat (keys_of sent) × (length sent ≤ max_items)
feed-bounded handing max_items turns backlog given fed sent h =
    let r =
      feed-HasNoRepeat handing max_items turns backlog false [] given fed [] sent tt (ground arith)
        h in
    let k = feed-keys_of handing max_items turns backlog false [] given fed [] sent refl h in
    (rw k (r.0), ground (arith, r.1, k, length-keys_of sent))

-- A feeder that stops because nothing is left has read the work list in one of its turns, with the
-- listing already over by then, and every item of that list has the key of an item that it sent to the
-- workers.
pub feed-IsExhausted :
    (handing : ℕ → Handing) (max_items : ℕ) (turns : List Turn) (backlog : List MediaItem)
    (given : List String) (sent : List MediaItem)
    → feed handing max_items turns backlog false [] [] ≡ some (given, nothing_left, sent)
    → SomeTurn (IsExhausted (keys_of sent)) turns
feed-IsExhausted handing max_items turns backlog given sent h =
    let k =
      feed-keys_of handing max_items turns backlog false [] given nothing_left [] sent refl h in
    let r =
      feed-nothing_left handing max_items turns backlog false [] given [] sent tt (ground arith)
        h in
    elim r [
      | inl (closed, all) ↦ ground (arith, closed)
      | inr some_turn ↦ subst (λ g. SomeTurn (IsExhausted g) turns) (sym k) some_turn
    ]

-- Whatever the turns before, a feeder returns once the listing is over: where all later turns find it
-- over, it returns within as many of them as the limit of a run and two more.
pub feed-returns :
    (handing : ℕ → Handing) (max_items : ℕ) (before after : List Turn) (backlog : List MediaItem)
    → All (λ turn. turn.listing_closed ≡ true) after
    → max_items + 2 ≤ length after
    → is_some (feed handing max_items (before ++ after) backlog false [] []) ≡ true
feed-returns handing max_items before after backlog closed enough =
    feed-ends_after handing max_items before after backlog false [] [] tt (ground arith) closed
      enough
