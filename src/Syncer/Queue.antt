-- ===== src/Syncer/Queue.antt =====
-- internal/syncer/queue.go: the feeder, which hands the work list out, and the workers' accounts.
-- What happens around them is a parameter: the disk space, the workers taking an item, the run's
-- context, the listing's end and the work list read again, in the order in which they are asked.
pub mod Offers
pub mod Feeding
use gpb.Errors.{Result, ok, err, Failure, is_no_followed_album}
use gpb.Common.{
  ℕ, zero, suc, ◌+◌, Bool, true, false, ◌&&◌, ◌||◌, not, Option, none, some, List, [], ◌∷◌, String,
  ◌==◌, nat_eq, string_eq, if◌then◌else◌, contains, ltb, leb, length, is_some,
}
use gpb.Store.Rows.{MediaItem}
use gpb.Syncer.Retry.{Breaker, succeed, fail, tells_the_breaker_nothing}

-- What comes of trying to hand out the n-th item: the check of the disk, then the select.
pub data Handing : Type 0 where
  no_room : Failure → Handing
  taken cancelled : Handing

pub data Offer : Type 0 where
  through full stopped : Offer
  out_of_room : Failure → Offer

-- offer: the keys offered by now, the latest first, how many are fresh, how it ended, and the items sent
-- on `work` by now, the latest first, which the code keeps nowhere.
unfoldable pub offer :
    (ℕ → Handing)
    → ℕ
    → List MediaItem
    → List String
    → ℕ
    → List MediaItem
    → List String × ℕ × Offer × List MediaItem
offer handing max_items [] offered fresh sent = (offered, fresh, through, sent)
offer handing max_items (item ∷ batch) offered fresh sent =
    if contains item.media_key offered
    then offer handing max_items batch offered fresh sent
    else if leb max_items (length offered)
    then (offered, fresh, full, sent)
    else elim (handing (length sent)) [
      | no_room cause ↦ (offered, fresh, out_of_room cause, sent)
      | cancelled ↦ (offered, fresh, stopped, sent)
      | taken ↦ offer handing max_items batch (item.media_key ∷ offered) (fresh + 1) (item ∷ sent)
    ]

-- A turn of feed's loop, after its offer: whether the context has ended, whether the wait ended
-- otherwise than by the context, whether the listing is over, and the answer of Pending.
pub record Turn : Type 0 where
  pub ctx_over : Bool
  pub wait_ended : Bool
  pub listing_closed : Bool
  pub pending : Result (List MediaItem)

-- The returns of feed, in its order.
pub data Fed : Type 0 where
  ran_out_of_room : Failure → Fed
  handed_enough nothing_left gave_up unreadable : Fed

-- What follows the offer of a turn; `inr` goes on with the next batch.
pub data Next : Type 0 where
  ends : Fed → Next
  goes_on : List MediaItem → Next

abbrev pub was_stopped : Offer → Bool
was_stopped stopped = true
was_stopped _ = false

abbrev pub re_read : Result (List MediaItem) → Next
re_read (ok batch) = goes_on batch
re_read (err cause) = ends unreadable

unfoldable pub after_offer : ℕ → Turn → Bool → List String × ℕ × Offer × List MediaItem → Next
after_offer max_items turn listing_over (offered, fresh, out_of_room cause, sent) =
    ends (ran_out_of_room cause)
after_offer max_items turn listing_over (offered, fresh, ended, sent) =
    if leb max_items (length offered) || turn.ctx_over || was_stopped ended
    then ends handed_enough
    else if fresh == 0 && listing_over
    then ends nothing_left
    else if fresh == 0 && not turn.wait_ended
    then ends gave_up
    else re_read turn.pending

-- The loop of feed, a turn of the surroundings for a turn of the loop; `none` where they run out. The
-- items sent on `work` stand beside the keys offered, as in offer.
unfoldable pub feed :
    (ℕ → Handing)
    → ℕ
    → List Turn
    → List MediaItem
    → Bool
    → List String
    → List MediaItem
    → Option (List String × Fed × List MediaItem)
unfolding offer after_offer
feed handing max_items [] batch listing_over offered sent = none
feed handing max_items (turn ∷ turns) batch listing_over offered sent =
    let given = offer handing max_items batch offered 0 sent in
    elim (after_offer max_items turn listing_over given) [
      | ends fed ↦ some (given.0, fed, given.3)
      | goes_on next ↦ feed handing max_items turns next turn.listing_closed given.0 given.3
    ]

-- The tally of a Report that the workers keep.
pub record Tally : Type 0 where
  pub downloaded : ℕ
  pub failed : ℕ
  pub skipped : ℕ
  pub bytes : ℕ

-- The switch under the lock, for the outcome of one item.
unfoldable pub account : Result ℕ → Tally → Tally
account (ok size) t = record t { downloaded = t.downloaded + 1; bytes = t.bytes + size }
account (err cause) t =
    if is_no_followed_album cause.kind
    then record t { skipped = t.skipped + 1 }
    else record t { failed = t.failed + 1 }

-- What a worker tells the breaker of it, and whether that cancels the run.
unfoldable pub tell_breaker : MediaItem → Result ℕ → Breaker → Breaker × Bool
tell_breaker item (ok size) b = (succeed b, false)
tell_breaker item (err cause) b =
    if tells_the_breaker_nothing item cause then (b, false) else fail b cause

-- The last switch of download: the error it returns, and whether it calls the run partial.
unfoldable pub verdict :
    Option Failure → Option Failure → Option Failure → Tally → Option Failure × Bool
verdict (some cause) ctx_err room t = (some cause, false)
verdict none (some cause) room t = (some cause, false)
verdict none none (some cause) t = (some cause, false)
verdict none none none t = (none, ltb 0 t.failed)
