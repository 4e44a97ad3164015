-- ===== src/Store/Review.antt =====
-- internal/store/review.go: the queue of items that wait for a decision.
use gpb.Common.{
  ℕ, ◌+◌, Bool, true, false, ◌&&◌, not, List, [], ◌∷◌, ◌++◌, map, String, ◌==◌, string_eq, update,
  select, exists, count, contains,
}
use gpb.Store.Rows.{
  State, discovered, missing_upstream, state_eq, sync_none, mode_eq, Row, MediaItem, Db,
}

unfoldable pub held_by_a_followed_album : Db → String → Bool
held_by_a_followed_album db key =
    exists
      (λ ai.
        ai.media_key == key
        && exists (λ a. a.id == ai.album_id && not (a.sync_mode == sync_none)) db.albums)
      db.album_items

-- waitingForReview
unfoldable pub waiting_for_review : Db → State → Row → Bool
unfolding held_by_a_followed_album
waiting_for_review db state r =
    r.needs_review && r.state == state && held_by_a_followed_album db r.media_key

abbrev pub review_states : List State
review_states = discovered ∷ missing_upstream ∷ []

-- MediaItem.AwaitsReview
unfoldable pub awaits_review : MediaItem → Bool
awaits_review item = item.needs_review && contains item.state review_states

pub count_in_states : Db → List State → ℕ
count_in_states db [] = 0
count_in_states db (s ∷ ss) = count (waiting_for_review db s) db.media_items + count_in_states db ss

-- CountNeedingReview
unfoldable pub count_needing_review : Db → ℕ
unfolding count_in_states
count_needing_review db = count_in_states db review_states

-- keysWaitingInState
unfoldable pub keys_waiting_in_state : Db → List String → State → List String
keys_waiting_in_state db keys s =
    map (λ (r : Row). r.media_key)
      (select (λ r. waiting_for_review db s r && contains r.media_key keys) db.media_items)

unfoldable pub keys_in_states : Db → List String → List State → List String
keys_in_states db keys [] = []
keys_in_states db keys (s ∷ ss) = keys_waiting_in_state db keys s ++ keys_in_states db keys ss

-- KeysWaitingForReview
unfoldable pub keys_waiting_for_review : Db → List String → List String
unfolding keys_in_states keys_waiting_in_state
keys_waiting_for_review db [] = []
keys_waiting_for_review db (k ∷ keys) = keys_in_states db (k ∷ keys) review_states

pub set_review : Bool → List String → Db → Db
set_review flag [] db = db
set_review flag (k ∷ keys) db = set_review flag keys (record db {
  media_items =
      update (λ r. r.media_key == k) (λ r. record r { needs_review = flag }) db.media_items;
})

-- FlagForReview
unfoldable pub flag_for_review : List String → Db → Db
unfolding set_review
flag_for_review = set_review true

-- ClearNeedsReview
unfoldable pub clear_needs_review : List String → Db → Db
unfolding set_review
clear_needs_review = set_review false
