-- ===== src/Store/Queue.antt =====
-- What the review queue offers, counts and settles (internal/store/review.go).
use gpb.Common.{
  ◌≡◌, refl, sym, ap, ◌∙◌, Bool, true, false, ◌&&◌, ◌||◌, List, [], ◌∷◌, ◌++◌, map, String, arith,
  ◌==◌, ==_iff, ==_refl, string_eq, exists, select, count, contains, update, All, All-map, length,
  length-append,
}
use gpb.Store.Rows.{State, discovered, missing_upstream, state_eq, Row, Db}
use gpb.Store.Review.{
  waiting_for_review, count_needing_review, count_in_states, keys_waiting_for_review,
  keys_in_states, keys_waiting_in_state, clear_needs_review, set_review, review_states,
}

abbrev all_keys : Db → List String
all_keys db = map (λ (r : Row). r.media_key) db.media_items

pub contains-map-select :
    (p : Row → Bool) (k : String) (xs : List Row)
    → contains k (map (λ (r : Row). r.media_key) (select p xs))
      ≡ exists (λ r. p r && r.media_key == k) xs
contains-map-select p k [] = refl
contains-map-select p k (x ∷ xs) = ground (arith, contains-map-select p k xs)

exists-own_key :
    (p : Row → Bool) (xs : List Row)
    → All (λ r. p r ≡ true → exists (λ x. p x && x.media_key == r.media_key) xs ≡ true) xs
exists-own_key p [] = tt
exists-own_key p (x ∷ xs) = (
  (λ h. ground (arith, ==_refl x.media_key)),
  All-map _ _ xs (λ r f h. ground (arith, f h)) (exists-own_key p xs),
)

contains-all_keys :
    (xs : List Row) → All (λ r. contains r.media_key (map (λ (x : Row). x.media_key) xs) ≡ true) xs
contains-all_keys [] = tt
contains-all_keys (x ∷ xs) = (
  ground (arith, ==_refl x.media_key),
  All-map _ _ xs (λ r f. ground (arith, f)) (contains-all_keys xs),
)

count-length :
    (p q : Row → Bool) (xs : List Row)
    → All (λ r. q r ≡ true) xs
    → count p xs ≡ length (map (λ (r : Row). r.media_key) (select (λ r. p r && q r) xs))
count-length p q [] a = refl
count-length p q (x ∷ xs) a = let h = a.0 in ground (arith, count-length p q xs a.1)

counts-keys :
    (db : Db) (keys : List String) (states : List State)
    → All (λ r. contains r.media_key keys ≡ true) db.media_items
    → count_in_states db states ≡ length (keys_in_states db keys states)
unfolding count_needing_review keys_waiting_for_review
counts-keys db keys [] a = refl
counts-keys db keys (s ∷ states) a = omega (
  arith,
  count-length (waiting_for_review db s) (λ r. contains r.media_key keys) db.media_items a,
  counts-keys db keys states a,
  length-append (keys_waiting_in_state db keys s) (keys_in_states db keys states),
)

select_none :
    (p : Row → Bool) (xs : List Row)
    → map (λ (r : Row). r.media_key) (select (λ r. p r && false) xs) ≡ []
select_none p [] = refl
select_none p (x ∷ xs) = ground (arith, select_none p xs)

keys_waiting-states :
    (db : Db) (keys : List String)
    → keys_waiting_for_review db keys ≡ keys_in_states db keys review_states
unfolding keys_waiting_for_review
keys_waiting-states db [] = ground (
  arith,
  select_none (waiting_for_review db discovered) db.media_items,
  select_none (waiting_for_review db missing_upstream) db.media_items,
)
keys_waiting-states db (k ∷ keys) = refl

abbrev flagged : Bool → Row → Row
flagged flag r = record r { needs_review = flag }

update-update_key :
    (flag : Bool) (k : String) (keys : List String) (xs : List Row)
    → update
        (λ r. contains r.media_key keys)
        (flagged flag)
        (update (λ r. r.media_key == k) (flagged flag) xs)
      ≡ update (λ r. contains r.media_key (k ∷ keys)) (flagged flag) xs
update-update_key flag k keys [] = refl
update-update_key flag k keys (x ∷ xs) =
    ground (arith, ==_iff x.media_key k, ==_iff k x.media_key, update-update_key flag k keys xs)

update_nothing : (flag : Bool) (xs : List Row) → update (λ r. false) (flagged flag) xs ≡ xs
update_nothing flag [] = refl
update_nothing flag (x ∷ xs) = ground (arith, update_nothing flag xs)

-- The transaction over the keys, one after another, as one statement.
set_review-update :
    (flag : Bool) (keys : List String) (db : Db)
    → set_review flag keys db ≡ record db {
      media_items = update (λ r. contains r.media_key keys) (flagged flag) db.media_items;
    }
unfolding clear_needs_review
set_review-update flag [] db = ground (arith, update_nothing flag db.media_items)
set_review-update flag (k ∷ keys) db =
    set_review-update flag keys
      (record db { media_items = update (λ r. r.media_key == k) (flagged flag) db.media_items })
    ∙ ap (λ items. record db { media_items = items }) (update-update_key flag k keys db.media_items)

count_cleared :
    (db : Db) (s : State) (keys : List String) (items xs : List Row)
    → All (λ r. waiting_for_review db s r ≡ true → contains r.media_key keys ≡ true) xs
    → count
        (waiting_for_review (record db { media_items = items }) s)
        (update (λ r. contains r.media_key keys) (flagged false) xs)
      ≡ 0
unfolding waiting_for_review
count_cleared db s keys items [] a = refl
count_cleared db s keys items (x ∷ xs) a =
    let h = a.0 in ground (arith, h, count_cleared db s keys items xs a.1)

contains-append :
    (a : String) (xs ys : List String) → contains a (xs ++ ys) ≡ (contains a xs || contains a ys)
contains-append a [] ys = refl
contains-append a (x ∷ xs) ys = ground (arith, contains-append a xs ys)

pub contains-keys_waiting :
    (db : Db) (keys : List String) (k : String)
    → contains k (keys_waiting_for_review db keys) ≡ (
        contains k (keys_waiting_in_state db keys discovered)
        || contains k (keys_waiting_in_state db keys missing_upstream))
unfolding keys_in_states
contains-keys_waiting db keys k = rw (keys_waiting-states db keys) (
    contains-append k (keys_waiting_in_state db keys discovered)
      (keys_waiting_in_state db keys missing_upstream ++ [])
    ∙ ground (arith, contains-append k (keys_waiting_in_state db keys missing_upstream) []))

offered :
    (db : Db) (s : State)
    → All
        (λ r.
          waiting_for_review db s r ≡ true
          → contains r.media_key (keys_waiting_in_state db (all_keys db) s) ≡ true)
        db.media_items
unfolding keys_waiting_for_review
offered db s =
    All-both db.media_items
      (exists-own_key (λ r. waiting_for_review db s r && contains r.media_key (all_keys db))
        db.media_items)
      (contains-all_keys db.media_items)
  where
    waits : Row → Bool
    waits r = waiting_for_review db s r && contains r.media_key (all_keys db)

    All-both :
        (xs : List Row)
        → All
            (λ r.
              waits r ≡ true
              → exists (λ x. waits x && x.media_key == r.media_key) db.media_items ≡ true)
            xs
        → All (λ r. contains r.media_key (all_keys db) ≡ true) xs
        → All
            (λ r.
              waiting_for_review db s r ≡ true
              → contains r.media_key (keys_waiting_in_state db (all_keys db) s) ≡ true)
            xs
    All-both [] a b = tt
    All-both (x ∷ xs) a b = (
      (λ h. contains-map-select waits x.media_key db.media_items ∙ a.0 (ground (arith, h, b.0))),
      All-both xs a.1 b.1,
    )

-- CountNeedingReview counts as many items as KeysWaitingForReview narrows the keys of all rows to, and
-- clearing the flag of those brings the count to zero.
settled_queue :
    (db : Db)
    → let offers = keys_waiting_for_review db (all_keys db) in
      (count_needing_review db ≡ length offers)
      × (count_needing_review (clear_needs_review offers db) ≡ 0)
unfolding count_needing_review clear_needs_review
settled_queue db = (
  counts-keys db (all_keys db) review_states (contains-all_keys db.media_items)
      ∙ ap length (sym (keys_waiting-states db (all_keys db))),
  rw (set_review-update false (keys_waiting_for_review db (all_keys db)) db)
      (omega (arith, cleared discovered fresh, cleared missing_upstream lost)),
)
  where
    offers : List String
    offers = keys_waiting_for_review db (all_keys db)

    in_either :
        (k : String)
        → contains k offers ≡ (
            contains k (keys_waiting_in_state db (all_keys db) discovered)
            || contains k (keys_waiting_in_state db (all_keys db) missing_upstream))
    in_either = contains-keys_waiting db (all_keys db)

    fresh :
        All
          (λ r. waiting_for_review db discovered r ≡ true → contains r.media_key offers ≡ true)
          db.media_items
    fresh =
        All-map _ _ db.media_items (λ r f h. ground (arith, in_either r.media_key, f h))
          (offered db discovered)

    lost :
        All
          (λ r.
            waiting_for_review db missing_upstream r ≡ true → contains r.media_key offers ≡ true)
          db.media_items
    lost =
        All-map _ _ db.media_items (λ r f h. ground (arith, in_either r.media_key, f h))
          (offered db missing_upstream)

    after : List Row
    after = update (λ r. contains r.media_key offers) (flagged false) db.media_items

    cleared :
        (s : State)
        → All
            (λ r. waiting_for_review db s r ≡ true → contains r.media_key offers ≡ true)
            db.media_items
        → count (waiting_for_review (record db { media_items = after }) s) after ≡ 0
    cleared s a = count_cleared db s offers after db.media_items a
