-- ===== src/Syncer/Queue/Offers.antt =====
-- What one offer of internal/syncer/queue.go hands out, and what feed makes of it.
use gpb.Errors.{Result, ok, err, Failure}
use gpb.Common.{
  ℕ, ◌+◌, ◌≤◌, ◌<◌, ◌≡◌, ◌≢◌, ◌⊎◌, refl, sym, ap, inl, inr, Bool, true, false, List, [], ◌∷◌,
  String, ==_refl, nat_eq, string_eq, contains, leb, length, arith, All, Bool-cases,
}
use gpb.Store.Rows.{MediaItem}
use gpb.Syncer.Queue.{
  Handing, no_room, taken, cancelled, Offer, through, full, stopped, out_of_room, offer, Turn, Fed,
  nothing_left, Next, ends, goes_on, re_read, after_offer,
}

-- No key twice.
abbrev pub HasNoRepeat : List String → Type 0
HasNoRepeat [] = Unit
HasNoRepeat (key ∷ keys) = (contains key keys ≡ false) × HasNoRepeat keys

-- How an offer may end: more keys than before, as many as fresh says, none twice and not too many.
abbrev pub IsGiven : ℕ → List String → ℕ → List String × ℕ × Offer × List MediaItem → Type 0
IsGiven max_items offered fresh (given, more, ended, sent) =
    HasNoRepeat given × (length given ≤ max_items) × (length given + fresh ≡ length offered + more)

pub Handing-cases :
    (h : Handing) → ((cause : Failure) × (h ≡ no_room cause)) ⊎ (h ≡ taken) ⊎ (h ≡ cancelled)
Handing-cases (no_room cause) = inl (cause, refl)
Handing-cases taken = inr (inl refl)
Handing-cases cancelled = inr (inr refl)

pub offer-IsGiven :
    (handing : ℕ → Handing) (max_items : ℕ) (batch : List MediaItem) (offered : List String)
    (fresh : ℕ) (sent : List MediaItem)
    → HasNoRepeat offered
    → length offered ≤ max_items
    → IsGiven max_items offered fresh (offer handing max_items batch offered fresh sent)
unfolding offer
offer-IsGiven handing max_items [] offered fresh sent n le = (n, le, refl)
offer-IsGiven handing max_items (item ∷ batch) offered fresh sent n le =
    elim (Bool-cases (contains item.media_key offered)) [
      | inl seen ↦ rw (seen, offer) (offer-IsGiven handing max_items batch offered fresh sent n le)
      | inr new ↦ elim (Bool-cases (leb max_items (length offered))) [
        | inl enough ↦ rw (new, enough, offer) (n, le, refl)
        | inr less ↦ ground (
          arith,
          new,
          less,
          n,
          le,
          Handing-cases (handing (length sent)),
          offer-IsGiven handing max_items batch (item.media_key ∷ offered) (fresh + 1) (item ∷ sent)
              (new, n),
        )
      ]
    ]

pub contains-offer :
    (handing : ℕ → Handing) (max_items : ℕ) (batch : List MediaItem) (offered : List String)
    (fresh : ℕ) (sent : List MediaItem) (key : String)
    → contains key offered ≡ true
    → contains key (offer handing max_items batch offered fresh sent).0 ≡ true
unfolding offer
contains-offer handing max_items [] offered fresh sent key h = h
contains-offer handing max_items (item ∷ batch) offered fresh sent key h = ground (
  arith,
  h,
  Handing-cases (handing (length sent)),
  contains-offer handing max_items batch offered fresh sent key h,
  contains-offer handing max_items batch (item.media_key ∷ offered) (fresh + 1) (item ∷ sent) key
      (ground (arith, h)),
)

pub offer-through :
    (handing : ℕ → Handing) (max_items : ℕ) (batch : List MediaItem) (offered : List String)
    (fresh : ℕ) (sent : List MediaItem) (o : List String × ℕ × Offer × List MediaItem)
    → offer handing max_items batch offered fresh sent ≡ o
    → o.2 ≡ through
    → All (λ item. contains item.media_key o.0 ≡ true) batch
unfolding offer
offer-through handing max_items [] offered fresh sent o e h = tt
offer-through handing max_items (item ∷ batch) offered fresh sent o e h =
    elim (Bool-cases (contains item.media_key offered)) [
      | inl seen ↦
          let e' : offer handing max_items batch offered fresh sent ≡ o = ground (arith, e, seen) in
          (
            rw (sym e')
                (contains-offer handing max_items batch offered fresh sent item.media_key seen),
            offer-through handing max_items batch offered fresh sent o e' h,
          )
      | inr new ↦
          let offered' = item.media_key ∷ offered in
          let e' : offer handing max_items batch offered' (fresh + 1) (item ∷ sent) ≡ o =
            ground (arith, e, h, new, Handing-cases (handing (length sent))) in
          (
            rw (sym e') (
                contains-offer handing max_items batch offered' (fresh + 1) (item ∷ sent)
                  item.media_key (ground (arith, ==_refl item.media_key))),
            offer-through handing max_items batch offered' (fresh + 1) (item ∷ sent) o e' h,
          )
    ]

pub re_read-goes_on :
    (pending : Result (List MediaItem)) (batch : List MediaItem)
    → re_read pending ≡ goes_on batch
    → pending ≡ ok batch
re_read-goes_on (ok b) batch h = ground (arith, h)
re_read-goes_on (err cause) batch h = ground (arith, h)

pub after_offer-goes_on :
    (max_items : ℕ) (turn : Turn) (over : Bool) (o : List String × ℕ × Offer × List MediaItem)
    (batch : List MediaItem)
    → after_offer max_items turn over o ≡ goes_on batch
    → (turn.pending ≡ ok batch) × (length o.0 < max_items) × ((o.1 ≢ 0) ⊎ (over ≡ false))
unfolding after_offer
after_offer-goes_on max_items turn over (offered, fresh, out_of_room cause, sent) batch h =
    ground (arith, h)
after_offer-goes_on max_items turn over (offered, fresh, through, sent) batch h =
    ground (arith, h, re_read-goes_on turn.pending batch)
after_offer-goes_on max_items turn over (offered, fresh, full, sent) batch h =
    ground (arith, h, re_read-goes_on turn.pending batch)
after_offer-goes_on max_items turn over (offered, fresh, stopped, sent) batch h = ground (arith, h)

pub re_read-ends : (pending : Result (List MediaItem)) → re_read pending ≢ ends nothing_left
re_read-ends (ok b) h = ground (arith, h)
re_read-ends (err cause) h = ground (arith, h)

pub after_offer-nothing_left :
    (max_items : ℕ) (turn : Turn) (over : Bool) (o : List String × ℕ × Offer × List MediaItem)
    → length o.0 ≤ max_items
    → after_offer max_items turn over o ≡ ends nothing_left
    → (over ≡ true) × (length o.0 < max_items) × ((o.2 ≡ through) ⊎ (o.2 ≡ full))
unfolding after_offer
after_offer-nothing_left max_items turn over (offered, fresh, out_of_room cause, sent) le h =
    ground (arith, h)
after_offer-nothing_left max_items turn over (offered, fresh, through, sent) le h =
    ground (arith, h, re_read-ends turn.pending)
after_offer-nothing_left max_items turn over (offered, fresh, full, sent) le h =
    ground (arith, h, re_read-ends turn.pending)
after_offer-nothing_left max_items turn over (offered, fresh, stopped, sent) le h =
    ground (arith, h)

pub offer-full :
    (handing : ℕ → Handing) (max_items : ℕ) (batch : List MediaItem) (offered : List String)
    (fresh : ℕ) (sent : List MediaItem)
    → (offer handing max_items batch offered fresh sent).2 ≡ full
    → max_items ≤ length (offer handing max_items batch offered fresh sent).0
unfolding offer
offer-full handing max_items [] offered fresh sent h = ground (arith, h)
offer-full handing max_items (item ∷ batch) offered fresh sent h = ground (
  arith,
  h,
  Handing-cases (handing (length sent)),
  offer-full handing max_items batch offered fresh sent,
  offer-full handing max_items batch (item.media_key ∷ offered) (fresh + 1) (item ∷ sent),
)

pub Next-cases :
    (next : Next)
    → ((fed : Fed) × (next ≡ ends fed)) ⊎ ((batch : List MediaItem) × (next ≡ goes_on batch))
Next-cases (ends fed) = inl (fed, refl)
Next-cases (goes_on batch) = inr (batch, refl)

-- The keys of items, in their order.
abbrev pub keys_of : List MediaItem → List String
keys_of [] = []
keys_of (item ∷ items) = item.media_key ∷ keys_of items

pub offer-keys_of :
    (handing : ℕ → Handing) (max_items : ℕ) (batch : List MediaItem) (offered : List String)
    (fresh : ℕ) (sent : List MediaItem)
    → keys_of sent ≡ offered
    → let o = offer handing max_items batch offered fresh sent in keys_of o.3 ≡ o.0
unfolding offer
offer-keys_of handing max_items [] offered fresh sent h = h
offer-keys_of handing max_items (item ∷ batch) offered fresh sent h = ground (
  arith,
  h,
  ap (λ keys. item.media_key ∷ keys) h,
  Handing-cases (handing (length sent)),
  offer-keys_of handing max_items batch offered fresh sent,
  offer-keys_of handing max_items batch (item.media_key ∷ offered) (fresh + 1) (item ∷ sent),
)

pub length-keys_of : (items : List MediaItem) → length (keys_of items) ≡ length items
length-keys_of [] = refl
length-keys_of (item ∷ items) = ground (arith, length-keys_of items)
