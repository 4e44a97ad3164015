-- ===== src/Store/Spent.antt =====
-- internal/store: what each statement keeps of an item that failed as often as the limit allows.
use gpb.Errors.{ok}
use gpb.Common.{
  chunk, length, ℕ, ◌≤◌, ◌≡◌, ◌⊎◌, refl, sym, ◌∙◌, subst, inl, inr, Bool, true, false, ◌&&◌, List,
  [], ◌∷◌, ◌++◌, String, arith, ◌==◌, ==_iff, string_eq, exists, exists-append,
  exists-update_reading, All, All-append, All-update, All-update_reading, Bool-cases, update,
  delete,
}
use gpb.Store.Rows.{state_eq, Row, MediaItem, Db}
use gpb.Store.Items.{
  new_row, upsert_row, downloaded_row, written_off, has_key, require_one_row, upsert_item,
}
use gpb.Store.Membership.{
  departure_chunk, link_item_to_album, select_item, reconcile, reconcile_chunks, is_gone,
}
use gpb.Store.Review.{set_review, flag_for_review}
use gpb.Store.WellFormed.{require_one_row-ok, upsert_row-key}

module _ (key : String) (limit : ℕ) where
  -- A row of another key, or one with as many failures as the limit.
  abbrev pub IsSpent : Row → Type 0
  IsSpent r = ((r.media_key == key) ≡ false) ⊎ (limit ≤ r.fail_count)

  -- The key has a row, and its failures are as many as the limit.
  abbrev pub IsRetired : List Row → Type 0
  IsRetired rows = (has_key key rows ≡ true) × All IsSpent rows

  pub update-IsRetired :
      (p : Row → Bool) (f : Row → Row) (rows : List Row)
      → ((r : Row) → (f r).media_key ≡ r.media_key)
      → ((r : Row) → p r ≡ true → IsSpent r → IsSpent (f r))
      → IsRetired rows
      → IsRetired (update p f rows)
  update-IsRetired p f rows same keeps h =
      (exists_updated rows ∙ h.0, All-update IsSpent p f rows keeps h.1)
    where
      exists_updated : (xs : List Row) → has_key key (update p f xs) ≡ has_key key xs
      exists_updated [] = refl
      exists_updated (x ∷ xs) = ground (arith, same x, exists_updated xs)

  upsert_row-IsSpent : (item : MediaItem) (r : Row) → IsSpent r → IsSpent (upsert_row item r)
  unfolding upsert_item
  upsert_row-IsSpent item r h = ground (arith, h)

  insert-IsRetired :
      (r : Row) (rows : List Row)
      → has_key r.media_key rows ≡ false
      → IsRetired rows
      → IsRetired (rows ++ r ∷ [])
  insert-IsRetired r rows new h = (
    exists-append (λ x. x.media_key == key) rows (r ∷ []) ∙ ground (arith, h.0),
    All-append IsSpent rows (r ∷ []) h.1 (other (Bool-cases (r.media_key == key)), tt),
  )
    where
      other : (((r.media_key == key) ≡ true) ⊎ ((r.media_key == key) ≡ false)) → IsSpent r
      other (inr e) = inl e
      other (inl e) = absurd (
          ground
            (arith, h.0, subst (λ k. has_key k rows ≡ false) ((==_iff r.media_key key).0 e) new))

  pub upsert_item-IsRetired :
      (item : MediaItem) (at : ℕ) (db : Db)
      → IsRetired db.media_items
      → IsRetired (upsert_item item at db).media_items
  unfolding upsert_item
  upsert_item-IsRetired item at db h =
      elim (Bool-cases (exists (λ r. r.media_key == item.media_key) db.media_items)) [
        | inl old ↦ rw old (
            update-IsRetired (λ r. r.media_key == item.media_key) (upsert_row item) db.media_items
              (upsert_row-key item) (λ r _. upsert_row-IsSpent item r) h)
        | inr new ↦ rw new (insert-IsRetired (new_row item at) db.media_items new h)
      ]

  pub link-IsRetired :
      (album_id other : String) (db : Db)
      → IsRetired db.media_items
      → IsRetired (link_item_to_album album_id other db).media_items
  unfolding link_item_to_album
  link-IsRetired album_id other db h =
      elim (Bool-cases
        (exists (λ l. l.album_id == album_id && l.media_key == other) db.album_items)) [
          | inl old ↦ rw old h
          | inr new ↦ rw new h
        ]

  pub select_item-IsRetired :
      (other : String) (chosen : Bool) (db : Db)
      → IsRetired db.media_items
      → IsRetired (select_item other chosen db).media_items
  unfolding select_item
  select_item-IsRetired other chosen db h =
      elim (Bool-cases (exists (λ s. s.media_key == other) db.media_selection)) [
        | inl old ↦ rw old h
        | inr new ↦ rw new h
      ]

  -- A statement on the row of one key, which has to be there.
  pub require-IsRetired :
      (found : Bool) (old new : Db) {after : Db}
      → require_one_row found old new ≡ ok after
      → IsRetired new.media_items
      → IsRetired after.media_items
  require-IsRetired found old new e h =
      subst (λ db. IsRetired db.media_items) (require_one_row-ok found old new e) h

  pub downloaded-IsSpent :
      (item : MediaItem) (at : ℕ) (r : Row)
      → (item.media_key == key) ≡ false
      → (r.media_key == item.media_key) ≡ true
      → IsSpent (downloaded_row item at r)
  downloaded-IsSpent item at r other same =
      inl (subst (λ k. (k == key) ≡ false) (sym ((==_iff r.media_key item.media_key).0 same)) other)

  pub set_review-IsRetired :
      (flag : Bool) (keys : List String) (db : Db)
      → IsRetired db.media_items
      → IsRetired (set_review flag keys db).media_items
  unfolding flag_for_review
  set_review-IsRetired flag [] db h = h
  set_review-IsRetired flag (k ∷ keys) db h = set_review-IsRetired flag keys _ (
      update-IsRetired (λ r. r.media_key == k) (λ r. record r { needs_review = flag })
        db.media_items (λ r. refl) (λ r _ s. s) h)

  reconcile_chunks-IsRetired :
      (album_id : String) (at : ℕ) (chunks : List (List String)) (db : Db) (counts : ℕ × ℕ)
      → IsRetired db.media_items
      → IsRetired (reconcile_chunks album_id at chunks db counts).0.media_items
  unfolding reconcile
  reconcile_chunks-IsRetired album_id at [] db counts h = h
  reconcile_chunks-IsRetired album_id at (keys ∷ rest) db counts h =
      reconcile_chunks-IsRetired album_id at rest _ _ (
        exists-update_reading (λ r. r.media_key == key) (is_gone album_id keys db.album_items)
              (λ table. written_off table at) [] db.media_items (λ t r. refl)
            ∙ h.0,
        All-update_reading IsSpent (is_gone album_id keys db.album_items)
            (λ table. written_off table at) [] db.media_items (λ t r _ s. s) h.1,
      )

  pub reconcile-IsRetired :
      (album_id : String) (departed : List String) (at : ℕ) (db : Db)
      → IsRetired db.media_items
      → IsRetired (reconcile album_id departed at db).0.media_items
  unfolding reconcile
  reconcile-IsRetired album_id [] at db h = h
  reconcile-IsRetired album_id (d ∷ departed) at db h =
      reconcile_chunks-IsRetired album_id at
        (chunk (length (d ∷ departed)) departure_chunk (d ∷ departed)) db (0, 0) h

  pub has_key-delete :
      (other : String) (rows : List Row)
      → (other == key) ≡ false
      → has_key key (delete (λ r. r.media_key == other) rows) ≡ has_key key rows
  has_key-delete other [] n = refl
  has_key-delete other (r ∷ rows) n = elim (Bool-cases (r.media_key == other)) [
    | inr e ↦ rw e (ground (arith, has_key-delete other rows n))
    | inl e ↦
        let not_it : (r.media_key == key) ≡ false =
          subst (λ k. (k == key) ≡ false) (sym ((==_iff r.media_key other).0 e)) n in
        rw (e, not_it) (has_key-delete other rows n)
  ]
