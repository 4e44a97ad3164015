-- ===== src/Store/Retirement.antt =====
-- internal/store/items.go: an item that failed too often stays off the work list (MarkFailed and Pending).
use gpb.Errors.{ok}
use gpb.Common.{
  ℕ, ◌≤◌, ◌≡◌, ◌⊎◌, refl, ◌∙◌, subst, inl, inr, true, false, List, [], ◌∷◌, map, String, arith,
  ◌==◌, string_eq, exists, select, All, All-delete, All-take, All-sort_by, Bool-cases,
}
use gpb.Store.Rows.{Row, Album, library_id, Db, scan_item}
use gpb.Store.Items.{
  state_set, downloaded_row, failed_row, written_off, has_key, set_item_state, mark_downloaded,
  mark_failed, mark_missing_upstream,
}
use gpb.Store.Membership.{pending, pending_order, is_owed}
use gpb.Store.Albums.{
  upsert_album, set_album_sync_mode, set_album_favourite, set_library, mark_library_walked_in_full,
  mark_album_synced, require_album,
}
use gpb.Store.Review.{flag_for_review, clear_needs_review}
use gpb.Store.Twins.{forget}
use gpb.Store.WellFormed.{require_album-ok}
use gpb.Store.Spent.{
  IsSpent, IsRetired, update-IsRetired, upsert_item-IsRetired, link-IsRetired,
  select_item-IsRetired, require-IsRetired, downloaded-IsSpent, set_review-IsRetired,
  reconcile-IsRetired, has_key-delete,
}
use gpb.Store.Invariant.{
  Step, lists, links, selects, sets, downloads, fails, misses, reconciles, flags, settles, forgets,
  lists_album, sets_mode, favours, instructs, walked_in_full, synced, Reach, here, next,
}

module _ (key : String) (limit : ℕ) where
  -- A call that neither downloads the item of the key nor forgets it.
  abbrev pub Spares : {db after : Db} → Step db after → Type 0
  Spares (downloads item at h) = (item.media_key == key) ≡ false
  Spares (forgets other) = (other == key) ≡ false
  Spares _ = Unit

  abbrev pub AllSpare : {db after : Db} → Reach db after → Type 0
  AllSpare here = Unit
  AllSpare (next reached step) = AllSpare reached × Spares step

  failed_row-IsSpent :
      (cause : String) (r : Row) → IsSpent key limit r → IsSpent key limit (failed_row cause r)
  failed_row-IsSpent cause r h = ground (arith, h)

  upsert_album-media_items :
      (album : Album) (seen : ℕ) (db : Db)
      → (upsert_album album seen db).media_items ≡ db.media_items
  unfolding upsert_album
  upsert_album-media_items album seen db =
      elim (Bool-cases (exists (λ a. a.id == album.id) db.albums)) [
        | inl old ↦ rw old refl
        | inr new ↦ rw new refl
      ]

  require_album-IsRetired :
      (id : String) (old new : Db) {after : Db}
      → require_album id old new ≡ ok after
      → IsRetired key limit new.media_items
      → IsRetired key limit after.media_items
  require_album-IsRetired id old new e h =
      subst (λ db. IsRetired key limit db.media_items) (require_album-ok id old new e) h

  Step-IsRetired :
      {db after : Db} (step : Step db after)
      → Spares step
      → IsRetired key limit db.media_items
      → IsRetired key limit after.media_items
  unfolding set_item_state mark_downloaded mark_failed mark_missing_upstream flag_for_review
      clear_needs_review forget set_album_sync_mode set_album_favourite set_library
      mark_library_walked_in_full mark_album_synced
  Step-IsRetired {db} (lists item at) s h = upsert_item-IsRetired key limit item at db h
  Step-IsRetired {db} (links album_id other) s h = link-IsRetired key limit album_id other db h
  Step-IsRetired {db} (selects other chosen) s h = select_item-IsRetired key limit other chosen db h
  Step-IsRetired {db} (sets other state live e) s h =
      require-IsRetired key limit (has_key other db.media_items) db _ e (
        update-IsRetired key limit (λ r. r.media_key == other) (state_set state) db.media_items
          (λ r. refl) (λ r _ k. k) h)
  Step-IsRetired {db} (downloads item at e) s h =
      require-IsRetired key limit (has_key item.media_key db.media_items) db _ e (
        update-IsRetired key limit (λ r. r.media_key == item.media_key) (downloaded_row item at)
          db.media_items (λ r. refl) (λ r same _. downloaded-IsSpent key limit item at r s same) h)
  Step-IsRetired {db} (fails other cause e) s h =
      require-IsRetired key limit (has_key other db.media_items) db _ e (
        update-IsRetired key limit (λ r. r.media_key == other) (failed_row cause) db.media_items
          (λ r. refl) (λ r _ k. failed_row-IsSpent cause r k) h)
  Step-IsRetired {db} (misses other at) s h =
      update-IsRetired key limit _ (written_off db.media_items at) db.media_items (λ r. refl)
        (λ r _ k. k) h
  Step-IsRetired {db} (reconciles album_id departed at) s h =
      reconcile-IsRetired key limit album_id departed at db h
  Step-IsRetired {db} (flags keys) s h = set_review-IsRetired key limit true keys db h
  Step-IsRetired {db} (settles keys) s h = set_review-IsRetired key limit false keys db h
  Step-IsRetired {db} (forgets other) s h = (
    has_key-delete key limit other db.media_items s ∙ h.0,
    All-delete (IsSpent key limit) (λ r. r.media_key == other) db.media_items h.1,
  )
  Step-IsRetired {db} (lists_album album seen) s h = rw (upsert_album-media_items album seen db) h
  Step-IsRetired {db} (sets_mode id mode e) s h = require_album-IsRetired id db _ e h
  Step-IsRetired {db} (favours id favourite e) s h = require_album-IsRetired id db _ e h
  Step-IsRetired {db} (instructs i e) s h = require_album-IsRetired library_id db _ e h
  Step-IsRetired {db} (walked_in_full at) s h = h
  Step-IsRetired {db} (synced id at) s h = h

  Reach-IsRetired :
      {db after : Db} (reached : Reach db after)
      → AllSpare reached
      → IsRetired key limit db.media_items
      → IsRetired key limit after.media_items
  Reach-IsRetired here s h = h
  Reach-IsRetired (next reached step) s h = Step-IsRetired step s.1 (Reach-IsRetired reached s.0 h)

  select-IsOther :
      (db : Db) (rows : List Row)
      → All (IsSpent key limit) rows
      → All (λ r. (r.media_key == key) ≡ false) (select (is_owed db limit) rows)
  unfolding is_owed
  select-IsOther db [] h = tt
  select-IsOther db (r ∷ rows) h = elim (Bool-cases (is_owed db limit r)) [
    | inl e ↦ rw e (ground (arith, h.0, e), select-IsOther db rows h.1)
    | inr e ↦ rw e (select-IsOther db rows h.1)
  ]

  exists-scan_item :
      (rows : List Row)
      → All (λ r. (r.media_key == key) ≡ false) rows
      → exists (λ item. item.media_key == key) (map scan_item rows) ≡ false
  unfolding scan_item
  exists-scan_item [] h = refl
  exists-scan_item (r ∷ rows) h = ground (arith, h.0, exists-scan_item rows h.1)

  pending-IsRetired :
      (db : Db) (size : ℕ)
      → IsRetired key limit db.media_items
      → exists (λ item. item.media_key == key) (pending db limit size) ≡ false
  unfolding pending
  pending-IsRetired db size h = exists-scan_item _ (
      All-take _ size _ (
        All-sort_by (pending_order db) _ (select (is_owed db limit) db.media_items)
          (select-IsOther db db.media_items h.1)))

-- An item that has a row, and every row of whose key counts as many failures as the limit or more, is on
-- no later work list of that limit, whatever calls of the store follow, in whatever order: of the calls
-- that Step of Store.Invariant lists, save a MarkDownloaded and a Forget of that key.
pub Reach-retired :
    (key : String) (limit size : ℕ) {db after : Db} (reached : Reach db after)
    → AllSpare key limit reached
    → has_key key db.media_items ≡ true
    → All (λ r. ((r.media_key == key) ≡ false) ⊎ (limit ≤ r.fail_count)) db.media_items
    → exists (λ item. item.media_key == key) (pending after limit size) ≡ false
Reach-retired key limit size {db} {after} reached spares row spent =
    pending-IsRetired key limit after size (Reach-IsRetired key limit reached spares (row, spent))
