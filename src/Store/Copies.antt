-- ===== src/Store/Copies.antt =====
-- What the duplicates command is given and forgets (internal/store/twins.go).
use gpb.Common.{
  ◌≡◌, ◌≢◌, ◌⊎◌, refl, ap, inl, inr, Bool, true, false, ◌&&◌, not, Option, none, some, List, [],
  ◌∷◌, ◌++◌, map, String, arith, ◌==◌, ==_iff, string_eq, is_some, exists, sql_is, All, All-append,
  All-select, All-sort_by, Bool-cases, Eq, nat_eq, sql_eq, exists-delete_all,
}
use gpb.Store.Rows.{done, missing_upstream, state_eq, Row, Db}
use gpb.Store.Items.{same_bytes_copy, same_name_copy, sql_ge}
use gpb.Store.Twins.{
  Pairing, to_twin, written_off_twins, all_pairings, pairing_order, join_pairs, pairings_of,
  written_off_with_a_file, first_of_each, forget,
}

-- What makes `kept` a copy that may stand in for `r`.
pub record IsTwin (p : Pairing) : Type 0 where
  pub gone : p.written_off.state ≡ missing_upstream
  pub has_file : is_some p.written_off.local_path ≡ true
  pub backed_up : p.kept.state ≡ done
  pub kept_file : is_some p.kept.local_path ≡ true
  pub other_key : p.kept.media_key ≢ p.written_off.media_key
  pub same_photo :
      ((p.same_bytes ≡ true)
        × (p.kept.sha256 ≡ p.written_off.sha256)
        × (is_some p.kept.sha256 ≡ true))
      ⊎ ((p.same_bytes ≡ false)
          × (p.kept.filename ≡ p.written_off.filename)
          × (p.kept.captured_at ≡ p.written_off.captured_at)
          × (sql_ge p.kept.size_bytes p.written_off.size_bytes ≡ true))

sql_eq-some {ℓ} :
    {A : Type ℓ} ⦃e : Eq A⦄ (a b : Option A) → sql_eq a b ≡ true → (a ≡ b) × (is_some a ≡ true)
sql_eq-some ⦃e⦄ none none h = cc
sql_eq-some ⦃e⦄ none (some b) h = cc
sql_eq-some ⦃e⦄ (some a) none h = cc
sql_eq-some ⦃e⦄ (some a) (some b) h = (ap some ((e.same_iff a b).0 h), refl)

bytes-IsTwin :
    (r copy : Row)
    → (same_bytes_copy r copy && written_off_with_a_file r copy) ≡ true
    → IsTwin (record { written_off = r; kept = copy; same_bytes = true })
unfolding same_bytes_copy written_off_with_a_file
bytes-IsTwin r copy h =
    let (same, known) = sql_eq-some copy.sha256 r.sha256 (ground arith) in
    record {
      gone = ground arith;
      has_file = ground arith;
      backed_up = ground arith;
      kept_file = ground arith;
      other_key = ground (arith, ==_iff copy.media_key r.media_key);
      same_photo = inl (refl, same, known);
    }

name-IsTwin :
    (r copy : Row)
    → (same_name_copy r copy && written_off_with_a_file r copy) ≡ true
    → IsTwin (record { written_off = r; kept = copy; same_bytes = false })
unfolding same_name_copy written_off_with_a_file
name-IsTwin r copy h =
    let (taken, _) = sql_eq-some copy.captured_at r.captured_at (ground arith) in
    record {
      gone = ground arith;
      has_file = ground arith;
      backed_up = ground arith;
      kept_file = ground arith;
      other_key = ground (arith, ==_iff copy.media_key r.media_key);
      same_photo = inr (refl, ground (arith, ==_iff copy.filename r.filename), taken, ground arith);
    }

module _ (is_copy : Row → Row → Bool) (same : Bool)
    (sound : (r copy : Row)
      → (is_copy r copy && written_off_with_a_file r copy) ≡ true
      → IsTwin (record { written_off = r; kept = copy; same_bytes = same })) where
  pairs-IsTwin :
      (r : Row) (copies : List Row)
      → All (λ copy. (is_copy r copy && written_off_with_a_file r copy) ≡ true) copies
      → All IsTwin (map (λ copy. record { written_off = r; kept = copy; same_bytes = same }) copies)
  pairs-IsTwin r [] a = tt
  pairs-IsTwin r (c ∷ copies) a = (sound r c a.0, pairs-IsTwin r copies a.1)

  join_pairs-IsTwin : (table rows : List Row) → All IsTwin (join_pairs is_copy same table rows)
  unfolding join_pairs pairings_of
  join_pairs-IsTwin table [] = tt
  join_pairs-IsTwin table (r ∷ rows) =
      All-append IsTwin (pairings_of is_copy same table r) (join_pairs is_copy same table rows)
        (pairs-IsTwin r _
          (All-select (λ copy. is_copy r copy && written_off_with_a_file r copy) table))
        (join_pairs-IsTwin table rows)

all_pairings-IsTwin : (table : List Row) → All IsTwin (all_pairings table)
unfolding all_pairings
all_pairings-IsTwin table =
    All-sort_by pairing_order IsTwin
      (join_pairs same_bytes_copy true table table ++ join_pairs same_name_copy false table table)
      (All-append IsTwin _ _ (join_pairs-IsTwin same_bytes_copy true bytes-IsTwin table table)
        (join_pairs-IsTwin same_name_copy false name-IsTwin table table))

first_of_each-All {κ} :
    (P : Pairing → Type κ) (last : Option String) (ps : List Pairing)
    → All P ps
    → All P (first_of_each last ps)
unfolding first_of_each
first_of_each-All P last [] a = tt
first_of_each-All P last (p ∷ ps) a =
    elim (Bool-cases (sql_is last (some p.written_off.media_key))) [
      | inl e ↦ rw e (first_of_each-All P (some p.written_off.media_key) ps a.1)
      | inr e ↦ rw e (a.0, first_of_each-All P (some p.written_off.media_key) ps a.1)
    ]

-- Every twin that the duplicates command is given pairs a written-off file with a backed-up one under
-- another key, and the two have the same recorded hash, or the same name and capture time with the
-- one that stays at least as large.
pub written_off_twins_lem :
    (db : Db)
    → (pairs : List Pairing) × (written_off_twins db ≡ map to_twin pairs) × All IsTwin pairs
unfolding written_off_twins
written_off_twins_lem db = (
  first_of_each none (all_pairings db.media_items),
  refl,
  first_of_each-All IsTwin none (all_pairings db.media_items) (all_pairings-IsTwin db.media_items),
)

-- Forgetting a key leaves no row, membership or selection of it, and every one of another key.
pub forget_lem :
    (key other : String) (db : Db)
    → let after = forget key db in
      (exists (λ r. r.media_key == other) after.media_items
        ≡ (exists (λ r. r.media_key == other) db.media_items && not (other == key)))
      × (exists (λ l. l.media_key == other) after.album_items
          ≡ (exists (λ l. l.media_key == other) db.album_items && not (other == key)))
      × (exists (λ s. s.media_key == other) after.media_selection
          ≡ (exists (λ s. s.media_key == other) db.media_selection && not (other == key)))
unfolding forget
forget_lem key other db = (
  exists-delete_all (λ r. r.media_key == other) _ (other == key) db.media_items
      (λ r h. ap (λ k. k == key) ((==_iff r.media_key other).0 h)),
  exists-delete_all (λ l. l.media_key == other) _ (other == key) db.album_items
      (λ l h. ap (λ k. k == key) ((==_iff l.media_key other).0 h)),
  exists-delete_all (λ s. s.media_key == other) _ (other == key) db.media_selection
      (λ s h. ap (λ k. k == key) ((==_iff s.media_key other).0 h)),
)
