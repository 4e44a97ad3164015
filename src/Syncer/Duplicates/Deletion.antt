-- ===== src/Syncer/Duplicates/Deletion.antt =====
-- What RemoveTwins (internal/syncer/twins.go) deletes, and on what evidence.
use gpb.Common.{
  ◌≡◌, ◌⊎◌, refl, sym, ap, ◌∙◌, subst, inl, inr, Bool, true, false, Option, none, some, List, [],
  ◌∷◌, ◌++◌, String, ◌==◌, ==_iff, string_eq, find, arith, All, All-append, Bool-cases,
  Option-cases, find_holds, is_some, length,
}
use gpb.Store.Rows.{Db, MediaItem}
use gpb.Store.Twins.{Twin}
use gpb.Syncer.Duplicates.{
  Digest, absent, Refusal, Removal, Pass, Outside, kept_copy_is_intact, verify, settle, remove_each,
  unlinked,
}

intact-before :
    (equal_fold : String → String → Bool) (before now : String → Digest) (kept : MediaItem)
    → ((path : String) → (now path ≡ before path) ⊎ (now path ≡ absent))
    → kept_copy_is_intact equal_fold now kept ≡ none
    → kept_copy_is_intact equal_fold before kept ≡ none
unfolding kept_copy_is_intact
intact-before equal_fold before now kept only h = ground (arith, h, only kept.local_path)

find-All :
    (P : String × Option Refusal → Type 0) (p : String × Option Refusal → Bool)
    (xs : List (String × Option Refusal)) (x : String × Option Refusal)
    → All P xs
    → find p xs ≡ some x
    → P x
find-All P p [] x a h = ground (arith, h)
find-All P p (y ∷ xs) x a h = elim (Bool-cases (p y)) [
  | inl e ↦ let q : y ≡ x = ground (arith, h, e) in subst P q a.0
  | inr e ↦ find-All P p xs x a.1 (ground (arith, h, e))
]

-- Of some of the removals P holds.
abbrev pub SomeRemoval : (Removal → Type 0) → List Removal → Type 0
SomeRemoval P [] = ⊥
SomeRemoval P (r ∷ rs) = P r ⊎ SomeRemoval P rs

SomeRemoval-append :
    (P : Removal → Type 0) (rs later : List Removal)
    → SomeRemoval P rs
    → SomeRemoval P (rs ++ later)
SomeRemoval-append P [] later h = elim h [ ]
SomeRemoval-append P (r ∷ rs) later (inl h) = inl h
SomeRemoval-append P (r ∷ rs) later (inr h) = inr (SomeRemoval-append P rs later h)

SomeRemoval-last :
    (P : Removal → Type 0) (rs : List Removal) (r : Removal) → P r → SomeRemoval P (rs ++ r ∷ [])
SomeRemoval-last P [] r h = inl h
SomeRemoval-last P (first ∷ rs) r h = inr (SomeRemoval-last P rs r h)

module _ (outside : Outside) (before : String → Digest) (item_of : String → MediaItem) where
  abbrev WasIntact : MediaItem → Type 0
  WasIntact kept = kept_copy_is_intact outside.equal_fold before kept ≡ none

  abbrev IsVerified : String × Option Refusal → Type 0
  IsVerified v = (is_some v.1 ≡ true) ⊎ WasIntact (item_of v.0)

  abbrev IsJustified : Removal → Type 0
  IsJustified r = (r.removed ≡ false) ⊎ WasIntact r.twin.kept

  -- The removal of the file at a path, on the evidence of a kept copy.
  abbrev Unlinked : String → Removal → Type 0
  Unlinked path r =
      (r.removed ≡ true) × (r.twin.written_off.local_path ≡ path) × WasIntact r.twin.kept

  abbrev IsAccounted : (String → Digest) → List Removal → Type 0
  IsAccounted disk removals =
      (path : String)
      → (disk path ≡ before path) ⊎ ((disk path ≡ absent) × SomeRemoval (Unlinked path) removals)

  later_IsAccounted :
      (disk : String → Digest) (removals later : List Removal)
      → IsAccounted disk removals
      → IsAccounted disk (removals ++ later)
  later_IsAccounted disk removals later h path = elim (h path) [
    | inl same ↦ inl same
    | inr (gone, r) ↦ inr (gone, SomeRemoval-append (Unlinked path) removals later r)
  ]

  unlinked-IsAccounted :
      (disk : String → Digest) (removals : List Removal) (r : Removal)
      → r.removed ≡ true
      → WasIntact r.twin.kept
      → IsAccounted disk removals
      → IsAccounted (unlinked r.twin.written_off.local_path disk) (removals ++ r ∷ [])
  unlinked-IsAccounted disk removals r removed intact h path =
      elim (Bool-cases (r.twin.written_off.local_path == path)) [
        | inl e ↦
            let same = (==_iff r.twin.written_off.local_path path).0 e in
            inr (rw e refl, SomeRemoval-last (Unlinked path) removals r (removed, same, intact))
        | inr e ↦ rw e (later_IsAccounted disk removals (r ∷ []) h path)
      ]

  record IsSound (pass : Pass) : Type 0 where
    only_unlinked : IsAccounted pass.disk pass.removals
    verdicts : All IsVerified pass.verified
    justified : All IsJustified pass.removals

  fresh_verdict :
      (kept : MediaItem) (pass : Pass)
      → IsSound pass
      → (is_some (kept_copy_is_intact outside.equal_fold pass.disk kept) ≡ true) ⊎ WasIntact kept
  fresh_verdict kept pass s =
      elim (Option-cases (kept_copy_is_intact outside.equal_fold pass.disk kept)) [
        | inl e ↦ inr (
            intact-before outside.equal_fold before pass.disk kept
              (λ path. ground (arith, s.only_unlinked path)) e)
        | inr (refusal, e) ↦ inl (ap is_some e)
      ]

  verify_sound :
      (twin : Twin) (pass : Pass)
      → twin.kept ≡ item_of twin.kept.media_key
      → IsSound pass
      → ((is_some (verify outside twin pass).0 ≡ true) ⊎ WasIntact twin.kept)
        × All IsVerified (verify outside twin pass).1
  unfolding verify
  verify_sound twin pass known s =
      elim (Option-cases (find (λ v. v.0 == twin.kept.media_key) pass.verified)) [
        | inr ((key, refusal), e) ↦
            let old =
              find-All IsVerified (λ v. v.0 == twin.kept.media_key) pass.verified (key, refusal)
                s.verdicts e in
            let same : key ≡ twin.kept.media_key = (==_iff key twin.kept.media_key).0 (
              find_holds (λ (v : String × Option Refusal). v.0 == twin.kept.media_key) pass.verified
                (key, refusal) e) in
            let kept_same : item_of key ≡ twin.kept = ap item_of same ∙ sym known in
            let verdict : (is_some refusal ≡ true) ⊎ WasIntact twin.kept =
              subst (λ k. (is_some refusal ≡ true) ⊎ WasIntact k) kept_same old in
            rw (e, verify) (verdict, s.verdicts)
        | inl e ↦
            let verdict = fresh_verdict twin.kept pass s in
            rw (e, verify)
              (
                verdict,
                (
                  subst
                      (λ k.
                        (is_some (kept_copy_is_intact outside.equal_fold pass.disk twin.kept)
                          ≡ true)
                        ⊎ WasIntact k)
                      known verdict,
                  s.verdicts,
                ),
              )
      ]

  settle-IsSound :
      (remove : Bool) (twin : Twin) (refusal : Option Refusal) (pass : Pass)
      → (is_some refusal ≡ true) ⊎ WasIntact twin.kept
      → IsSound pass
      → IsSound (settle outside remove twin refusal pass).0
  unfolding settle
  settle-IsSound remove twin (some refusal) pass h s = record {
    only_unlinked = later_IsAccounted pass.disk pass.removals _ s.only_unlinked;
    verdicts = s.verdicts;
    justified = All-append IsJustified pass.removals _ s.justified (inl refl, tt);
  }
  settle-IsSound false twin none pass h s = record {
    only_unlinked = later_IsAccounted pass.disk pass.removals _ s.only_unlinked;
    verdicts = s.verdicts;
    justified = All-append IsJustified pass.removals _ s.justified (inl refl, tt);
  }
  settle-IsSound true twin none pass h s =
      elim (Option-cases (outside.unlink_fails twin.written_off.local_path)) [
        | inr (cause, e) ↦ rw (e, settle) s
        | inl e ↦
            let intact : WasIntact twin.kept = ground (arith, h) in
            rw (e, settle)
              (record {
                only_unlinked =
                    unlinked-IsAccounted pass.disk pass.removals
                      (record { twin = twin; removed = true; refusal = none }) refl intact
                      s.only_unlinked;
                verdicts = s.verdicts;
                justified = All-append IsJustified pass.removals _ s.justified (inr intact, tt);
              })
      ]

  remove_each-IsSound :
      (remove : Bool) (twins : List Twin) (pass : Pass)
      → All (λ twin. twin.kept ≡ item_of twin.kept.media_key) twins
      → IsSound pass
      → IsSound (remove_each outside remove twins pass).0
  unfolding remove_each
  remove_each-IsSound remove [] pass known s = s
  remove_each-IsSound remove (twin ∷ twins) pass known s =
      elim (Option-cases (outside.cancelled (length pass.removals))) [
        | inr (cause, e) ↦ rw (e, remove_each) s
        | inl e ↦
            let (refusal, verified) = verify outside twin pass in
            let v = verify_sound twin pass known.0 s in
            let checked : IsSound (record pass { verified = verified }) = record {
              only_unlinked = s.only_unlinked;
              verdicts = v.1;
              justified = s.justified;
            } in
            let settled =
              settle-IsSound remove twin refusal (record pass { verified = verified }) v.0
                checked in
            let next = settle outside remove twin refusal (record pass { verified = verified }) in
            elim (Option-cases next.1) [
              | inr (cause, e') ↦ rw (e, e', remove_each) settled
              | inl e' ↦
                  rw (e, e', remove_each) (remove_each-IsSound remove twins next.0 known.1 settled)
            ]
      ]

abbrev pub at_first : Db → (String → Digest) → Pass
at_first db disk = record {
  db = db;
  disk = disk;
  verified = [];
  removals = [];
  removed = 0;
  freed = 0;
  refused = 0;
}

-- Where the kept copy of each twin is the item that its key names: of the disk nothing changes in a pass
-- but that files are gone, and each of those was the written-off copy of a removal that is recorded as
-- done, whose kept copy, on the disk as the pass found it, hashed to what was recorded for it. Every
-- removal that is recorded as done has such a kept copy.
pub remove_each-justified :
    (outside : Outside) (remove : Bool) (twins : List Twin) (db : Db) (disk : String → Digest)
    (item_of : String → MediaItem)
    → All (λ twin. twin.kept ≡ item_of twin.kept.media_key) twins
    → All
        (λ r.
          (r.removed ≡ false) ⊎ (kept_copy_is_intact outside.equal_fold disk r.twin.kept ≡ none))
        (remove_each outside remove twins (at_first db disk)).0.removals
      × ((path : String)
          → ((remove_each outside remove twins (at_first db disk)).0.disk path ≡ disk path)
            ⊎ (((remove_each outside remove twins (at_first db disk)).0.disk path ≡ absent)
                × SomeRemoval
                    (λ r.
                      (r.removed ≡ true)
                      × (r.twin.written_off.local_path ≡ path)
                      × (kept_copy_is_intact outside.equal_fold disk r.twin.kept ≡ none))
                    (remove_each outside remove twins (at_first db disk)).0.removals))
remove_each-justified outside remove twins db disk item_of known =
    let s =
      remove_each-IsSound outside disk item_of remove twins (at_first db disk) known
        (record { only_unlinked = λ path. inl refl; verdicts = tt; justified = tt }) in
    (s.justified, s.only_unlinked)
