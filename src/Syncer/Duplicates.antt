-- ===== src/Syncer/Duplicates.antt =====
-- internal/syncer/twins.go: RemoveTwins, the one thing that deletes a file. The disk is a function
-- from paths to what reading and hashing a file gives, which an unlink changes; strings.EqualFold,
-- the failures of an unlink and the run's context are parameters.
pub mod Deletion
use gpb.Errors.{Failure}
use gpb.Common.{
  ℕ, ◌+◌, Bool, true, false, ◌&&◌, not, Option, none, some, List, [], ◌∷◌, ◌++◌, String, ◌==◌,
  string_eq, if◌then◌else◌, find, length,
}
use gpb.Store.Rows.{Db, MediaItem}
use gpb.Store.Twins.{Twin, written_off_twins, forget}

pub data Digest : Type 0 where
  digest : String → Digest
  absent : Digest
  unreadable : String → Digest

-- The refusals of keptCopyIsIntact.
pub data Refusal : Type 0 where
  no_recorded_hash nothing_there : Refusal
  could_not_be_read : String → Refusal
  hashes_otherwise : (recorded found : String) → Refusal

pub record Removal : Type 0 where
  pub twin : Twin
  pub removed : Bool
  pub refusal : Option Refusal

-- A pass between two twins: the tables, the disk, what it has verified, and the Cleanup.
pub record Pass : Type 0 where
  pub db : Db
  pub disk : String → Digest
  pub verified : List (String × Option Refusal)
  pub removals : List Removal
  pub removed : ℕ
  pub freed : ℕ
  pub refused : ℕ

pub record Outside : Type 0 where
  pub equal_fold : String → String → Bool
  pub unlink_fails : String → Option Failure
  pub cancelled : ℕ → Option Failure

unfoldable pub kept_copy_is_intact :
    (String → String → Bool) → (String → Digest) → MediaItem → Option Refusal
kept_copy_is_intact equal_fold disk kept =
    if kept.sha256 == "" then some no_recorded_hash else elim (disk kept.local_path) [
      | absent ↦ some nothing_there
      | unreadable message ↦ some (could_not_be_read message)
      | digest found ↦
          if equal_fold found kept.sha256 then none else some (hashes_otherwise kept.sha256 found)
    ]

abbrev pub unlinked : String → (String → Digest) → String → Digest
unlinked path disk other = if path == other then absent else disk other

-- The verdict on the kept copy, and what the pass has verified with it.
unfoldable pub verify : Outside → Twin → Pass → Option Refusal × List (String × Option Refusal)
unfolding kept_copy_is_intact
verify outside twin pass = elim (find (λ v. v.0 == twin.kept.media_key) pass.verified) [
  | some (key, refusal) ↦ (refusal, pass.verified)
  | none ↦
      let refusal = kept_copy_is_intact outside.equal_fold pass.disk twin.kept in
      (refusal, (twin.kept.media_key, refusal) ∷ pass.verified)
]

-- The rest of the loop's body: `forgetTwin` or not, and the counts. An unlink that fails ends the pass.
unfoldable pub settle : Outside → Bool → Twin → Option Refusal → Pass → Pass × Option Failure
settle outside remove twin (some refusal) pass = (
  record pass {
    refused = pass.refused + 1;
    removals =
        pass.removals ++ record { twin = twin; removed = false; refusal = some refusal } ∷ [];
  },
  none,
)
settle outside false twin none pass = (
  record pass {
    removals = pass.removals ++ record { twin = twin; removed = false; refusal = none } ∷ [];
  },
  none,
)
settle outside true twin none pass = elim (outside.unlink_fails twin.written_off.local_path) [
  | some cause ↦ (pass, some cause)
  | none ↦ (
    record pass {
      db = forget twin.written_off.media_key pass.db;
      disk = unlinked twin.written_off.local_path pass.disk;
      removed = pass.removed + 1;
      freed = pass.freed + twin.written_off.size_bytes;
      removals = pass.removals ++ record { twin = twin; removed = true; refusal = none } ∷ [];
    },
    none,
  )
]

-- The loop over the twins.
unfoldable pub remove_each : Outside → Bool → List Twin → Pass → Pass × Option Failure
unfolding verify settle
remove_each outside remove [] pass = (pass, none)
remove_each outside remove (twin ∷ twins) pass = elim (outside.cancelled (length pass.removals)) [
  | some cause ↦ (pass, some cause)
  | none ↦
      let (refusal, verified) = verify outside twin pass in
      let next = settle outside remove twin refusal (record pass { verified = verified }) in
      elim next.1 [ some cause ↦ next | none ↦ remove_each outside remove twins next.0 ]
]

unfoldable pub remove_twins : Outside → Bool → (String → Digest) → Db → Pass × Option Failure
unfolding remove_each
remove_twins outside remove disk db = remove_each outside remove (written_off_twins db) (record {
  db = db;
  disk = disk;
  verified = [];
  removals = [];
  removed = 0;
  freed = 0;
  refused = 0;
})
