-- ===== src/Tests/PassRuns.antt =====
-- The theorems about the judgement of a run and about the duplicates command at concrete values.
use gpb.Errors.{Failure, canceled}
use gpb.Common.{
  ◌≡◌, ◌⊎◌, refl, true, false, Option, none, some, List, [], ◌∷◌, String, ◌==◌, string_eq,
  if◌then◌else◌, All,
}
use gpb.Store.Rows.{MediaItem, done}
use gpb.Store.Twins.{Twin}
use gpb.Syncer.Duplicates.{Digest, digest, absent, Outside, kept_copy_is_intact, remove_each}
use gpb.Syncer.Duplicates.Deletion.{at_first, SomeRemoval, remove_each-justified}
use gpb.Tests.Data.{item, tables}

abbrev shutdown : Option Failure
shutdown = some (record { kind = canceled; message = "context canceled" })

abbrev no_failure : Option Failure
no_failure = none

abbrev no_albums : List String
no_albums = []

abbrev kept_item : MediaItem
kept_item = record (item "kept") { state = done; sha256 = "abc"; local_path = "/pool/kept.jpg" }

abbrev pair : Twin
pair = record { written_off = item "lost"; kept = kept_item; same_bytes = true }

abbrev outside : Outside
outside = record { equal_fold = λ a b. a == b; unlink_fails = λ path. none; cancelled = λ n. none }

abbrev pool : String → Digest
pool path = if path == "/pool/kept.jpg" then digest "abc" else digest "other"

remove_each-justified_example :
    All
      (λ r. (r.removed ≡ false) ⊎ (kept_copy_is_intact outside.equal_fold pool r.twin.kept ≡ none))
      (remove_each outside true (pair ∷ []) (at_first tables pool)).0.removals
    × ((path : String)
        → ((remove_each outside true (pair ∷ []) (at_first tables pool)).0.disk path ≡ pool path)
          ⊎ (((remove_each outside true (pair ∷ []) (at_first tables pool)).0.disk path ≡ absent)
              × SomeRemoval
                  (λ r.
                    (r.removed ≡ true)
                    × (r.twin.written_off.local_path ≡ path)
                    × (kept_copy_is_intact outside.equal_fold pool r.twin.kept ≡ none))
                  (remove_each outside true (pair ∷ []) (at_first tables pool)).0.removals))
remove_each-justified_example =
    remove_each-justified outside true (pair ∷ []) tables pool (λ key. kept_item) (refl, tt)
