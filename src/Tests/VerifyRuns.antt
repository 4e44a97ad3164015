-- ===== src/Tests/VerifyRuns.antt =====
-- Sweeps of internal/syncer/verify.go over two backed-up files, one of them rotted.
use gpb.Common.{
  exists, true, ◌&&◌, ◌≡◌, refl, none, some, [], ◌∷◌, String, ◌==◌, string_eq, sort_by,
}
use gpb.Store.Rows.{done, Row, Db, scan_item}
use gpb.Store.Membership.{downloaded_files}
use gpb.Store.Upsert.{row_of}
use gpb.Syncer.Duplicates.{digest}
use gpb.Syncer.Verify.{Files, there, verify_files, verify_each, nothing_yet}
use gpb.Syncer.Verify.Digests.{verify_by_reading, verify_each-by_reading}
use gpb.Syncer.Verify.Repair.{is_rotten_on_disk, sent_back_if, verify_files-rows}
use gpb.Tests.Data.{row, kept, tables}

abbrev rotted : Row
rotted = record (row "rotted" done) { sha256 = some "def"; local_path = some "/pool/rotted.jpg" }

abbrev pool : Db
pool = record tables { media_items = kept ∷ rotted ∷ [] }

-- Both names are of one file, which reads as the kept one was recorded.
abbrev disk : Files
disk = record {
  stat = λ path. there (some 7);
  reads = λ path. digest "abc";
  equal_fold = λ a b. a == b;
  cancelled = λ n. none;
}

abbrev rotted_key : String
rotted_key = "rotted"

requeues : (verify_files disk true pool).report.requeued ≡ 1
unfolding verify_files sort_by scan_item
requeues = refl

succeeds : (verify_files disk true pool).failed ≡ none
unfolding verify_files sort_by scan_item
succeeds = refl

verify_files-rows_example :
    row_of rotted_key (verify_files disk true pool).db
    ≡ sent_back_if
        (true
          && exists
              (λ item. is_rotten_on_disk disk item && item.media_key == rotted_key)
              (downloaded_files pool))
        (row_of rotted_key pool)
verify_files-rows_example =
    verify_files-rows disk true pool rotted_key (λ path other identity s t. refl) succeeds

verify_each-by_reading_example :
    verify_each disk (downloaded_files pool) [] nothing_yet
    ≡ verify_by_reading disk (downloaded_files pool) nothing_yet
verify_each-by_reading_example =
    verify_each-by_reading disk (λ path other identity s t. refl) (downloaded_files pool)
