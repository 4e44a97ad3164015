-- ===== src/Syncer/Verify/Repair.antt =====
-- internal/syncer/verify.go: which rows a sweep with repair sends back to the work list.
use mathlib.Core.Option
use gpb.Errors.{Failure}
use gpb.Common.{
  ℕ, ◌+◌, Bool, true, false, ◌&&◌, ◌||◌, not, if◌then◌else◌, ◌≡◌, refl, sym, ap, ◌∙◌, inl, inr,
  Option, none, some, List, [], ◌∷◌, String, ◌==◌, string_eq, exists, exists-append, length, arith,
  Bool-cases, Option-cases,
}
use gpb.Store.Rows.{State, state_eq, discovered, missing_upstream, MediaItem, Row, Db}
use gpb.Store.Items.{state_set, set_where_key, has_key, set_item_state, unless_written_off}
use gpb.Store.Membership.{downloaded_files}
use gpb.Store.Upsert.{row_of}
use gpb.Store.DownloadPath.{row_of-set_where_key}
use gpb.Syncer.Verify.Digests.{
  IsTallied, verify_each-IsTallied, read_of_stat, verify_by_reading, verify_each-by_reading,
}
use gpb.Syncer.Verify.{
  Files, Problem, Verification, is_requeued, requeue_faulty, repaired, verify_each, verify_files,
  nothing_yet, there, missing_file, corrupt_file, unreadable_file, judged, checked_once,
}
use gpb.Syncer.Duplicates.{Digest, digest, absent, unreadable}

-- A key that a missing or a corrupt file was found for.
abbrev pub is_faulty : String → List Problem → Bool
is_faulty key problems =
    exists (λ problem. is_requeued problem && problem.item.media_key == key) problems

-- The row back on the work list, unless it is written off.
abbrev pub sent_back : Row → Row
sent_back row = record row {
  state = if row.state == missing_upstream then row.state else discovered;
}

-- The row of a key, sent back where it is faulty.
abbrev pub sent_back_if : Bool → Option Row → Option Row
sent_back_if true row = Option.map sent_back row
sent_back_if false row = row

discovered_again :
    (s : State)
    → unless_written_off (unless_written_off s discovered) discovered
      ≡ unless_written_off s discovered
discovered_again s = ground arith

sent_back_again :
    (b : Bool) (row : Option Row) → sent_back_if b (sent_back_if true row) ≡ sent_back_if true row
sent_back_again false row = refl
sent_back_again true none = refl
sent_back_again true (some r) = ap (λ s. some (record r { state = s })) (discovered_again r.state)

row_of-sent :
    (key other : String) (db : Db)
    → row_of other (set_where_key key (state_set discovered) db)
      ≡ sent_back_if (key == other) (row_of other db)
row_of-sent key other db = elim (Bool-cases (key == other)) [
  | inl e ↦
      rw e (ground (arith, row_of-set_where_key key other (state_set discovered) db (λ r. refl), e))
  | inr e ↦
      rw e (ground (arith, row_of-set_where_key key other (state_set discovered) db (λ r. refl), e))
]

sent_back-or :
    (a b : Bool) (row : Option Row)
    → sent_back_if b (sent_back_if a row) ≡ sent_back_if (a || b) row
sent_back-or true b row = sent_back_again b row
sent_back-or false b row = refl

requeue_faulty-rows :
    (problems : List Problem) (count : ℕ) (db : Db) (key : String)
    → (requeue_faulty problems count db).failed ≡ none
    → row_of key (requeue_faulty problems count db).db
      ≡ sent_back_if (is_faulty key problems) (row_of key db)
unfolding requeue_faulty set_item_state
requeue_faulty-rows [] count db key h = refl
requeue_faulty-rows (problem ∷ problems) count db key h = elim (Bool-cases (is_requeued problem)) [
  | inr e ↦ rw e (requeue_faulty-rows problems count db key (rw e at h))
  | inl e ↦ elim (Bool-cases (has_key problem.item.media_key db.media_items)) [
    | inl i ↦
        let sent = set_where_key problem.item.media_key (state_set discovered) db in
        rw (e, i)
          (requeue_faulty-rows problems (count + 1) sent key (rw (e, i) at h)
            ∙ ap (sent_back_if (is_faulty key problems)) (row_of-sent problem.item.media_key key db)
            ∙ sent_back-or (problem.item.media_key == key) (is_faulty key problems) (row_of key db))
    | inr i ↦ ground (arith, rw (e, i) at h)
  ]
]

repaired-rows :
    (repair : Bool) (swept : Verification × Option Failure) (db : Db) (key : String)
    → (repaired repair db swept).failed ≡ none
    → row_of key (repaired repair db swept).db
      ≡ sent_back_if (repair && is_faulty key swept.0.problems) (row_of key db)
repaired-rows repair (report, some cause) db key h = ground (arith, h)
repaired-rows false (report, none) db key h = refl
repaired-rows true (report, none) db key h = requeue_faulty-rows report.problems 0 db key h

repaired-failed :
    (repair : Bool) (swept : Verification × Option Failure) (db : Db)
    → (repaired repair db swept).failed ≡ none
    → swept.1 ≡ none
repaired-failed repair (report, some cause) db h = ground (arith, h)
repaired-failed repair (report, none) db h = refl

-- A file to be fetched again, by what its path reads as: it is gone, or its bytes hash to something else
-- than the recorded hash, of which there is one. A file that cannot be read is not.
abbrev pub is_rotten : Files → MediaItem → Digest → Bool
is_rotten files item absent = true
is_rotten files item (unreadable message) = false
is_rotten files item (digest found) =
    not (item.sha256 == "") && not (files.equal_fold found item.sha256)

abbrev pub is_rotten_on_disk : Files → MediaItem → Bool
is_rotten_on_disk files item =
    is_rotten files item (read_of_stat files item.local_path (files.stat item.local_path))

is_faulty-judged :
    (files : Files) (item : MediaItem) (report : Verification) (found : Digest) (key : String)
    → is_faulty key (judged files item report found).problems
      ≡ (is_faulty key report.problems || is_rotten files item found && item.media_key == key)
is_faulty-judged files item report absent key = ground (
  arith,
  exists-append (λ p. is_requeued p && p.item.media_key == key) report.problems
      (record { item = item; fault = missing_file } ∷ []),
)
is_faulty-judged files item report (unreadable message) key = ground (
  arith,
  exists-append (λ p. is_requeued p && p.item.media_key == key) report.problems
      (record { item = item; fault = unreadable_file } ∷ []),
)
is_faulty-judged files item report (digest found) key = ground (
  arith,
  exists-append (λ p. is_requeued p && p.item.media_key == key) report.problems
      (record { item = item; fault = corrupt_file } ∷ []),
)

is_faulty-by_reading :
    (files : Files) (items : List MediaItem) (report : Verification) (key : String)
    → (verify_by_reading files items report).1 ≡ none
    → is_faulty key ((verify_by_reading files items report).0).problems ≡ (
        is_faulty key report.problems
        || exists (λ item. is_rotten_on_disk files item && item.media_key == key) items)
unfolding verify_by_reading checked_once
is_faulty-by_reading files [] report key h = ground arith
is_faulty-by_reading files (item ∷ items) report key h =
    let found = read_of_stat files item.local_path (files.stat item.local_path) in
    let counted = record report { checked = report.checked + 1 } in
    elim (Option-cases (files.cancelled report.checked)) [
      | inl e ↦ rw e (
          ground (
            arith,
            is_faulty-by_reading files items (judged files item counted found) key (rw e at h),
            is_faulty-judged files item counted found key,
          ))
      | inr (cause, e) ↦ ground (arith, rw e at h)
    ]

-- Where the names of one file read alike and neither the context nor a write fails: a sweep with repair
-- sends a row back to the work list, unless it is written off, just where a backed-up item with its key is
-- gone from the disk or reads as other bytes than its recorded hash says, and leaves every other row as it
-- is, that of an unreadable file and of a file without a recorded hash too; a sweep without repair leaves
-- them all.
pub verify_files-rows :
    (files : Files) (repair : Bool) (db : Db) (key : String)
    → ((path other : String) (identity : ℕ)
        → files.stat path ≡ there (some identity)
        → files.stat other ≡ there (some identity)
        → files.reads path ≡ files.reads other)
    → (verify_files files repair db).failed ≡ none
    → row_of key (verify_files files repair db).db
      ≡ sent_back_if
          (repair
            && exists
                (λ item. is_rotten_on_disk files item && item.media_key == key)
                (downloaded_files db))
          (row_of key db)
unfolding verify_files
verify_files-rows files repair db key same_file h =
    let items = downloaded_files db in
    let swept = verify_each files items [] nothing_yet in
    let same = verify_each-by_reading files same_file items in
    let ended : (verify_by_reading files items nothing_yet).1 ≡ none =
      ap (λ s. s.1) (sym same) ∙ repaired-failed repair swept db h in
    let faulty : is_faulty key swept.0.problems
        ≡ exists (λ item. is_rotten_on_disk files item && item.media_key == key) items =
      ap (λ s. is_faulty key s.0.problems) same
      ∙ is_faulty-by_reading files items nothing_yet key ended in
    repaired-rows repair swept db key h
    ∙ ap (λ b. sent_back_if (repair && b) (row_of key db)) faulty

repaired-IsTallied :
    (repair : Bool) (swept : Verification × Option Failure) (db : Db)
    → IsTallied (swept.0)
    → IsTallied (repaired repair db swept).report
repaired-IsTallied repair (report, some cause) db h = h
repaired-IsTallied false (report, none) db h = h
repaired-IsTallied true (report, none) db h = h

-- The counts of every sweep add up, with repair and where it is cut short too: each file that was checked
-- is intact, has no recorded hash, or is one problem.
pub verify_files-checked :
    (files : Files) (repair : Bool) (db : Db)
    → (verify_files files repair db).report.checked
      ≡ (verify_files files repair db).report.intact
        + (verify_files files repair db).report.unhashed
        + length (verify_files files repair db).report.problems
unfolding verify_files
verify_files-checked files repair db =
    repaired-IsTallied repair (verify_each files (downloaded_files db) [] nothing_yet) db
      (verify_each-IsTallied files (downloaded_files db) [] nothing_yet refl)
