-- ===== src/Syncer/Verify.antt =====
-- internal/syncer/verify.go: the sweep that reads every backed-up file again. The files are functions of
-- their paths; strings.EqualFold and the run's context are parameters. The details of a problem, which are
-- for people, are left out.
pub mod Repair
pub mod Digests
use gpb.Errors.{Failure, Result, ok, err}
use gpb.Common.{
  ℕ, ◌+◌, Bool, true, false, Option, none, some, List, [], ◌∷◌, ◌++◌, String, ◌==◌, string_eq,
  nat_eq, if◌then◌else◌, find, length,
}
use gpb.Store.Rows.{discovered, Db, MediaItem}
use gpb.Store.Items.{set_item_state}
use gpb.Store.Membership.{downloaded_files}
use gpb.Syncer.Duplicates.{Digest, digest, absent, unreadable}

pub data Fault : Type 0 where
  missing_file corrupt_file unreadable_file : Fault

pub record Problem : Type 0 where
  pub item : MediaItem
  pub fault : Fault

pub record Verification : Type 0 where
  pub checked : ℕ
  pub intact : ℕ
  pub unhashed : ℕ
  pub requeued : ℕ
  pub problems : List Problem

-- What os.Stat answers, with the file's identity where it has one.
pub data Stat : Type 0 where
  not_there : Stat
  stat_failed : String → Stat
  there : Option ℕ → Stat

-- `reads` is hashFile.
pub record Files : Type 0 where
  pub stat : String → Stat
  pub reads : String → Digest
  pub equal_fold : String → String → Bool
  pub cancelled : ℕ → Option Failure

abbrev pub Digests : Type 0
Digests = List (ℕ × String)

abbrev pub remembered : ℕ → Digest → Digests → Digests
remembered identity (digest found) digests = (identity, found) ∷ digests
remembered identity absent digests = digests
remembered identity (unreadable message) digests = digests

abbrev pub hash_known : Files → String → ℕ → Digests → Option (ℕ × String) → Digest × Digests
hash_known files path identity digests (some seen) = (digest (seen.1), digests)
hash_known files path identity digests none =
    (files.reads path, remembered identity (files.reads path) digests)

abbrev pub hash_of_stat : Files → String → Digests → Stat → Digest × Digests
hash_of_stat files path digests not_there = (absent, digests)
hash_of_stat files path digests (stat_failed message) = (unreadable message, digests)
hash_of_stat files path digests (there none) = (files.reads path, digests)
hash_of_stat files path digests (there (some identity)) =
    hash_known files path identity digests (find (λ seen. seen.0 == identity) digests)

-- digestsByFile.hash
unfoldable pub hash : Files → String → Digests → Digest × Digests
hash files path digests = hash_of_stat files path digests (files.stat path)

abbrev pub note : MediaItem → Fault → Verification → Verification
note item fault report = record report {
  problems = report.problems ++ record { item = item; fault = fault } ∷ [];
}

abbrev pub judged : Files → MediaItem → Verification → Digest → Verification
judged files item report absent = note item missing_file report
judged files item report (unreadable message) = note item unreadable_file report
judged files item report (digest found) =
    if item.sha256 == ""
    then record report { unhashed = report.unhashed + 1 }
    else if files.equal_fold found item.sha256
    then record report { intact = report.intact + 1 }
    else note item corrupt_file report

-- One turn of Verify's loop.
unfoldable pub checked_once : Files → MediaItem → Verification → Digest → Verification
checked_once files item report found =
    judged files item (record report { checked = report.checked + 1 }) found

abbrev pub unless_cancelled :
    Option Failure → Verification → Verification × Option Failure → Verification × Option Failure
unless_cancelled none report rest = rest
unless_cancelled (some cause) report rest = (report, some cause)

-- The loop: the report, and the error of a context that was cancelled.
unfoldable pub verify_each :
    Files → List MediaItem → Digests → Verification → Verification × Option Failure
unfolding hash checked_once
verify_each files [] digests report = (report, none)
verify_each files (item ∷ items) digests report =
    let read = hash files item.local_path digests in
    let rest = verify_each files items (read.1) (checked_once files item report (read.0)) in
    unless_cancelled (files.cancelled report.checked) report rest

abbrev pub is_requeued : Problem → Bool
is_requeued problem = elim problem.fault [
  | missing_file ↦ true
  | corrupt_file ↦ true
  | unreadable_file ↦ false
]

-- requeueFaulty: how many, the tables, and the error of a write.
pub record Requeued : Type 0 where
  pub count : ℕ
  pub db : Db
  pub failed : Option Failure

abbrev pub after_requeue : (Db → Requeued) → ℕ → Db → Result Db → Requeued
after_requeue go_on count db (ok after) = go_on after
after_requeue go_on count db (err cause) = record { count = count; db = db; failed = some cause }

unfoldable pub requeue_faulty : List Problem → ℕ → Db → Requeued
unfolding set_item_state
requeue_faulty [] count db = record { count = count; db = db; failed = none }
requeue_faulty (problem ∷ problems) count db =
    if is_requeued problem
    then after_requeue (λ after. requeue_faulty problems (count + 1) after) count db
        (set_item_state problem.item.media_key discovered db)
    else requeue_faulty problems count db

pub record Swept : Type 0 where
  pub report : Verification
  pub db : Db
  pub failed : Option Failure

abbrev pub nothing_yet : Verification
nothing_yet = record { checked = 0; intact = 0; unhashed = 0; requeued = 0; problems = [] }

abbrev pub repaired : Bool → Db → Verification × Option Failure → Swept
repaired repair db (report, some cause) = record { report = report; db = db; failed = some cause }
repaired false db (report, none) = record { report = report; db = db; failed = none }
repaired true db (report, none) =
    let done = requeue_faulty report.problems 0 db in
    record { report = record report { requeued = done.count }; db = done.db; failed = done.failed }

-- Verify, whose query of the backed-up files does not fail.
unfoldable pub verify_files : Files → Bool → Db → Swept
unfolding verify_each requeue_faulty downloaded_files
verify_files files repair db =
    repaired repair db (verify_each files (downloaded_files db) [] nothing_yet)
