-- ===== src/Daemon/Owed.antt =====
-- internal/daemon: a run that failed to start is not owed again before the next scheduled time.
use gpb.Errors.{
  Failure, ErrorKind, is_canceled, canceled, deadline_exceeded, session_rejected, protocol_drift,
  unknown_content_host, truncated, range_ignored, signed_url_rejected, count_contradicted,
  http_error, no_followed_album, no_such_row, disk_full, run_in_progress, other,
}
use gpb.Common.{
  ℕ, ◌+◌, ◌<◌, false, ◌≡◌, refl, ap, none, some, List, [], ◌∷◌, String, ◌==◌, ==_refl, string_eq,
  nat_eq, ltb, if◌then◌else◌, arith, update,
}
use gpb.Store.Runs.{RunRow, start_run, finish_run, recent_runs, largest_id}
use gpb.Syncer.Run.{outcome_of}
use gpb.Daemon.Schedule.{
  was_interrupted, scheduled, is_interrupted, backup_owed, record_failure_to_start,
}

-- A run is told to stop by a cancelled context, and by nothing else.
outcome_of-is_interrupted :
    (kind : ErrorKind) (message : String)
    → is_interrupted (some (outcome_of 0 [] [] (some (record { kind = kind; message = message }))))
      ≡ is_canceled kind
unfolding outcome_of
outcome_of-is_interrupted canceled message = refl
outcome_of-is_interrupted deadline_exceeded message = refl
outcome_of-is_interrupted session_rejected message = refl
outcome_of-is_interrupted protocol_drift message = refl
outcome_of-is_interrupted unknown_content_host message = refl
outcome_of-is_interrupted truncated message = refl
outcome_of-is_interrupted range_ignored message = refl
outcome_of-is_interrupted signed_url_rejected message = refl
outcome_of-is_interrupted count_contradicted message = refl
outcome_of-is_interrupted (http_error code after) message = refl
outcome_of-is_interrupted no_followed_album message = refl
outcome_of-is_interrupted no_such_row message = refl
outcome_of-is_interrupted disk_full message = refl
outcome_of-is_interrupted run_in_progress message = refl
outcome_of-is_interrupted other message = refl

-- No row has an id past the largest, so an UPDATE of a new id leaves the rows as they are.
update-largest_id :
    (id : ℕ) (f : RunRow → RunRow) (runs : List RunRow)
    → largest_id runs < id
    → update (λ row. row.id == id) f runs ≡ runs
update-largest_id id f [] h = refl
update-largest_id id f (run ∷ runs) h = ground (arith, h, update-largest_id id f runs)

-- The row that recordFailureToStart leaves.
abbrev row_to_start : Failure → ℕ → ℕ → RunRow
row_to_start cause at id = record {
  id = id;
  started_at = at;
  finished_at = some at;
  outcome = some (outcome_of 0 [] [] (some cause));
  listed = 0;
  downloaded = 0;
  failed = 0;
  bytes = 0;
  error = if cause.message == "" then none else some cause.message;
}

-- A run that failed to start leaves one new row, started and finished at that instant, before the rows
-- there were, all of which stay as they are. After it a free daemon owes a backup at once where the
-- failure was a cancelled context, else where the scheduled time is later than the recorded start, else
-- not. After a run that was started and never closed it owes one at once. The instant is not the zero time.
pub backup_owed-record_failure_to_start :
    (cause : Failure) (at scheduled_for : ℕ) (runs : List RunRow)
    → 0 < at
    → ((row : RunRow) × (record_failure_to_start cause at runs ≡ row ∷ runs)
        × (row.started_at ≡ at)
        × (row.finished_at ≡ some at))
      × (backup_owed "" (record_failure_to_start cause at runs) scheduled_for ≡ (
          if is_canceled cause.kind
          then some was_interrupted
          else if ltb at scheduled_for
          then some scheduled
          else none))
      × (backup_owed "" ((start_run at runs).0) scheduled_for ≡ some was_interrupted)
unfolding backup_owed record_failure_to_start start_run finish_run recent_runs
backup_owed-record_failure_to_start cause at scheduled_for runs h =
    let closed : (at == 0) ≡ false = ground (arith, h) in
    let row = row_to_start cause at (largest_id runs + 1) in
    (
      (
        row,
        rw (==_refl (largest_id runs + 1)) (
            ap (λ rows. row ∷ rows) (update-largest_id (largest_id runs + 1) _ runs (omega arith))),
        refl,
        refl,
      ),
      rw (==_refl (largest_id runs + 1), closed, outcome_of-is_interrupted cause.kind cause.message)
          refl,
      refl,
    )
