-- ===== src/Store/Runs.antt =====
-- internal/store/runs.go: the table sync_runs, the newest row first. A started_at is the count of an
-- instant, and a finished_at is NULL until the run is closed.
use gpb.Errors.{Result, no_such_row, ok, err}
use gpb.Common.{
  ℕ, ◌+◌, max, Option, none, some, List, [], ◌∷◌, String, ◌==◌, nat_eq, string_eq, if◌then◌else◌,
  exists, update, take,
}

pub data RunOutcome : Type 0 where
  ok_run partial_run auth_required drift_run interrupted error_run : RunOutcome

pub record RunRow : Type 0 where
  pub id : ℕ
  pub started_at : ℕ
  pub finished_at : Option ℕ
  pub outcome : Option RunOutcome
  pub listed : ℕ
  pub downloaded : ℕ
  pub failed : ℕ
  pub bytes : ℕ
  pub error : Option String

-- What FinishRun reads of a SyncRun.
pub record SyncRun : Type 0 where
  pub id : ℕ
  pub outcome : RunOutcome
  pub listed : ℕ
  pub downloaded : ℕ
  pub failed : ℕ
  pub bytes : ℕ
  pub error : String

abbrev pub largest_id : List RunRow → ℕ
largest_id [] = 0
largest_id (run ∷ runs) = max run.id (largest_id runs)

-- The table, and the id of the new row.
unfoldable pub start_run : ℕ → List RunRow → List RunRow × ℕ
start_run at runs =
    let id = largest_id runs + 1 in
    (
      record {
        id = id;
        started_at = at;
        finished_at = none;
        outcome = none;
        listed = 0;
        downloaded = 0;
        failed = 0;
        bytes = 0;
        error = none;
      }
          ∷ runs,
      id,
    )

abbrev pub finished : SyncRun → ℕ → RunRow → RunRow
finished run at row = record row {
  finished_at = some at;
  outcome = some run.outcome;
  listed = run.listed;
  downloaded = run.downloaded;
  failed = run.failed;
  bytes = run.bytes;
  error = if run.error == "" then none else some run.error;
}

unfoldable pub finish_run : SyncRun → ℕ → List RunRow → Result (List RunRow)
finish_run run at runs =
    if exists (λ row. row.id == run.id) runs
    then ok (update (λ row. row.id == run.id) (finished run at) runs)
    else err (record { kind = no_such_row; message = "no such sync run" })

unfoldable pub recent_runs : ℕ → List RunRow → List RunRow
recent_runs limit runs = take limit runs
