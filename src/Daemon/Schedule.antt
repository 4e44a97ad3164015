-- ===== src/Daemon/Schedule.antt =====
-- internal/daemon/daemon.go and runner.go: when a backup is owed, and the row of a run that failed to
-- start. The calendar is a parameter: the configured time of day on the date of an instant, and the same
-- time a day before.
use gpb.Errors.{Failure, Result, ok, err}
use gpb.Common.{
  ℕ, Bool, true, false, ◌||◌, not, Option, none, some, List, [], ◌∷◌, String, ◌==◌, string_eq,
  nat_eq, ltb, if◌then◌else◌,
}
use gpb.Store.Runs.{RunRow, RunOutcome, interrupted, start_run, finish_run, recent_runs}
use gpb.Syncer.Run.{outcome_of}

pub data Reason : Type 0 where
  nothing_backed_up was_interrupted scheduled : Reason

abbrev pub is_interrupted : Option RunOutcome → Bool
is_interrupted (some interrupted) = true
is_interrupted _ = false

-- FinishedAt.IsZero(), of a column that may be NULL.
abbrev pub is_zero : Option ℕ → Bool
is_zero none = true
is_zero (some at) = at == 0

-- lastScheduledFor; a configured time that is unusable gives the zero time.
unfoldable pub last_scheduled_for : (ℕ → Option ℕ) → (ℕ → ℕ) → ℕ → ℕ
last_scheduled_for today_at day_before now = elim (today_at now) [
  | none ↦ 0
  | some today ↦ if ltb now today then day_before today else today
]

abbrev pub owed_after : List RunRow → ℕ → Option Reason
owed_after [] scheduled_for = some nothing_backed_up
owed_after (run ∷ runs) scheduled_for =
    if is_zero run.finished_at || is_interrupted run.outcome
    then some was_interrupted
    else if ltb run.started_at scheduled_for
    then some scheduled
    else none

-- backupOwed
unfoldable pub backup_owed : String → List RunRow → ℕ → Option Reason
unfolding recent_runs
backup_owed activity runs scheduled_for =
    if not (activity == "") then none else owed_after (recent_runs 1 runs) scheduled_for

abbrev pub closed_or : List RunRow → Result (List RunRow) → List RunRow
closed_or runs (ok closed) = closed
closed_or runs (err cause) = runs

-- recordFailureToStart, whose two writes are given one instant.
unfoldable pub record_failure_to_start : Failure → ℕ → List RunRow → List RunRow
unfolding start_run finish_run outcome_of
record_failure_to_start cause at runs =
    let started = start_run at runs in
    closed_or (started.0) (
      finish_run
        (record {
          id = started.1;
          outcome = outcome_of 0 [] [] (some cause);
          listed = 0;
          downloaded = 0;
          failed = 0;
          bytes = 0;
          error = cause.message;
        })
        at (started.0))
