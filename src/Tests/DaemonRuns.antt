-- ===== src/Tests/DaemonRuns.antt =====
-- Runs of internal/daemon: a claim, a release, and a start that fails.
use gpb.Errors.{Failure, other, is_canceled}
use gpb.Common.{
  ◌+◌, ◌≤◌, ◌⊎◌, is_some, true, false, not, ◌≡◌, refl, none, some, [], ◌∷◌, ◌==◌, string_eq, nat_eq,
  ltb, if◌then◌else◌, arith,
}
use gpb.Daemon.OneRun.{Reach-one_run}
use gpb.Daemon.Owed.{backup_owed-record_failure_to_start}
use gpb.Daemon.Runner.{
  Runner, new_runner, claim, release, count_off, World, launched, released, Reach, begins, steps,
}
use gpb.Daemon.Schedule.{scheduled, was_interrupted, backup_owed, record_failure_to_start}
use gpb.Store.Runs.{RunRow, start_run}

abbrev syncing : Runner
syncing = record { activity = "sync"; cancel = true; current = false; in_flight = 1 }

abbrev free : Runner
free = record { activity = ""; cancel = false; current = false; in_flight = 1 }

abbrev linking : Runner
linking = record { activity = "links"; cancel = true; current = false; in_flight = 2 }

abbrev idle : World
idle = record { runner = new_runner; running = 0; leaving = 0 }

abbrev busy : World
busy = record { runner = syncing; running = 1; leaving = 0 }

abbrev between : World
between = record { runner = free; running = 0; leaving = 1 }

abbrev overlapping : World
overlapping = record { runner = linking; running = 1; leaving = 1 }

-- A second run claims the slot between the release of the first and its Done.
overlapping-Reach : Reach overlapping
unfolding claim release new_runner
overlapping-Reach =
    steps between overlapping
      (steps busy between (steps idle busy begins (launched "sync" idle syncing refl refl))
        (released syncing free 0 0 refl))
      (launched "links" between linking refl refl)

Reach-one_run_example :
    (overlapping.running ≤ 1)
    × (linking.in_flight ≡ overlapping.running + overlapping.leaving)
    × ((linking.activity == "") ≡ (overlapping.running == 0))
    × (linking.cancel ≡ not (overlapping.running == 0))
    × ((overlapping.running ≡ 0) ⊎ (is_some (release linking) ≡ true))
    × ((overlapping.leaving ≡ 0) ⊎ (is_some (count_off linking) ≡ true))
Reach-one_run_example = Reach-one_run overlapping overlapping-Reach

abbrev no_browser : Failure
no_browser = record { kind = other; message = "the browser did not start" }

backup_owed-record_failure_to_start_example :
    ((row : RunRow) × (record_failure_to_start no_browser 90 [] ≡ row ∷ [])
      × (row.started_at ≡ 90)
      × (row.finished_at ≡ some 90))
    × (backup_owed "" (record_failure_to_start no_browser 90 []) 80 ≡ (
        if is_canceled no_browser.kind
        then some was_interrupted
        else if ltb 90 80
        then some scheduled
        else none))
    × (backup_owed "" ((start_run 90 []).0) 80 ≡ some was_interrupted)
backup_owed-record_failure_to_start_example =
    backup_owed-record_failure_to_start no_browser 90 80 [] (omega arith)
