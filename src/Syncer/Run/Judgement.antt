-- ===== src/Syncer/Run/Judgement.antt =====
-- How a run is judged: worseOf of internal/syncer/syncer.go and outcomeOf of report.go.
use gpb.Errors.{Failure}
use gpb.Common.{ℕ, ◌≡◌, ◌↔◌, is_some, true, false, Option, none, List, String, arith, Option-cases}
use gpb.Syncer.Listing.{is_empty}
use gpb.Syncer.Run.{worse_of, is_serious, or_else, outcome_of}
use gpb.Store.Runs.{ok_run, interrupted}

-- A run is recorded as ok exactly if neither half failed, no item failed, and no album was left
-- unread; it is recorded as interrupted exactly if a half was cancelled and neither failed otherwise.
pub outcome_of-worse_of :
    (failed : ℕ) (skipped unlisted : List String) (download_err list_err : Option Failure)
    → let outcome = outcome_of failed skipped unlisted (worse_of download_err list_err) in
      ((outcome ≡ ok_run) ↔ (
        (download_err ≡ none)
        × (list_err ≡ none)
        × (failed ≡ 0)
        × (is_empty skipped ≡ true)
        × (is_empty unlisted ≡ true)))
      × ((outcome ≡ interrupted) ↔ (
          (is_serious download_err ≡ false)
          × (is_serious list_err ≡ false)
          × (is_some (or_else download_err list_err) ≡ true)))
unfolding outcome_of worse_of
outcome_of-worse_of failed skipped unlisted download_err list_err =
    ground (arith, Option-cases download_err, Option-cases list_err)
