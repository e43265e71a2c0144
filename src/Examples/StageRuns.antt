-- ===== src/Examples/StageRuns.antt =====
-- Runs and cancellations of single stages.
use backend_sandbox_service.Prelude.{◌≡◌, refl, List, [], ◌∷◌}
use backend_sandbox_service.Models.{user_allocation, create_stage}
use backend_sandbox_service.Stages.{execute, cancel}
use backend_sandbox_service.Stages.Execute.{IsRecorded, execute-IsRecorded}
use backend_sandbox_service.Stages.Cancel.{IsCancelled, cancel-IsCancelled}
use backend_sandbox_service.StageStates.{stage_state}
use backend_sandbox_service.StageStates.Machine.{
  StageOperation, run_it, cancel_it, IsSettled, perform_all, replay, perform_all-replay,
}
use backend_sandbox_service.Examples.{good_world, bad_world, waiting, started, handler}

execute-IsRecorded_example :
    IsRecorded
      (waiting 3 user_allocation)
      9
      (execute good_world (handler (waiting 3 user_allocation))).0
      (execute good_world (handler (waiting 3 user_allocation))).1.stage
    × ((execute good_world (handler (waiting 3 user_allocation))).1.entry.row
        ≡ (execute good_world (handler (waiting 3 user_allocation))).1.stage)
execute-IsRecorded_example = execute-IsRecorded good_world (handler (waiting 3 user_allocation))

cancel-IsCancelled_example :
    IsCancelled started
      (cancel good_world (handler started)).0
      (cancel good_world (handler started)).1.stage
    × ((cancel good_world (handler started)).1.entry.row
        ≡ (cancel good_world (handler started)).1.stage)
unfolding create_stage
cancel-IsCancelled_example = cancel-IsCancelled good_world (handler started) refl

abbrev operations : List StageOperation
operations = run_it good_world ∷ cancel_it bad_world ∷ run_it bad_world ∷ []

perform_all-replay_example :
    IsSettled (perform_all operations (handler (waiting 3 user_allocation)))
    × (stage_state (perform_all operations (handler (waiting 3 user_allocation))).entry.row
        ≡ replay operations
            (handler (waiting 3 user_allocation))
            (stage_state (waiting 3 user_allocation)))
unfolding create_stage
perform_all-replay_example =
    perform_all-replay operations (handler (waiting 3 user_allocation))
      (record { saved = refl; ended = refl; failed = refl; started = refl })
