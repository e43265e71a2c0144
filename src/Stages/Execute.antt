-- ===== src/Stages/Execute.antt =====
-- What running a stage leaves in the database.
use backend_sandbox_service.Prelude.{ℕ, ◌≡◌, true, false, some, arith, if◌then◌else◌, is_some, ◌⊎◌}
use backend_sandbox_service.Errors.{Done, Result, is_ok}
use backend_sandbox_service.Models.{
  StageClass, stack_allocation, networking_allocation, user_allocation, stack_cleanup,
  networking_cleanup, user_cleanup, Stage,
}
use backend_sandbox_service.StageHandler.{World, Handler, mark_started}
use backend_sandbox_service.StageHandler.Keeps.{KeepsStage}
use backend_sandbox_service.StackStages.Keeps.{Keeps-allocate_stack, Keeps-cleanup_stack}
use backend_sandbox_service.AnsibleStages.Keeps.{Keeps-run_ansible, Keeps-cleanup_ansible}
use backend_sandbox_service.Stages.{run_stage, execute}

module _ (world : World) where
  pub Keeps-run_stage : (class : StageClass) → KeepsStage (run_stage world class)
  unfolding run_stage
  Keeps-run_stage stack_allocation = Keeps-allocate_stack world
  Keeps-run_stage networking_allocation = Keeps-run_ansible world
  Keeps-run_stage user_allocation = Keeps-run_ansible world
  Keeps-run_stage stack_cleanup = Keeps-cleanup_stack world
  Keeps-run_stage networking_cleanup = Keeps-cleanup_ansible world networking_cleanup
  Keeps-run_stage user_cleanup = Keeps-cleanup_ansible world user_cleanup

-- `after` is the stage `before` once a run that began at `t` has come out as `r`.
pub record IsRecorded (before : Stage) (t : ℕ) (r : Result Done) (after : Stage) : Type 0 where
  pub started : after.start ≡ some t
  pub ended : is_some after.end ≡ true
  pub finished : after.finished ≡ true
  pub failed : after.failed ≡ (if is_ok r then before.failed else true)
  pub quiet : (is_ok r ≡ false) ⊎ (after.error_message ≡ before.error_message)
  pub explained : (is_ok r ≡ true) ⊎ (is_some after.error_message ≡ true)
  pub same_id : after.id ≡ before.id
  pub same_class : after.class ≡ before.class

module _ (world : World) where
  -- Whatever the services answer, running a stage of any class ends with the stage finished, with
  -- its start and end recorded, failed with an error message exactly where the run raised (a run
  -- that returns leaves both as they were), and with all of this saved to the stage's row.
  pub execute-IsRecorded :
      (s : Handler)
      → let (r, t) = execute world s in
        IsRecorded s.stage s.clock r t.stage × (t.entry.row ≡ t.stage)
  unfolding execute
  execute-IsRecorded s = ground (arith, (Keeps-run_stage world s.stage.class).at (mark_started s))
