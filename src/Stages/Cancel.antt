-- ===== src/Stages/Cancel.antt =====
-- What cancelling a stage leaves in the database.
use backend_sandbox_service.Prelude.{◌≡◌, true, false, arith, is_some, ◌⊎◌}
use backend_sandbox_service.Errors.{Done, Result, ok, is_ok, ◌>>◌}
use backend_sandbox_service.Models.{
  StageClass, stack_allocation, networking_allocation, user_allocation, Stage,
}
use backend_sandbox_service.StageHandler.{World, Handler}
use backend_sandbox_service.StageHandler.Keeps.{KeepsStage, keeps_rules}
use backend_sandbox_service.StackStages.Keeps.{Keeps-cancel_allocation}
use backend_sandbox_service.AnsibleStages.Keeps.{Keeps-cancel_ansible}
use backend_sandbox_service.Stages.{delete_stage_job, cancel_stage, cancel}

module _ (world : World) where
  Keeps-delete_stage_job : KeepsStage (delete_stage_job world)
  unfolding delete_stage_job
  Keeps-delete_stage_job = record { at = λ s. ground arith }

  Keeps-cancel_stage : (class : StageClass) → KeepsStage (cancel_stage world class)
  unfolding cancel_stage
  Keeps-cancel_stage stack_allocation = Keeps-cancel_allocation world
  Keeps-cancel_stage networking_allocation = Keeps-cancel_ansible world
  Keeps-cancel_stage user_allocation = Keeps-cancel_ansible world
  Keeps-cancel_stage _ = search keeps_rules

  pub Keeps-cancel_body :
      (class : StageClass) → KeepsStage (delete_stage_job world >> cancel_stage world class)
  Keeps-cancel_body class = search (keeps_rules, Keeps-delete_stage_job, Keeps-cancel_stage)

-- `after` is the stage `before`, not finished until then, once its cancellation has come out as `r`.
pub record IsCancelled (before : Stage) (r : Result Done) (after : Stage) : Type 0 where
  pub started : after.start ≡ before.start
  pub ended : is_some after.end ≡ true
  pub finished : after.finished ≡ true
  pub failed : after.failed ≡ true
  pub quiet : (is_ok r ≡ false) ⊎ (after.error_message ≡ before.error_message)
  pub explained : (is_ok r ≡ true) ⊎ (is_some after.error_message ≡ true)
  pub same_id : after.id ≡ before.id
  pub same_class : after.class ≡ before.class

module _ (world : World) where
  -- Cancelling a stage that has not finished leaves it finished and failed with its end recorded,
  -- also where the cancellation itself raises; then the error is kept as its message, and otherwise
  -- the message stays. All of this is saved to the stage's row.
  pub cancel-IsCancelled :
      (s : Handler)
      → s.stage.finished ≡ false
      → let (r, t) = cancel world s in IsCancelled s.stage r t.stage × (t.entry.row ≡ t.stage)
  unfolding cancel
  cancel-IsCancelled s h = ground (arith, (Keeps-cancel_body world s.stage.class).at s)

  -- After a cancellation, however it came out, the stage has finished, and cancelling it again does
  -- nothing: no job is looked up, no process or container is touched, and no row changes.
  pub cancel-cancel : (s : Handler) → cancel world (cancel world s).1 ≡ (ok tt, (cancel world s).1)
  unfolding cancel
  cancel-cancel s = ground arith
