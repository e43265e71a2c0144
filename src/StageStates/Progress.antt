-- ===== src/StageStates/Progress.antt =====
-- The state that is reported for a stage along its life.
use backend_sandbox_service.Prelude.{ℕ, ◌≡◌, false, String, arith, if◌then◌else◌}
use backend_sandbox_service.Errors.{is_ok}
use backend_sandbox_service.Models.{StageClass, create_stage}
use backend_sandbox_service.StageHandler.{World, Handler, mark_started}
use backend_sandbox_service.Stages.{execute, cancel}
use backend_sandbox_service.Stages.Execute.{execute-IsRecorded}
use backend_sandbox_service.Stages.Cancel.{cancel-IsCancelled}
use backend_sandbox_service.StageStates.{in_queue, running, finished, failed, stage_state}

module _ (world : World) where
  -- A new stage is reported as waiting, from its start as running, and after its run as finished
  -- where the run returned and as failed where it raised.
  pub execute-stage_state :
      (s : Handler) (id : ℕ) (class : StageClass) (url rev : String)
      → s.stage ≡ create_stage id class url rev
      → (stage_state s.stage ≡ in_queue)
        × (stage_state (mark_started s).entry.row ≡ running)
        × (stage_state (execute world s).1.entry.row
            ≡ (if is_ok (execute world s).0 then finished else failed))
  unfolding stage_state create_stage mark_started
  execute-stage_state s id class url rev h = ground (arith, execute-IsRecorded world s)

  -- A stage that had not finished is reported as failed once it is cancelled.
  pub cancel-stage_state :
      (s : Handler) → s.stage.finished ≡ false → stage_state (cancel world s).1.entry.row ≡ failed
  unfolding stage_state
  cancel-stage_state s h = ground (arith, cancel-IsCancelled world s h)
