-- ===== src/Stages/Races.antt =====
-- A run of a stage and a cancellation of it at the same time, by `StageHandler.execute` and
-- `StageHandler.cancel` of crczp/sandbox_instance_app/lib/stage_handlers.py. Each has its own copy
-- of the stage in memory, and `save` writes all the fields of the copy over those of the row. A step
-- ends with a save or a read of the row; what `_execute`, and `_delete_job` and `_cancel`, come to
-- is the step's argument, since they leave the stage object alone. The job of a run that a worker
-- has fetched is no longer stopped by the deletion of the job.
pub mod Orders
use backend_sandbox_service.Prelude.{◌≡◌, ◌⊎◌, Bool, true, false, not, if◌then◌else◌, arith}
use backend_sandbox_service.Errors.{Done, Result, is_ok}
use backend_sandbox_service.Models.{Stage}
use backend_sandbox_service.StageHandler.{World, Handler, mark_started, mark_ended, save}
use backend_sandbox_service.Stages.{after_run, note_failure, note_cancel_error, mark_failed}

pub data RunPhase : Type 0 where
  run_waits run_goes : RunPhase
  run_ended : Result Done → RunPhase

pub data CancelPhase : Type 0 where
  not_read row_read cancel_ended : CancelPhase

-- The handlers of the run and of the cancellation, and the row of the stage; `cancelled_last` says
-- whether the cancellation was the last to save it.
pub record Race : Type 0 where
  pub run : Handler
  pub run_phase : RunPhase
  pub cancellation : Handler
  pub cancel_phase : CancelPhase
  pub row : Stage
  pub cancelled_last : Bool

-- The job begins: `self.stage.start = timezone.now(); self.stage.save()`.
unfoldable pub begin_run : Race → Race
unfolding mark_started
begin_run s =
    let h = mark_started s.run in
    record s { run = h; run_phase = run_goes; row = h.entry.row; cancelled_last = false }

-- `_get_stage_handlers` reads the row into a new object.
unfoldable pub read_row : Race → Race
read_row s = record s {
  cancellation = record s.cancellation { stage = s.row };
  cancel_phase = row_read;
}

module _ (world : World) where
  -- The `except` and `finally` parts of `execute`.
  unfoldable pub end_run : Result Done → Race → Race
  unfolding after_run mark_ended
  end_run r s =
      let h = mark_ended (after_run world r s.run).1 in
      record s { run = h; run_phase = run_ended r; row = h.entry.row; cancelled_last = false }

  -- The `except` and `finally` parts of `cancel`, for a copy that is not finished.
  unfoldable pub end_cancellation : Result Done → Race → Race
  unfolding note_cancel_error mark_failed mark_ended
  end_cancellation r s = elim s.cancellation.stage.finished [
    | true ↦ record s { cancel_phase = cancel_ended }
    | false ↦
        let h = mark_ended (mark_failed world (note_cancel_error world r s.cancellation)) in
        record s {
          cancellation = h;
          cancel_phase = cancel_ended;
          row = h.entry.row;
          cancelled_last = true;
        }
  ]

  -- The orders in which the steps of both can come.
  pub data Steps : Race → Race → Type 0 where
    start : {s : Race} → Steps s s
    begun : {s t : Race} → Steps s t → t.run_phase ≡ run_waits → Steps s (begin_run t)
    ended :
        {s t : Race}
        → Steps s t
        → (r : Result Done) → t.run_phase ≡ run_goes
        → Steps s (end_run r t)
    read : {s t : Race} → Steps s t → t.cancel_phase ≡ not_read → Steps s (read_row t)
    cancelled :
        {s t : Race}
        → Steps s t
        → (r : Result Done) → t.cancel_phase ≡ row_read
        → Steps s (end_cancellation r t)
