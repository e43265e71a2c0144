-- ===== src/Stages.antt =====
-- StageHandler of crczp/sandbox_instance_app/lib/stage_handlers.py: running a stage and cancelling
-- it. The handler's class is the one that request_handlers.py makes for the stage.
pub mod Execute
pub mod Cancel
pub mod Races
use backend_sandbox_service.Prelude.{ℕ, Bool, true, false, none, some}
use backend_sandbox_service.Errors.{Done, Exc, integrity_error, Result, ok, err, pure, ◌>>◌}
use backend_sandbox_service.Models.{
  StageClass, stack_allocation, networking_allocation, user_allocation, stack_cleanup,
  networking_cleanup, user_cleanup,
}
use backend_sandbox_service.Groups.{on_allocation_fail}
use backend_sandbox_service.StageHandler.{
  delete_job, World, Handler, Action, mark_started, mark_ended, call, on_group,
}
use backend_sandbox_service.StackStages.{allocate_stack, cleanup_stack, cancel_allocation}
use backend_sandbox_service.AnsibleStages.{run_ansible, cleanup_ansible, cancel_ansible}

module _ (world : World) where
  -- `_execute` of the handler's class
  unfoldable pub run_stage : StageClass → Action Done
  run_stage stack_allocation = allocate_stack world
  run_stage networking_allocation = run_ansible world
  run_stage user_allocation = run_ansible world
  run_stage stack_cleanup = cleanup_stack world
  run_stage networking_cleanup = cleanup_ansible world networking_cleanup
  run_stage user_cleanup = cleanup_ansible world user_cleanup

  -- The `except` part of `execute`: it raises again, unless telling the group raises.
  unfoldable pub note_failure : Exc → Handler → Exc × Handler
  note_failure ex s =
      let t = record s { stage = record s.stage { failed = true; error_message = some ex } } in
      elim s.has_group [
        | false ↦ (ex, t)
        | true ↦
            let (r, u) = on_group (on_allocation_fail world.smtp ex) t in
            elim r [ ok _ ↦ (ex, u) | err other ↦ (other, u) ]
      ]

  after_run : Result Done → Handler → Result Done × Handler
  unfolding note_failure
  after_run (ok _) s = (ok tt, s)
  after_run (err ex) s = let (raised, t) = note_failure ex s in (err raised, t)

  unfoldable pub execute : Action Done
  unfolding mark_started mark_ended after_run
  execute s =
      let (r, t) = run_stage s.stage.class (mark_started s) in
      let (result, u) = after_run r t in (result, mark_ended u)

  -- `set_job_id`: a stage has one RQ job.
  unfoldable pub set_job_id : ℕ → Action Done
  set_job_id job_id s = elim s.entry.rq_job [
    | some _ ↦ (err integrity_error, s)
    | none ↦ (ok tt, record s { entry = record s.entry { rq_job = some job_id } })
  ]

  delete_found : ℕ → Result Bool → Action Done
  delete_found job_id (ok true) = call (delete_job job_id) (ok tt)
  delete_found job_id (ok false) = pure tt
  delete_found job_id (err e) = λ s. (err e, s)

  -- `_delete_job`: `NoSuchJobError` is suppressed.
  pub delete_stage_job : Action Done
  unfolding delete_found
  delete_stage_job s = elim s.entry.rq_job [
    | none ↦ (ok tt, s)
    | some job_id ↦ delete_found job_id (world.fetch_job job_id) s
  ]

  -- `_cancel` of the handler's class
  unfoldable pub cancel_stage : StageClass → Action Done
  cancel_stage stack_allocation = cancel_allocation world
  cancel_stage networking_allocation = cancel_ansible world
  cancel_stage user_allocation = cancel_ansible world
  cancel_stage _ = pure tt

  note_cancel_error : Result Done → Handler → Handler
  note_cancel_error (ok _) s = s
  note_cancel_error (err ex) s = record s { stage = record s.stage { error_message = some ex } }

  mark_failed : Handler → Handler
  mark_failed s = record s { stage = record s.stage { failed = true } }

  unfoldable pub cancel : Action Done
  unfolding delete_stage_job note_cancel_error mark_failed mark_ended
  cancel s = elim s.stage.finished [
    | true ↦ (ok tt, s)
    | false ↦
        let (r, t) = (delete_stage_job >> cancel_stage s.stage.class) s in
        (r, mark_ended (mark_failed (note_cancel_error r t)))
  ]
