-- ===== src/Queue/Restart.antt =====
-- The stages that a restart and a repeated cleanup leave in the request.
use backend_sandbox_service.Prelude.{suc, ◌≡◌, refl, true, false, some, [], ◌∷◌, arith, ◌⊎◌, ◌&&◌}
use backend_sandbox_service.Errors.{ok, err, is_ok, validation_error}
use backend_sandbox_service.Models.{
  stack_allocation, stack_cleanup, networking_cleanup, user_cleanup, create_stage, StageEntry,
  stage_entry, is_finished, has_failed, stages,
}
use backend_sandbox_service.Handlers.{get_slot, set_slot}
use backend_sandbox_service.Queue.{
  QueueState, Sources, create_db_stage, delete_stage, put_stage, restart_stage, create_stack_stage,
  create_networking_stage, create_user_stage, restart_stage_handlers, recreate_stage,
  create_cleanup_stages,
}

module _ (sources : Sources) where
  -- Restarting a request with three finished stages, of which the user stage has failed, and the
  -- networking stage too where the stack stage has, succeeds, and no stage of the request counts as
  -- failed afterwards; a stack stage that had not failed stays as it was.
  pub restart_stage_handlers-has_failed :
      (stack networking user : StageEntry) (s : QueueState)
      → s.request ≡ record {
        id = s.request.id;
        stack = some stack;
        networking = some networking;
        user = some user;
      }
      → is_finished s.request ≡ true
      → user.failed ≡ true
      → (stack.failed ≡ false) ⊎ (networking.failed ≡ true)
      → (is_ok (restart_stage_handlers sources s).0 ≡ true)
        × (has_failed (restart_stage_handlers sources s).1.request ≡ false)
        × ((stack.failed ≡ true)
            ⊎ ((restart_stage_handlers sources s).1.request.stack ≡ some stack))
  unfolding restart_stage_handlers restart_stage create_stack_stage create_networking_stage
      create_user_stage create_db_stage put_stage delete_stage get_slot set_slot create_stage
      stage_entry has_failed stages
  restart_stage_handlers-has_failed stack networking user s h finished failed upward = ground arith

  -- A restart of a request that has an unfinished stage, or whose user stage has not failed, is
  -- refused and changes nothing.
  pub restart_stage_handlers-refused :
      (stack networking user : StageEntry) (s : QueueState)
      → s.request ≡ record {
        id = s.request.id;
        stack = some stack;
        networking = some networking;
        user = some user;
      }
      → (is_finished s.request && user.failed) ≡ false
      → restart_stage_handlers sources s ≡ (err validation_error, s)
  unfolding restart_stage_handlers
  restart_stage_handlers-refused stack networking user s h refused = ground arith

  -- Where only the stack stage and the user stage have failed, the restart leaves the networking
  -- stage, although it makes a new stack: the test reads the stack stage that was just created.
  pub restart_stage_handlers-networking :
      (stack networking user : StageEntry) (s : QueueState)
      → s.request ≡ record {
        id = s.request.id;
        stack = some stack;
        networking = some networking;
        user = some user;
      }
      → is_finished s.request ≡ true
      → user.failed ≡ true
      → stack.failed ≡ true
      → networking.failed ≡ false
      → (is_ok (restart_stage_handlers sources s).0 ≡ true)
        × ((restart_stage_handlers sources s).1.request.networking ≡ some networking)
        × ((restart_stage_handlers sources s).1.request.stack
            ≡ some (stage_entry (create_stage s.next_stage_id stack_allocation "" "")))
  unfolding restart_stage_handlers restart_stage create_stack_stage create_networking_stage
      create_user_stage create_db_stage put_stage delete_stage get_slot set_slot create_stage
      stage_entry
  restart_stage_handlers-networking stack networking user s h finished failed stack_failed
        networking_ok =
      ground arith

-- Whatever stages a cleanup request has, making them again succeeds, gives three new stages in the
-- order user, networking, stack, and leaves none of the old ones.
create_cleanup_stages_lem :
    (s : QueueState)
    → let id = s.next_stage_id in
      ((create_cleanup_stages s).0
        ≡ ok (
            create_stage id user_cleanup "" ""
            ∷ create_stage (suc id) networking_cleanup "" ""
            ∷ create_stage (suc (suc id)) stack_cleanup "" ""
            ∷ []))
      × ((create_cleanup_stages s).1.request.user
          ≡ some (stage_entry (create_stage id user_cleanup "" "")))
      × ((create_cleanup_stages s).1.request.networking
          ≡ some (stage_entry (create_stage (suc id) networking_cleanup "" "")))
      × ((create_cleanup_stages s).1.request.stack
          ≡ some (stage_entry (create_stage (suc (suc id)) stack_cleanup "" "")))
unfolding create_cleanup_stages recreate_stage create_db_stage put_stage delete_stage get_slot
    set_slot
create_cleanup_stages_lem s = (refl, refl, refl, refl)
