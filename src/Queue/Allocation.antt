-- ===== src/Queue/Allocation.antt =====
-- The jobs of one allocation.
use backend_sandbox_service.Prelude.{
  ℕ, suc, ◌≡◌, refl, Bool, true, false, List, [], ◌∷◌, ◌++◌, arith, append_assoc, is_some,
}
use backend_sandbox_service.Errors.{ok, err, integrity_error}
use backend_sandbox_service.Models.{create_request, create_stage}
use backend_sandbox_service.Handlers.{get_slot, set_slot}
use backend_sandbox_service.Queue.{
  QueueState, Job, Sources, queue_default, queue_stack, queue_ansible, execute_stage,
  provision_netbird, finalize, enqueue, queue_of, dependencies, set_job_id, enqueue_stages,
  enqueue_request, enqueue_netbird_provision, enqueue_allocation_request, create_db_stage,
  put_stage, create_stack_stage, create_networking_stage, create_user_stage,
  create_allocation_stages, allocate,
}

-- The jobs of the three stages, from the number given on, and the finalizing one: each waits for the
-- one before, and the job of the user stage also for the one given.
abbrev pub chain : ℕ → ℕ → List ℕ → List Job
chain stage id extra =
    record { id = id; queue = queue_stack; task = execute_stage stage; depends_on = [] }
    ∷ record {
      id = suc id;
      queue = queue_ansible;
      task = execute_stage (suc stage);
      depends_on = id ∷ [];
    }
    ∷ record {
      id = suc (suc id);
      queue = queue_ansible;
      task = execute_stage (suc (suc stage));
      depends_on = suc id ∷ extra;
    }
    ∷ record {
      id = suc (suc (suc id));
      queue = queue_default;
      task = finalize;
      depends_on = suc (suc id) ∷ [];
    }
    ∷ []

abbrev pub allocation_jobs : Bool → ℕ → ℕ → List Job
allocation_jobs true stage id =
    record { id = id; queue = queue_ansible; task = provision_netbird; depends_on = [] }
    ∷ chain stage (suc id) (id ∷ [])
allocation_jobs false stage id = chain stage id []

-- The allocation of a request without stages succeeds. It enqueues the three stages in a chain with
-- the finalizing job at its end; with NetBird, the provisioning job goes first and waits for none,
-- and only the job of the user stage waits for it.
pub allocate-jobs :
    (sources : Sources) (is_netbird_configured : Bool) (id : ℕ) (s : QueueState)
    → ((allocate sources is_netbird_configured (record s { request = create_request id })).0
        ≡ ok tt)
      × ((allocate sources is_netbird_configured (record s { request = create_request id })).1.jobs
          ≡ s.jobs ++ allocation_jobs is_netbird_configured s.next_stage_id s.next_job_id)
unfolding allocate create_allocation_stages create_stack_stage create_networking_stage
    create_user_stage create_db_stage put_stage get_slot set_slot create_stage
    enqueue_allocation_request enqueue_netbird_provision enqueue_request enqueue_stages enqueue
    queue_of dependencies set_job_id
allocate-jobs sources true id s = (refl, simp append_assoc)
allocate-jobs sources false id s = (refl, simp append_assoc)

-- The allocation of a request whose stack stage exists already is refused by the database, and no
-- job is enqueued.
allocate-refused :
    (sources : Sources) (is_netbird_configured : Bool) (s : QueueState)
    → is_some s.request.stack ≡ true
    → allocate sources is_netbird_configured s ≡ (err integrity_error, s)
unfolding allocate create_allocation_stages create_stack_stage create_db_stage get_slot
allocate-refused sources is_netbird_configured s h = ground arith
