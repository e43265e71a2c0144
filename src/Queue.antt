-- ===== src/Queue.antt =====
-- The jobs of a request: how RequestHandler and its two subclasses of
-- crczp/sandbox_instance_app/lib/request_handlers.py make the stages of a request and enqueue them.
pub mod Dependencies
pub mod Restart
pub mod Allocation
use backend_sandbox_service.Prelude.{
  ℕ, zero, suc, ◌+◌, Bool, true, false, not, Option, none, some, List, [], ◌∷◌, ◌++◌, String, map,
  length, ◌||◌,
}
use backend_sandbox_service.Errors.{
  Done, validation_error, integrity_error, Exec, Result, ok, err, pure, gets, require, raise_if,
  modify, when, ◌>>=◌, ◌>>◌,
}
use backend_sandbox_service.Models.{
  StageClass, stack_allocation, networking_allocation, user_allocation, stack_cleanup,
  networking_cleanup, user_cleanup, Stage, create_stage, StageEntry, stage_entry, SandboxRequest,
  is_finished,
}
use backend_sandbox_service.Handlers.{
  Slot, stack_slot, networking_slot, user_slot, get_slot, set_slot,
}

pub data QueueName : Type 0 where
  queue_default queue_stack queue_ansible : QueueName

pub data Task : Type 0 where
  -- `stage_handler.execute` of the handler of a stage
  execute_stage : (stage_id : ℕ) → Task
  -- `netbird.provision_netbird_for_sandbox`, and the finalizing stage
  provision_netbird finalize : Task

pub record Job : Type 0 where
  pub id : ℕ
  pub queue : QueueName
  pub task : Task
  pub depends_on : List ℕ

-- The request, what the stages' jobs are (`set_job_id`), the sequences of keys, and the jobs that
-- have been enqueued, in their order.
pub record QueueState : Type 0 where
  pub request : SandboxRequest
  pub next_stage_id : ℕ
  pub job_ids : List (ℕ × ℕ)
  pub jobs : List Job
  pub next_job_id : ℕ

abbrev pub QueueAction : Type 0 → Type 0
QueueAction A = Exec QueueState A

-- `queue.enqueue(task, depends_on=...)`
unfoldable pub enqueue : QueueName → Task → List ℕ → QueueAction ℕ
enqueue queue task depends_on s = (
  ok s.next_job_id,
  record s {
    jobs =
        s.jobs
        ++ record { id = s.next_job_id; queue = queue; task = task; depends_on = depends_on } ∷ [];
    next_job_id = suc s.next_job_id;
  },
)

-- The class of a stage's handler decides on the queue.
unfoldable pub queue_of : StageClass → QueueName
queue_of stack_allocation = queue_stack
queue_of stack_cleanup = queue_stack
queue_of _ = queue_ansible

abbrev pub to_list : Option ℕ → List ℕ
to_list none = []
to_list (some job) = job ∷ []

-- The user stage of an allocation waits for the extra job as well.
unfoldable pub dependencies : StageClass → Option ℕ → Option ℕ → List ℕ
dependencies user_allocation previous_job extra = to_list previous_job ++ to_list extra
dependencies _ previous_job extra = to_list previous_job

unfoldable pub set_job_id : ℕ → ℕ → QueueAction Done
set_job_id stage_id job_id =
    modify (λ s. record s { job_ids = s.job_ids ++ (stage_id, job_id) ∷ [] })

unfoldable pub enqueue_stages : List Stage → Option ℕ → Option ℕ → QueueAction (Option ℕ)
unfolding enqueue queue_of dependencies set_job_id
enqueue_stages [] extra previous_job = pure previous_job
enqueue_stages (stage ∷ stages) extra previous_job = do
  job ←
      enqueue (queue_of stage.class) (execute_stage stage.id)
        (dependencies stage.class previous_job extra)
  set_job_id stage.id job
  enqueue_stages stages extra (some job)

-- `_enqueue_request`
unfoldable pub enqueue_request : List Stage → Option ℕ → QueueAction Done
unfolding enqueue_stages enqueue
enqueue_request stages extra = do
  previous_job ← enqueue_stages stages extra none
  _ ← enqueue queue_default finalize (to_list previous_job)
  pure tt

-- `_enqueue_netbird_provision`
unfoldable pub enqueue_netbird_provision : Bool → QueueAction (Option ℕ)
unfolding enqueue
enqueue_netbird_provision false = pure none
enqueue_netbird_provision true = do
  job ← enqueue queue_ansible provision_netbird []
  pure (some job)

-- `_enqueue_allocation_request`
unfoldable pub enqueue_allocation_request : Bool → List Stage → QueueAction Done
unfolding enqueue_netbird_provision enqueue_request
enqueue_allocation_request is_netbird_configured stages = do
  netbird_job ← enqueue_netbird_provision is_netbird_configured
  enqueue_request stages netbird_job

unfoldable pub put_stage : Slot → StageClass → String → String → QueueAction Stage
put_stage slot class repo_url rev s =
    let stage = create_stage s.next_stage_id class repo_url rev in
    (
      ok stage,
      record s {
        request = set_slot slot (some (stage_entry stage)) s.request;
        next_stage_id = suc s.next_stage_id;
      },
    )

-- `_create_db_stage`: a second stage for the same one-to-one field is refused by the database.
unfoldable pub create_db_stage : Slot → StageClass → String → String → QueueAction Stage
unfolding put_stage
create_db_stage slot class repo_url rev s = elim (get_slot slot s.request) [
  | some _ ↦ (err integrity_error, s)
  | none ↦ put_stage slot class repo_url rev s
]

-- `stage.delete()`
unfoldable pub delete_stage : Slot → QueueAction Done
delete_stage slot = modify (λ s. record s { request = set_slot slot none s.request })

-- Where the Ansible playbooks of the networking stage and of the user stage are.
pub record Sources : Type 0 where
  pub ansible_networking_url : String
  pub ansible_networking_rev : String
  pub definition_url : String
  pub rev_sha : String

module _ (sources : Sources) where
  unfoldable pub create_stack_stage : QueueAction Stage
  create_stack_stage = create_db_stage stack_slot stack_allocation "" ""

  unfoldable pub create_networking_stage : QueueAction Stage
  create_networking_stage =
      create_db_stage networking_slot networking_allocation sources.ansible_networking_url
        sources.ansible_networking_rev

  unfoldable pub create_user_stage : QueueAction Stage
  create_user_stage =
      create_db_stage user_slot user_allocation sources.definition_url sources.rev_sha

  -- `AllocationRequestHandler._create_stage_handlers`
  unfoldable pub create_allocation_stages : QueueAction (List Stage)
  unfolding create_stack_stage create_networking_stage create_user_stage create_db_stage
  create_allocation_stages = do
    stack_stage ← create_stack_stage
    networking_stage ← create_networking_stage
    user_stage ← create_user_stage
    pure (stack_stage ∷ networking_stage ∷ user_stage ∷ [])

  -- A stage that is to be restarted makes place for a new one.
  unfoldable pub restart_stage : Bool → Slot → QueueAction Stage → QueueAction (List Stage)
  unfolding delete_stage
  restart_stage again slot create s = elim again [
    | false ↦ (ok [], s)
    | true ↦ (delete_stage slot >> (create >>= λ stage. pure (stage ∷ []))) s
  ]

  -- `_restart_stage_handlers`: the stack stage that is asked in the second test is the new one,
  -- where the old one had failed.
  unfoldable pub restart_stage_handlers : QueueAction (List Stage)
  unfolding restart_stage create_stack_stage create_networking_stage create_user_stage
  restart_stage_handlers = do
    finished ← gets (λ s. is_finished s.request)
    raise_if (not finished) validation_error
    user ← require (λ s. s.request.user)
    raise_if (not user.failed) validation_error
    stack ← require (λ s. s.request.stack)
    first ← restart_stage stack.failed stack_slot create_stack_stage
    stack' ← require (λ s. s.request.stack)
    networking ← require (λ s. s.request.networking)
    second ←
        restart_stage (stack'.failed || networking.failed) networking_slot create_networking_stage
    third ← restart_stage true user_slot create_user_stage
    pure (first ++ second ++ third)

unfoldable pub recreate_stage : Slot → StageClass → QueueAction Stage
unfolding delete_stage create_db_stage
recreate_stage slot class = delete_stage slot >> create_db_stage slot class "" ""

-- `CleanupRequestHandler._create_stage_handlers`
unfoldable pub create_cleanup_stages : QueueAction (List Stage)
unfolding recreate_stage
create_cleanup_stages = do
  user_stage ← recreate_stage user_slot user_cleanup
  networking_stage ← recreate_stage networking_slot networking_cleanup
  stack_stage ← recreate_stage stack_slot stack_cleanup
  pure (user_stage ∷ networking_stage ∷ stack_stage ∷ [])

-- The ends of a round of `_create_allocation_jobs`, of `_create_restart_jobs` and of
-- `_create_cleanup_jobs`: the stages are made and their jobs enqueued.
unfoldable pub allocate : Sources → Bool → QueueAction Done
unfolding create_allocation_stages enqueue_allocation_request
allocate sources is_netbird_configured = do
  stages ← create_allocation_stages sources
  enqueue_allocation_request is_netbird_configured stages

unfoldable pub restart : Sources → Bool → QueueAction Done
unfolding restart_stage_handlers enqueue_allocation_request
restart sources is_netbird_configured = do
  stages ← restart_stage_handlers sources
  enqueue_allocation_request is_netbird_configured stages

unfoldable pub clean_up : QueueAction Done
unfolding create_cleanup_stages enqueue_request
clean_up = do stages ← create_cleanup_stages; enqueue_request stages none
