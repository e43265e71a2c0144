-- ===== src/Examples/RequestRuns.antt =====
-- Cancellations of requests, and cleanups.
use backend_sandbox_service.StackStages.{cancel_allocation}
use backend_sandbox_service.AnsibleStages.{cancel_ansible}
use backend_sandbox_service.Stages.{cancel, cancel_stage}
use backend_sandbox_service.Prelude.{ℕ, ◌+◌, ◌≡◌, refl, true, false, none, some, [], ◌∷◌}
use backend_sandbox_service.Errors.{err, validation_error, is_ok}
use backend_sandbox_service.Models.{
  stack_allocation, networking_allocation, user_allocation, stack_cleanup, networking_cleanup,
  user_cleanup, create_stage, Stage, StageEntry, stages, is_finished, SandboxRequest,
}
use backend_sandbox_service.Handlers.{RequestState, allocation_order, cancel_request}
use backend_sandbox_service.Handlers.Cancelling.{IsSettledRequest, cancel_request-allocation}
use backend_sandbox_service.Handlers.JobFailures.{
  RequestRows, has_job, owns_job, is_known, found_rows, cancel_owner, request_exception_handler,
  request_exception_handler-allocation,
}
use backend_sandbox_service.Requests.{
  UnitState, create_cleanup_request, create_cleanup_request_force, first_stage_runs, is_locked,
  is_unfinished, create_cleanup_requests,
}
use backend_sandbox_service.Requests.Cleanup.{cleaned_up, create_cleanup_request_lem}
use backend_sandbox_service.Requests.Batch.{create_cleanup_requests-refused}
use backend_sandbox_service.Requests.Force.{create_cleanup_request_force-running}
use backend_sandbox_service.Examples.{
  good_world, waiting, over, row_of, started, running_request, half_built, request_with,
  locked_sandbox, unit_with,
}

abbrev state_of : SandboxRequest → RequestState
state_of request = record { request = request; calls = []; clock = 20 }

abbrev cleanup : SandboxRequest
cleanup =
    request_with (waiting 4 stack_cleanup) (waiting 5 networking_cleanup)
      (over (waiting 6 user_cleanup))

cancel_request-allocation_example :
    IsSettledRequest running_request
      (cancel_request good_world allocation_order (state_of running_request)).1.request
    × (is_finished (cancel_request good_world allocation_order (state_of running_request)).1.request
        ≡ true)
unfolding cancel_request is_finished create_stage cancel cancel_stage cancel_ansible
    cancel_allocation
cancel_request-allocation_example =
    cancel_request-allocation good_world (state_of running_request) refl

-- A unit whose allocation was completed, with a sandbox that nobody has locked.
abbrev built : UnitState
built = record {
  unit = unit_with (some (record { id = 40; ready = true; lock = none })) (
      some (
        request_with (over (waiting 1 stack_allocation)) (over (waiting 2 networking_allocation))
          (over (waiting 3 user_allocation))));
  events = [];
  calls = [];
  clock = 20;
}

create_cleanup_request_lem_example :
    (is_ok (create_cleanup_request built).0 ≡ true)
    × ((create_cleanup_request built).1 ≡ cleaned_up false built)
unfolding is_locked first_stage_runs is_finished
create_cleanup_request_lem_example = create_cleanup_request_lem built

-- A unit whose stack is being built, with a locked sandbox.
abbrev building : UnitState
building = record {
  unit = unit_with (some locked_sandbox) (some running_request);
  events = [];
  calls = [];
  clock = 20;
}

create_cleanup_request_force-running_example :
    ((create_cleanup_request_force good_world false building).0 ≡ err validation_error)
    × ((create_cleanup_request_force good_world false building).1.unit.sandbox
        ≡ some (record locked_sandbox { lock = none }))
    × ((create_cleanup_request_force good_world false building).1.events ≡ [])
unfolding is_unfinished first_stage_runs create_stage
create_cleanup_request_force-running_example =
    create_cleanup_request_force-running good_world building locked_sandbox running_request
      (row_of started) false refl refl refl refl refl

-- A unit whose stack stands, with a locked sandbox.
abbrev half : UnitState
half = record {
  unit = unit_with (some locked_sandbox) (some half_built);
  events = [];
  calls = [];
  clock = 20;
}

create_cleanup_requests-refused_example :
    (is_ok (create_cleanup_requests good_world false false (built ∷ half ∷ built ∷ [])).0 ≡ false)
    × ((create_cleanup_requests good_world false false (built ∷ half ∷ built ∷ [])).1
        ≡ cleaned_up false built ∷ half ∷ built ∷ [])
unfolding is_locked first_stage_runs is_finished
create_cleanup_requests-refused_example =
    create_cleanup_requests-refused good_world false (built ∷ []) (built ∷ []) half (refl, tt) refl

-- The stages of a request, with their jobs.
abbrev job_row : ℕ → Stage → StageEntry
job_row job stage = record (row_of stage) { rq_job = some job }

abbrev with_jobs : ℕ → SandboxRequest → SandboxRequest
with_jobs job request = record request {
  stack = some (job_row job started);
  networking = some (job_row (job + 1) (waiting 2 networking_allocation));
  user = some (job_row (job + 2) (waiting 3 user_allocation));
}

-- The job 21 has failed, that of the stack of the second request.
abbrev rows : RequestRows
rows = record {
  allocations = with_jobs 11 running_request ∷ with_jobs 21 running_request ∷ [];
  cleanups = cleanup ∷ [];
  calls = [];
  clock = 20;
}

request_exception_handler-allocation_example :
    (settled : SandboxRequest) × ((request_exception_handler good_world 21 rows).1.allocations
      ≡ with_jobs 11 running_request ∷ settled ∷ [])
    × ((request_exception_handler good_world 21 rows).1.cleanups ≡ cleanup ∷ [])
    × IsSettledRequest (with_jobs 21 running_request) settled
    × (is_finished settled ≡ true)
unfolding request_exception_handler is_known owns_job found_rows cancel_owner cancel_request cancel
    cancel_stage cancel_ansible cancel_allocation has_job stages is_finished create_stage
request_exception_handler-allocation_example =
    request_exception_handler-allocation good_world 21 (with_jobs 21 running_request) refl
      (with_jobs 11 running_request ∷ []) [] rows refl refl refl
