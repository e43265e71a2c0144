-- ===== src/Examples/QueueRuns.antt =====
-- The jobs of an allocation, a restart and a cleanup.
use backend_sandbox_service.Prelude.{
  ◌≡◌, refl, true, false, none, some, List, [], ◌∷◌, All, ◌⊎◌, ltb,
}
use backend_sandbox_service.Errors.{ok, is_ok}
use backend_sandbox_service.Models.{
  stack_allocation, networking_allocation, user_allocation, create_stage, stage_entry,
  SandboxRequest, Stage, is_finished,
}
use backend_sandbox_service.Queue.{
  QueueState, Sources, dependencies, enqueue_request, restart_stage_handlers, allocate,
}
use backend_sandbox_service.Queue.Dependencies.{enqueue_request-finalize}
use backend_sandbox_service.Queue.Allocation.{allocation_jobs, allocate-jobs}
use backend_sandbox_service.Queue.Restart.{restart_stage_handlers-networking}
use backend_sandbox_service.Examples.{waiting, over, broken, row_of, request_with, running_request}

abbrev sources : Sources
sources = record {
  ansible_networking_url = "net";
  ansible_networking_rev = "v1";
  definition_url = "def";
  rev_sha = "a1";
}

abbrev queue_with : SandboxRequest → QueueState
queue_with request = record {
  request = request;
  next_stage_id = 7;
  job_ids = [];
  jobs = [];
  next_job_id = 100;
}

abbrev three : List Stage
three =
    waiting 1 stack_allocation ∷ waiting 2 networking_allocation ∷ waiting 3 user_allocation ∷ []

abbrev empty : SandboxRequest
empty = record { id = 5; stack = none; networking = none; user = none }

-- All jobs up to number 103 have finished well, those of the stages, and the extra job 99.
enqueue_request-finalize_example :
    ((enqueue_request three (some 99) (queue_with empty)).1.next_job_id ≡ 104)
    × All (λ id. ltb id 104 ≡ true) (100 ∷ 101 ∷ 102 ∷ [])
    × ((true ≡ false) ⊎ All (λ id. ltb id 104 ≡ true) (99 ∷ []))
unfolding enqueue_request dependencies create_stage
enqueue_request-finalize_example =
    enqueue_request-finalize (λ id. ltb id 104) three (some 99) (queue_with empty)
      (λ _. tt, (λ _. (refl, tt), (λ _. (refl, (refl, tt)), (λ _. (refl, tt), tt)))) refl

-- The networking stage has failed, and the user stage was cancelled with it.
abbrev failed_late : QueueState
failed_late = queue_with (
    request_with (over (waiting 1 stack_allocation)) (broken (waiting 2 networking_allocation))
      (broken (waiting 3 user_allocation)))

abbrev unfinished : QueueState
unfinished = queue_with (
    request_with (over (waiting 1 stack_allocation)) (waiting 2 networking_allocation)
      (waiting 3 user_allocation))

abbrev odd : QueueState
odd = queue_with (
    request_with (broken (waiting 1 stack_allocation)) (over (waiting 2 networking_allocation))
      (broken (waiting 3 user_allocation)))

restart_stage_handlers-networking_example :
    (is_ok (restart_stage_handlers sources odd).0 ≡ true)
    × ((restart_stage_handlers sources odd).1.request.networking
        ≡ some (row_of (over (waiting 2 networking_allocation))))
    × ((restart_stage_handlers sources odd).1.request.stack
        ≡ some (stage_entry (create_stage 7 stack_allocation "" "")))
unfolding is_finished create_stage
restart_stage_handlers-networking_example =
    restart_stage_handlers-networking sources (row_of (broken (waiting 1 stack_allocation)))
      (row_of (over (waiting 2 networking_allocation)))
      (row_of (broken (waiting 3 user_allocation))) odd refl refl refl refl refl

allocate-jobs_example :
    ((allocate sources true (queue_with empty)).0 ≡ ok tt)
    × ((allocate sources true (queue_with empty)).1.jobs ≡ allocation_jobs true 7 100)
allocate-jobs_example = allocate-jobs sources true 5 (queue_with running_request)
