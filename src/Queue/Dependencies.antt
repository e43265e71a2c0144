-- ===== src/Queue/Dependencies.antt =====
-- What a finished job of a request says about the other jobs of the request. The queue's service
-- starts a job after the jobs that it depends on have finished without an exception.
use backend_sandbox_service.Prelude.{
  ℕ, suc, ◌+◌, ◌≡◌, refl, ◌∙◌, sym, Bool, true, false, Option, none, some, List, [], ◌∷◌, ◌++◌,
  length, any, All, arith, append_assoc, append-nil, ◌⊎◌, inl, inr,
}
use backend_sandbox_service.Errors.{ok}
use backend_sandbox_service.Models.{
  StageClass, stack_allocation, networking_allocation, user_allocation, stack_cleanup,
  networking_cleanup, user_cleanup, Stage,
}
use backend_sandbox_service.Queue.{
  QueueState, Job, execute_stage, finalize, queue_default, enqueue, queue_of, to_list, dependencies,
  set_job_id, enqueue_stages, enqueue_request,
}

-- A set of jobs that have finished well keeps to the dependencies of the jobs listed.
abbrev pub Respects : (ℕ → Bool) → List Job → Type 0
Respects done jobs =
    All (λ job. done job.id ≡ true → All (λ id. done id ≡ true) job.depends_on) jobs

abbrev pub is_user_class : StageClass → Bool
is_user_class user_allocation = true
is_user_class _ = false

-- The numbers from the first one on, as many as there are stages.
abbrev pub ids_from : ℕ → List Stage → List ℕ
ids_from id [] = []
ids_from id (_ ∷ stages) = id ∷ ids_from (suc id) stages

-- The jobs of the stages, where the first gets the number given, and the last of them.
stage_jobs : List Stage → Option ℕ → Option ℕ → ℕ → List Job
stage_jobs [] extra previous_job id = []
stage_jobs (stage ∷ stages) extra previous_job id =
    record {
      id = id;
      queue = queue_of stage.class;
      task = execute_stage stage.id;
      depends_on = dependencies stage.class previous_job extra;
    }
    ∷ stage_jobs stages extra (some id) (suc id)

last_job : List Stage → Option ℕ → ℕ → Option ℕ
last_job [] previous_job id = previous_job
last_job (_ ∷ stages) previous_job id = last_job stages (some id) (suc id)

enqueue_stages_lem :
    (stages : List Stage) (extra previous_job : Option ℕ) (s : QueueState)
    → ((enqueue_stages stages extra previous_job s).0
        ≡ ok (last_job stages previous_job s.next_job_id))
      × ((enqueue_stages stages extra previous_job s).1.jobs
          ≡ s.jobs ++ stage_jobs stages extra previous_job s.next_job_id)
      × ((enqueue_stages stages extra previous_job s).1.next_job_id ≡ s.next_job_id + length stages)
unfolding enqueue_stages enqueue set_job_id stage_jobs last_job
enqueue_stages_lem [] extra previous_job s = (refl, sym (append-nil s.jobs), omega arith)
enqueue_stages_lem (stage ∷ stages) extra previous_job s =
    let j : Job = record {
      id = s.next_job_id;
      queue = queue_of stage.class;
      task = execute_stage stage.id;
      depends_on = dependencies stage.class previous_job extra;
    } in
    let (last, jobs, next) = enqueue_stages_lem stages extra (some s.next_job_id) (record s {
      job_ids = s.job_ids ++ (stage.id, s.next_job_id) ∷ [];
      jobs = s.jobs ++ j ∷ [];
      next_job_id = suc s.next_job_id;
    }) in
    (
      last,
      jobs
          ∙ append_assoc s.jobs (j ∷ [])
              (stage_jobs stages extra (some s.next_job_id) (suc s.next_job_id)),
      omega (arith, next),
    )

All-left : {A : Type 0} (P : A → Type 0) (xs ys : List A) → All P (xs ++ ys) → All P xs × All P ys
All-left P [] ys h = (tt, h)
All-left P (x ∷ xs) ys h = let (l, r) = All-left P xs ys h.1 in ((h.0, l), r)

dependencies_done :
    (done : ℕ → Bool) (class : StageClass) (previous_job extra : Option ℕ)
    → All (λ id. done id ≡ true) (dependencies class previous_job extra)
    → All (λ id. done id ≡ true) (to_list previous_job)
      × ((is_user_class class ≡ false) ⊎ All (λ id. done id ≡ true) (to_list extra))
unfolding dependencies
dependencies_done done user_allocation previous_job extra h =
    let (l, r) = All-left (λ id. done id ≡ true) (to_list previous_job) (to_list extra) h in
    (l, inr r)
dependencies_done done stack_allocation previous_job extra h = (h, inl refl)
dependencies_done done networking_allocation previous_job extra h = (h, inl refl)
dependencies_done done stack_cleanup previous_job extra h = (h, inl refl)
dependencies_done done networking_cleanup previous_job extra h = (h, inl refl)
dependencies_done done user_cleanup previous_job extra h = (h, inl refl)

chain_done :
    (done : ℕ → Bool) (stages : List Stage) (extra previous_job : Option ℕ) (id : ℕ)
    → Respects done (stage_jobs stages extra previous_job id)
    → All (λ j. done j ≡ true) (to_list (last_job stages previous_job id))
    → All (λ j. done j ≡ true) (ids_from id stages)
      × All (λ j. done j ≡ true) (to_list previous_job)
      × ((any (λ stage. is_user_class stage.class) stages ≡ false)
          ⊎ All (λ j. done j ≡ true) (to_list extra))
unfolding stage_jobs last_job
chain_done done [] extra previous_job id h last = (tt, last, inl refl)
chain_done done (stage ∷ stages) extra previous_job id h last =
    let (rest, this, user) = chain_done done stages extra (some id) (suc id) h.1 last in
    let (before, needs) = dependencies_done done stage.class previous_job extra (h.0 this.0) in
    ((this.0, rest), before, ground (arith, needs, user))

-- The finalizing job, which depends on the last stage's.
final_job : List Stage → ℕ → Job
final_job stages id = record {
  id = id + length stages;
  queue = queue_default;
  task = finalize;
  depends_on = to_list (last_job stages none id);
}

enqueue_request_lem :
    (stages : List Stage) (extra : Option ℕ) (s : QueueState)
    → ((enqueue_request stages extra s).1.jobs
        ≡ (s.jobs ++ stage_jobs stages extra none s.next_job_id)
          ++ final_job stages s.next_job_id ∷ [])
      × ((enqueue_request stages extra s).1.next_job_id ≡ suc (s.next_job_id + length stages))
unfolding enqueue_request enqueue final_job
enqueue_request_lem stages extra s = ground (arith, enqueue_stages_lem stages extra none s)

-- Enqueueing a request's stages adds one job for each and the finalizing one, numbered in turn. For
-- every set of jobs that keeps to the dependencies, if the finalizing job has finished well, so have
-- all the stages' jobs, and the extra job where there is a user stage of an allocation.
pub enqueue_request-finalize :
    (done : ℕ → Bool) (stages : List Stage) (extra : Option ℕ) (s : QueueState)
    → Respects done (enqueue_request stages extra s).1.jobs
    → done (s.next_job_id + length stages) ≡ true
    → ((enqueue_request stages extra s).1.next_job_id ≡ suc (s.next_job_id + length stages))
      × All (λ id. done id ≡ true) (ids_from s.next_job_id stages)
      × ((any (λ stage. is_user_class stage.class) stages ≡ false)
          ⊎ All (λ id. done id ≡ true) (to_list extra))
unfolding final_job
enqueue_request-finalize done stages extra s h last =
    let (jobs, next) = enqueue_request_lem stages extra s in
    let all_jobs : Respects done (
        (s.jobs ++ stage_jobs stages extra none s.next_job_id)
        ++ final_job stages s.next_job_id ∷ []) =
      rw (sym jobs) h in
    let (staged, final) =
      All-left (λ job. done job.id ≡ true → All (λ id. done id ≡ true) job.depends_on)
        (s.jobs ++ stage_jobs stages extra none s.next_job_id) (final_job stages s.next_job_id ∷ [])
        all_jobs in
    let (ids, _, user) =
      chain_done done stages extra none s.next_job_id
        (All-left (λ job. done job.id ≡ true → All (λ id. done id ≡ true) job.depends_on) s.jobs
          (stage_jobs stages extra none s.next_job_id) staged).1
        (final.0 last) in
    (next, ids, user)
