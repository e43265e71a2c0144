-- ===== src/Handlers/JobFailures.antt =====
-- `request_exception_handler` of crczp/sandbox_instance_app/lib/request_handlers.py, which the queue
-- calls with each job that raised, and what it leaves of the request.
use backend_sandbox_service.Prelude.{
  ℕ, ◌+◌, ◌==◌, ◌≡◌, Bool, true, false, none, some, List, [], ◌∷◌, ◌++◌, any, length, filter, ltb,
  arith,
}
use backend_sandbox_service.Errors.{Done, Result, ok, err, other_error, Exec}
use backend_sandbox_service.Models.{StageEntry, SandboxRequest, stages, is_finished}
use backend_sandbox_service.StageHandler.{Call, World}
use backend_sandbox_service.Handlers.{
  Slot, RequestState, allocation_order, cleanup_order, cancel_request,
}
use backend_sandbox_service.Handlers.Cancelling.{IsSettledRequest, cancel_request-allocation}

-- The requests of the database, with the calls of services so far, and the clock.
pub record RequestRows : Type 0 where
  pub allocations : List SandboxRequest
  pub cleanups : List SandboxRequest
  pub calls : List Call
  pub clock : ℕ

-- `AllocationRQJob.objects.get(job_id=job.id)`, through the stages of a request.
unfoldable pub has_job : ℕ → StageEntry → Bool
has_job job entry = elim entry.rq_job [ none ↦ false | some id ↦ id == job ]

unfoldable pub owns_job : ℕ → SandboxRequest → Bool
unfolding has_job
owns_job job request = any (has_job job) (stages request)

unfoldable pub is_known : ℕ → List SandboxRequest → Bool
unfolding owns_job
is_known job requests = any (owns_job job) requests

-- The rows that `get` finds: it raises where there are more than one.
unfoldable pub found_rows : ℕ → List SandboxRequest → ℕ
unfolding has_job
found_rows job [] = 0
found_rows job (request ∷ requests) =
    length (filter (has_job job) (stages request)) + found_rows job requests

module _ (world : World) where
  -- The request that owns the job is cancelled, in its place among the others.
  unfoldable pub cancel_owner :
      List Slot
      → ℕ
      → List SandboxRequest
      → (calls : List Call) → (clock : ℕ) → Result Done × (List SandboxRequest × (List Call × ℕ))
  unfolding owns_job
  cancel_owner order job [] calls clock = (ok tt, ([], (calls, clock)))
  cancel_owner order job (request ∷ requests) calls clock = elim (owns_job job request) [
    | true ↦
        let (r, t) =
          cancel_request world order (record { request = request; calls = calls; clock = clock }) in
        (r, (t.request ∷ requests, (t.calls, t.clock)))
    | false ↦
        let (r, (rest, after)) = cancel_owner order job requests calls clock in
        (r, (request ∷ rest, after))
  ]

  unfoldable pub request_exception_handler : ℕ → Exec RequestRows Done
  unfolding is_known found_rows cancel_owner
  request_exception_handler job s = elim (is_known job s.allocations) [
    | true ↦ elim (ltb 1 (found_rows job s.allocations)) [
      | true ↦ (err other_error, s)
      | false ↦
          let (r, (requests, (calls, clock))) =
            cancel_owner allocation_order job s.allocations s.calls s.clock in
          (r, record s { allocations = requests; calls = calls; clock = clock })
    ]
    | false ↦ elim (is_known job s.cleanups) [
      | true ↦ elim (ltb 1 (found_rows job s.cleanups)) [
        | true ↦ (err other_error, s)
        | false ↦
            let (r, (requests, (calls, clock))) =
              cancel_owner cleanup_order job s.cleanups s.calls s.clock in
            (r, record s { cleanups = requests; calls = calls; clock = clock })
      ]
      | false ↦ (ok tt, s)
    ]
  ]

  module _ (job : ℕ) (request : SandboxRequest) (owned : owns_job job request ≡ true) where
    cancel_owner-owned :
        (order : List Slot) (before after : List SandboxRequest) (calls : List Call) (clock : ℕ)
        → is_known job before ≡ false
        → let t =
            cancel_request world order
              (record { request = request; calls = calls; clock = clock }) in
          cancel_owner order job (before ++ request ∷ after) calls clock
          ≡ (t.0, (before ++ t.1.request ∷ after, (t.1.calls, t.1.clock)))
    unfolding cancel_owner is_known
    cancel_owner-owned order [] after calls clock others = ground (arith, owned)
    cancel_owner-owned order (first ∷ before) after calls clock others =
        ground (arith, cancel_owner-owned order before after calls clock)

    is_known-append :
        (before after : List SandboxRequest) → is_known job (before ++ request ∷ after) ≡ true
    unfolding is_known
    is_known-append [] after = ground (arith, owned)
    is_known-append (first ∷ before) after = ground (arith, is_known-append before after)

    -- If the handler of a failed job of an allocation request returns, that request has finished:
    -- its stages that had ended, as the one whose job failed, are as they were, with their error
    -- messages, and the others have been cancelled. No other request has changed.
    pub request_exception_handler-allocation :
        (before after : List SandboxRequest) (s : RequestRows)
        → s.allocations ≡ before ++ request ∷ after
        → is_known job before ≡ false
        → (request_exception_handler job s).0 ≡ ok tt
        → (settled : SandboxRequest) × ((request_exception_handler job s).1.allocations
            ≡ before ++ settled ∷ after)
          × ((request_exception_handler job s).1.cleanups ≡ s.cleanups)
          × IsSettledRequest request settled
          × (is_finished settled ≡ true)
    unfolding request_exception_handler
    request_exception_handler-allocation before after s rows others returned =
        let start : RequestState = record { request = request; calls = s.calls; clock = s.clock } in
        let known = is_known-append before after in
        let owner = cancel_owner-owned allocation_order before after s.calls s.clock others in
        let single : ltb 1 (found_rows job s.allocations) ≡ false =
          ground (arith, rows, known, returned) in
        let (settled, finished) =
          cancel_request-allocation world start (ground (arith, rows, known, owner, single)) in
        (
          (cancel_request world allocation_order start).1.request,
          ground (arith, rows, known, owner, single),
          ground (arith, rows, known, owner, single),
          settled,
          finished,
        )
