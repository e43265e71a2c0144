-- ===== src/Requests.antt =====
-- The cleanup requests of crczp/sandbox_instance_app/lib/requests.py, on one allocation unit.
pub mod Cleanup
pub mod Force
pub mod Batch
use backend_sandbox_service.Prelude.{
  ℕ, Bool, true, false, Option, none, some, List, [], ◌∷◌, ◌++◌, is_some, not, ◌&&◌, ◌||◌,
}
use backend_sandbox_service.Errors.{
  Done, validation_error, protected_error, Result, ok, err, Exec, pure, gets, require, raise_if,
  modify, when, ◌>>=◌, ◌>>◌,
}
use backend_sandbox_service.Models.{
  Sandbox, SandboxRequest, AllocationRequest, CleanupRequest, SandboxAllocationUnit, StageEntry,
  is_finished,
}
use backend_sandbox_service.StageHandler.{Call, World}
use backend_sandbox_service.Handlers.{RequestState, allocation_order, cleanup_order, cancel_request}

-- What reaches outside the unit's rows: the cache, NetBird, and the default queue.
pub data Event : Type 0 where
  clear_cache destroy_netbird : (sandbox_id : ℕ) → Event
  -- `CleanupRequestHandler(delete_pool).enqueue_request(unit)`
  enqueue_cleanup : (unit_id : ℕ) → (delete_pool : Bool) → Event
  -- `AllocationRequestHandler().restart_request(unit)`
  enqueue_restart : (unit_id : ℕ) → Event

pub record UnitState : Type 0 where
  pub unit : SandboxAllocationUnit
  pub events : List Event
  pub calls : List Call
  pub clock : ℕ

abbrev pub UnitAction : Type 0 → Type 0
UnitAction A = Exec UnitState A

emit : Event → UnitAction Done
emit event = modify (λ s. record s { events = s.events ++ event ∷ [] })

set_sandbox : Option Sandbox → UnitAction Done
set_sandbox sandbox = modify (λ s. record s { unit = record s.unit { sandbox = sandbox } })

-- `sandbox.delete()`: a lock protects its sandbox.
delete_sandbox : Sandbox → UnitAction Done
unfolding set_sandbox
delete_sandbox sandbox = do raise_if (is_some sandbox.lock) protected_error; set_sandbox none

-- The cached topology goes, then the NetBird resources (no error passes from there), then the row.
remove_sandbox : Option Sandbox → UnitAction Done
unfolding emit delete_sandbox
remove_sandbox none = pure tt
remove_sandbox (some sandbox) = do
  emit (clear_cache sandbox.id)
  emit (destroy_netbird sandbox.id)
  delete_sandbox sandbox

unfoldable pub is_locked : Option Sandbox → Bool
is_locked none = false
is_locked (some sandbox) = is_some sandbox.lock

-- Whether the first stage has been started and has not ended.
unfoldable pub first_stage_runs : StageEntry → Bool
first_stage_runs stack = not (stack.finished || stack.failed) && is_some stack.start

check_first_stage : AllocationRequest → UnitAction Done
unfolding first_stage_runs
check_first_stage request = do
  stack ← require (λ _. request.stack)
  raise_if (first_stage_runs stack) validation_error

enqueue_cleanup_of_unit : Bool → UnitAction Done
unfolding emit
enqueue_cleanup_of_unit delete_pool s = emit (enqueue_cleanup s.unit.id delete_pool) s

unfoldable pub create_cleanup_request : UnitAction Done
unfolding is_locked check_first_stage remove_sandbox enqueue_cleanup_of_unit
create_cleanup_request = do
  sandbox ← gets (λ s. s.unit.sandbox)
  raise_if (is_locked sandbox) validation_error
  request ← require (λ s. s.unit.allocation_request)
  check_first_stage request
  raise_if (not (is_finished request)) validation_error
  has_cleanup ← gets (λ s. is_some s.unit.cleanup_request)
  raise_if has_cleanup validation_error
  remove_sandbox sandbox
  enqueue_cleanup_of_unit false

-- `sandbox.lock.delete()`
unlock : Option Sandbox → Option Sandbox
unlock none = none
unlock (some sandbox) = some (record sandbox { lock = none })

unfoldable pub is_unfinished : Option CleanupRequest → Bool
is_unfinished none = false
is_unfinished (some request) = not (is_finished request)

module _ (world : World) where
  -- Cancelling the request of the unit, in one of the two orders.
  cancel_allocation : AllocationRequest → UnitAction Done
  cancel_allocation request s =
      let (r, t) =
        cancel_request world allocation_order
          (record { request = request; calls = s.calls; clock = s.clock }) in
      (
        r,
        record s {
          unit = record s.unit { allocation_request = some t.request };
          calls = t.calls;
          clock = t.clock;
        },
      )

  force_cleanup : Bool → UnitAction Done
  unfolding unlock set_sandbox check_first_stage cancel_allocation remove_sandbox
      enqueue_cleanup_of_unit
  force_cleanup delete_pool = do
    sandbox ← gets (λ s. unlock s.unit.sandbox)
    set_sandbox sandbox
    request ← require (λ s. s.unit.allocation_request)
    check_first_stage request
    when (not (is_finished request)) (cancel_allocation request)
    remove_sandbox sandbox
    enqueue_cleanup_of_unit delete_pool

  -- A cleanup request that has not finished makes the call do nothing.
  unfoldable pub create_cleanup_request_force : Bool → UnitAction Done
  unfolding is_unfinished force_cleanup
  create_cleanup_request_force delete_pool s = elim (is_unfinished s.unit.cleanup_request) [
    | true ↦ (ok tt, s)
    | false ↦ force_cleanup delete_pool s
  ]

  -- One round of the loop of `create_cleanup_requests`.
  unfoldable pub cleanup_unit : Bool → Bool → UnitAction Done
  cleanup_unit true delete_pool = create_cleanup_request_force delete_pool
  cleanup_unit false delete_pool = create_cleanup_request

  -- The units are treated in turn, and the first error ends the loop.
  unfoldable pub create_cleanup_requests :
      Bool → Bool → List UnitState → Result Done × List UnitState
  create_cleanup_requests force delete_pool [] = (ok tt, [])
  create_cleanup_requests force delete_pool (unit ∷ units) =
      let (r, unit') = cleanup_unit force delete_pool unit in
      let (rest, units') = create_cleanup_requests force delete_pool units in
      elim r [ ok _ ↦ (rest, unit' ∷ units') | err e ↦ (err e, unit' ∷ units) ]

  -- `cancel_allocation_request`
  unfoldable pub cancel_allocation_request : UnitAction Done
  unfolding cancel_allocation
  cancel_allocation_request = do
    request ← require (λ s. s.unit.allocation_request)
    cancel_allocation request

  -- `cancel_cleanup_request`
  unfoldable pub cancel_cleanup_request : CleanupRequest → UnitAction Done
  cancel_cleanup_request request s =
      let (r, t) =
        cancel_request world cleanup_order
          (record { request = request; calls = s.calls; clock = s.clock }) in
      (
        r,
        record s {
          unit = record s.unit { cleanup_request = some t.request };
          calls = t.calls;
          clock = t.clock;
        },
      )

-- `delete_cleanup_request`: the request given, whose row goes with its stages.
unfoldable pub delete_cleanup_request : CleanupRequest → UnitAction Done
delete_cleanup_request request = do
  raise_if (not (is_finished request)) validation_error
  modify (λ s. record s { unit = record s.unit { cleanup_request = none } })

-- `restart_allocation_stages`
unfoldable pub restart_allocation_stages : UnitAction Done
unfolding emit
restart_allocation_stages s = emit (enqueue_restart s.unit.id) s
