-- ===== src/Requests/Force.antt =====
-- What a forced cleanup does to the unit.
use backend_sandbox_service.Prelude.{
  ◌≡◌, refl, Bool, true, false, none, some, ◌++◌, arith, Option-cases, inl, inr,
}
use backend_sandbox_service.Errors.{ok, err, validation_error}
use backend_sandbox_service.Models.{
  Sandbox, SandboxRequest, SandboxAllocationUnit, StageEntry, is_finished,
}
use backend_sandbox_service.StageHandler.{World}
use backend_sandbox_service.Handlers.Cancelling.{cancel_request-allocation}
use backend_sandbox_service.Requests.{
  UnitState, clear_cache, destroy_netbird, enqueue_cleanup, unlock, first_stage_runs, is_unfinished,
  cancel_allocation, force_cleanup, create_cleanup_request_force,
}
use backend_sandbox_service.Requests.Cleanup.{cleanup_events, append_three}

module _ (world : World) where
  -- A forced cleanup of a unit whose first stage runs is refused, but a lock of its sandbox has
  -- been deleted by then: the sandbox stays, unlocked.
  pub create_cleanup_request_force-running :
      (s : UnitState) (sandbox : Sandbox) (request : SandboxRequest) (stack : StageEntry)
      (delete_pool : Bool)
      → is_unfinished s.unit.cleanup_request ≡ false
      → s.unit.sandbox ≡ some sandbox
      → s.unit.allocation_request ≡ some request
      → request.stack ≡ some stack
      → first_stage_runs stack ≡ true
      → let (r, t) = create_cleanup_request_force world delete_pool s in
        (r ≡ err validation_error)
        × (t.unit.sandbox ≡ some (record sandbox { lock = none }))
        × (t.events ≡ s.events)
  unfolding create_cleanup_request_force
  create_cleanup_request_force-running s sandbox request stack delete_pool hc hs hr hk hf =
      ground arith

-- The allocation of the unit has finished.
abbrev pub allocation_finished : SandboxAllocationUnit → Bool
allocation_finished unit = elim unit.allocation_request [
  | none ↦ false
  | some request ↦ is_finished request
]

module _ (world : World) where
  cancel_allocation-finished :
      (request : SandboxRequest) (s : UnitState)
      → (cancel_allocation world request s).0 ≡ ok tt
      → allocation_finished (cancel_allocation world request s).1.unit ≡ true
  unfolding cancel_allocation
  cancel_allocation-finished request s h =
      (cancel_request-allocation world
        (record { request = request; calls = s.calls; clock = s.clock }) h).1

  cancel_allocation-keeps :
      (request : SandboxRequest) (s : UnitState)
      → let t = (cancel_allocation world request s).1 in
        (t.unit.id ≡ s.unit.id) × (t.events ≡ s.events)
  unfolding cancel_allocation
  cancel_allocation-keeps request s = (refl, refl)

  abbrev unlocked : UnitState → UnitState
  unlocked s = record s { unit = record s.unit { sandbox = unlock s.unit.sandbox } }

  -- The unit's allocation request is known.
  force_cleanup-request :
      (request : SandboxRequest) (s : UnitState) (delete_pool : Bool)
      → s.unit.allocation_request ≡ some request
      → (force_cleanup world delete_pool s).0 ≡ ok tt
      → let t = (force_cleanup world delete_pool s).1 in
        (t.unit.sandbox ≡ none)
        × (allocation_finished t.unit ≡ true)
        × (t.events ≡ s.events ++ cleanup_events s.unit.sandbox s.unit.id delete_pool)
  unfolding force_cleanup
  force_cleanup-request request s delete_pool hr h = elim (Option-cases s.unit.sandbox) [
    | inl absent ↦ ground (
      arith,
      cancel_allocation-finished request (unlocked s),
      cancel_allocation-keeps request (unlocked s),
    )
    | inr (x, e) ↦ ground (
      arith,
      cancel_allocation-finished request (unlocked s),
      cancel_allocation-keeps request (unlocked s),
      append_three s.events (clear_cache x.id) (destroy_netbird x.id)
          (enqueue_cleanup s.unit.id delete_pool),
    )
  ]

  -- A forced cleanup that returns for a unit with no cleanup under way has removed the sandbox,
  -- locked or not, left the allocation finished, and put one cleanup job in the queue, after the
  -- sandbox's cache entry and NetBird resources were dealt with.
  pub create_cleanup_request_force-ok :
      (s : UnitState) (delete_pool : Bool)
      → is_unfinished s.unit.cleanup_request ≡ false
      → (create_cleanup_request_force world delete_pool s).0 ≡ ok tt
      → let t = (create_cleanup_request_force world delete_pool s).1 in
        (t.unit.sandbox ≡ none)
        × (allocation_finished t.unit ≡ true)
        × (t.events ≡ s.events ++ cleanup_events s.unit.sandbox s.unit.id delete_pool)
  unfolding create_cleanup_request_force
  create_cleanup_request_force-ok s delete_pool hc h =
      elim (Option-cases s.unit.allocation_request) [
        | inl absent ↦ absurd (ground arith)
        | inr (request, e) ↦ ground (arith, force_cleanup-request request s delete_pool e)
      ]
