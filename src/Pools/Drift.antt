-- ===== src/Pools/Drift.antt =====
-- What a count below zero does to a pool. `SandboxAllocationUnitListCreateView.post` of
-- crczp/sandbox_instance_app/views.py passes any integer on.
use backend_sandbox_service.Prelude.{ℕ, suc, ◌+◌, ◌≤◌, ◌≡◌, Option, some, [], arith, append-nil}
use backend_sandbox_service.Prelude.Int.{negsuc, ◌+ℤ◌}
use backend_sandbox_service.Errors.{ok}
use backend_sandbox_service.Pools.{
  PoolState, Cloud, new_units, rounds, create_allocations_requests, save_size,
  validate_hardware_usage, build, count_or_rest, create_sandboxes_in_pool,
}
use backend_sandbox_service.Pools.Capacity.{IsSound}

module _ (cloud : Cloud) where
  -- A count of -(k + 1), no lower than minus the size, passes the check of the room in a sound pool.
  -- Where it passes the hardware check too, the call succeeds with no unit, the units stay, and the
  -- size falls by k + 1: it no longer is the number of units.
  pub create_sandboxes_in_pool-negsuc :
      (k : ℕ) (created_by : Option ℕ) (s : PoolState)
      → IsSound s
      → suc k ≤ s.pool.size
      → validate_hardware_usage cloud (negsuc k) ≡ ok tt
      → ((create_sandboxes_in_pool cloud created_by (some (negsuc k)) s).0 ≡ ok [])
        × ((create_sandboxes_in_pool cloud created_by (some (negsuc k)) s).1.units ≡ s.units)
        × ((create_sandboxes_in_pool cloud created_by (some (negsuc k)) s).1.pool.size + suc k
            ≡ s.pool.size)
  unfolding create_sandboxes_in_pool build create_allocations_requests save_size count_or_rest ◌+ℤ◌
      rounds new_units
  create_sandboxes_in_pool-negsuc k created_by s h fits check = ground (arith, append-nil s.units)
