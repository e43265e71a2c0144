-- ===== src/Examples/PoolRuns.antt =====
-- Pools that are built in, cleaned and locked.
use backend_sandbox_service.Prelude.{ℕ, ◌≡◌, refl, false, none, some, [], ◌∷◌, arith, ◌+◌}
use backend_sandbox_service.Prelude.Int.{pos, negsuc}
use backend_sandbox_service.Errors.{ok}
use backend_sandbox_service.Models.{SandboxAllocationUnit}
use backend_sandbox_service.Pools.{
  PoolState, Cloud, validate_hardware_usage, create_sandboxes_in_pool, lock_pool,
  delete_allocation_unit,
}
use backend_sandbox_service.Pools.Capacity.{IsSound}
use backend_sandbox_service.Pools.Histories.{
  start, built, cleaned, locked, drift, IsShort, Steps-IsShort,
}
use backend_sandbox_service.Pools.Drift.{create_sandboxes_in_pool-negsuc}

abbrev cloud : Cloud
cloud = record {
  validate_hardware = λ _. ok tt;
  delete_ssh_keypair = ok tt;
  delete_cert_keypair = ok tt;
}

abbrev unit : ℕ → SandboxAllocationUnit
unit id = record {
  id = id;
  created_by = some 1;
  sandbox = none;
  allocation_request = none;
  cleanup_request = none;
}

-- Two units, and room for three more.
abbrev two_units : PoolState
two_units = record {
  pool = record {
    id = 1;
    max_size = pos 5;
    size = 2;
    send_emails = false;
    rev = "main";
    rev_sha = "a1";
    definition_url = "git";
    lock = none;
  };
  is_deleted = false;
  units = unit 1 ∷ unit 2 ∷ [];
  next_id = 3;
  events = [];
}

two_units-IsSound : IsSound two_units
two_units-IsSound = record { counted = refl; within = omega arith }

-- A build that fills the pool, the end of a cleanup of a unit that the pool does not have, a lock.
abbrev after_build : PoolState
after_build = (create_sandboxes_in_pool cloud (some 1) none two_units).1

abbrev after_all : PoolState
after_all = (lock_pool (some "token") (delete_allocation_unit cloud false (unit 9) after_build).1).1

Steps-IsShort_example :
    IsShort
      (drift cloud (
        locked
          (cleaned (built (start {s = two_units}) none (some 1)) false (unit 9))
          (some "token")))
      after_all
Steps-IsShort_example =
    Steps-IsShort cloud
      (locked (cleaned (built (start {s = two_units}) none (some 1)) false (unit 9)) (some "token"))
      (record { counted = omega arith; within = omega arith })

create_sandboxes_in_pool-negsuc_example :
    ((create_sandboxes_in_pool cloud (some 1) (some (negsuc 1)) two_units).0 ≡ ok [])
    × ((create_sandboxes_in_pool cloud (some 1) (some (negsuc 1)) two_units).1.units
        ≡ unit 1 ∷ unit 2 ∷ [])
    × ((create_sandboxes_in_pool cloud (some 1) (some (negsuc 1)) two_units).1.pool.size + 2 ≡ 2)
unfolding validate_hardware_usage
create_sandboxes_in_pool-negsuc_example =
    create_sandboxes_in_pool-negsuc cloud 1 (some 1) two_units two_units-IsSound (omega arith) refl
