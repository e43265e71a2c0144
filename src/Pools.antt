-- ===== src/Pools.antt =====
-- The pool of crczp/sandbox_instance_app/lib/pools.py with its allocation units: building
-- sandboxes, the end of a cleanup (`_delete_allocation_unit` of lib/request_handlers.py), the locks,
-- and the deletion of the pool.
pub mod Capacity
pub mod Creation
pub mod Deletion
pub mod Drift
pub mod Histories
use backend_sandbox_service.Prelude.{
  ℕ, zero, suc, ◌+◌, ◌-◌, Bool, true, false, not, Option, none, some, List, [], ◌∷◌, ◌++◌, String,
  is_some, ◌==◌, ◌&&◌, if◌then◌else◌,
}
use backend_sandbox_service.Prelude.Int.{ℤ, pos, negsuc, ◌+ℤ◌, ◌-ℤ◌, ltb_ℤ}
use backend_sandbox_service.Errors.{
  Done, Exc, validation_error, protected_error, integrity_error, stack_error, stack_creation_failed,
  Result, ok, err, Exec, pure, raise, gets, raise_if, lift, modify, when, catch, is_crczp, ◌>>=◌,
  ◌>>◌,
}
use backend_sandbox_service.Models.{
  Pool, PoolLock, SandboxAllocationUnit, create_request, is_finished,
}

pub data PoolEvent : Type 0 where
  -- `AllocationRequestHandler().enqueue_request(units, created_by)`, once committed
  enqueue_allocation : (units : List SandboxAllocationUnit) → (created_by : Option ℕ) → PoolEvent
  clear_pool_cache delete_ssh_keypair delete_cert_keypair : PoolEvent

-- `next_id` is the database's sequence of primary keys.
pub record PoolState : Type 0 where
  pub pool : Pool
  pub is_deleted : Bool
  pub units : List SandboxAllocationUnit
  pub next_id : ℕ
  pub events : List PoolEvent

abbrev pub PoolAction : Type 0 → Type 0
PoolAction A = Exec PoolState A

-- What the cloud client answers: to the hardware check of a number of sandboxes (with the topology
-- that it needs), and to the deletions of the pool's key pairs.
pub record Cloud : Type 0 where
  pub validate_hardware : ℤ → Result Done
  pub delete_ssh_keypair : Result Done
  pub delete_cert_keypair : Result Done

-- `with transaction.atomic()`: an exception undoes the writes.
abbrev pub atomic : {A : Type 0} → PoolAction A → PoolAction A
atomic m s = let (r, t) = m s in elim r [ ok a ↦ (ok a, t) | err e ↦ (err e, s) ]

-- The units that one run of the loop of `create_allocations_requests` makes, each with its request.
unfoldable pub new_units : ℕ → ℕ → Option ℕ → List SandboxAllocationUnit
new_units zero id created_by = []
new_units (suc n) id created_by =
    record {
      id = id;
      created_by = created_by;
      sandbox = none;
      allocation_request = some (create_request id);
      cleanup_request = none;
    }
    ∷ new_units n (suc id) created_by

-- `range(count)` is empty for a count below zero.
unfoldable pub rounds : ℤ → ℕ
rounds (pos n) = n
rounds (negsuc n) = 0

-- `create_allocations_requests`
unfoldable pub create_allocations_requests : ℤ → Option ℕ → PoolAction (List SandboxAllocationUnit)
unfolding new_units rounds
create_allocations_requests count created_by s =
    let units = new_units (rounds count) s.next_id created_by in
    (
      ok units,
      record s {
        units = s.units ++ units;
        next_id = s.next_id + rounds count;
        events = s.events ++ enqueue_allocation units created_by ∷ [];
      },
    )

-- `pool.size` is a PositiveIntegerField: the database refuses a size below zero.
unfoldable pub save_size : ℤ → PoolAction Done
save_size (pos n) = modify (λ s. record s { pool = record s.pool { size = n } })
save_size (negsuc n) = raise integrity_error

as_stack_error : Result Done → Result Done
as_stack_error (err stack_creation_failed) = err stack_error
as_stack_error r = r

count_or_rest : Option ℤ → Pool → ℤ
count_or_rest none pool = pool.max_size -ℤ pos pool.size
count_or_rest (some count) pool = count

-- `allocation_unit.delete()`: the unit's sandbox protects it.
unfoldable pub remove_unit : ℕ → List SandboxAllocationUnit → List SandboxAllocationUnit
remove_unit id [] = []
remove_unit id (unit ∷ units) = if unit.id == id then units else unit ∷ remove_unit id units

module _ (cloud : Cloud) where
  -- `validate_hardware_usage_of_sandboxes`
  unfoldable pub validate_hardware_usage : ℤ → Result Done
  unfolding as_stack_error
  validate_hardware_usage count = as_stack_error (cloud.validate_hardware count)

  unfoldable pub build : ℤ → Option ℕ → PoolAction (List SandboxAllocationUnit)
  unfolding create_allocations_requests save_size
  build count created_by = do
    pool ← gets (λ s. s.pool)
    raise_if (ltb_ℤ pool.max_size (pos pool.size +ℤ count)) validation_error
    lift (validate_hardware_usage count)
    units ← create_allocations_requests count created_by
    save_size (pos pool.size +ℤ count)
    pure units

  -- `create_sandboxes_in_pool`
  unfoldable pub create_sandboxes_in_pool :
      Option ℕ → Option ℤ → PoolAction (List SandboxAllocationUnit)
  unfolding build count_or_rest
  create_sandboxes_in_pool created_by count s =
      atomic (build (count_or_rest count s.pool) created_by) s

  unfoldable pub emit : PoolEvent → PoolAction Done
  emit event = modify (λ s. record s { events = s.events ++ event ∷ [] })

  -- `pool.delete()`: locks and units protect their pool; either is reported as a validation error.
  unfoldable pub delete_row : PoolAction Done
  delete_row s = elim (is_some s.pool.lock) [
    | true ↦ (err validation_error, s)
    | false ↦ elim s.units [
      | [] ↦ (ok tt, record s { is_deleted = true })
      | _ ∷ _ ↦ (err validation_error, s)
    ]
  ]

  -- `delete_pool`: a key pair that cannot be deleted is only logged.
  unfoldable pub delete_pool : PoolAction Done
  unfolding delete_row emit
  delete_pool = do
    delete_row
    emit clear_pool_cache
    catch is_crczp (emit delete_ssh_keypair >> lift cloud.delete_ssh_keypair) (λ _. pure tt)
    catch is_crczp (emit delete_cert_keypair >> lift cloud.delete_cert_keypair) (λ _. pure tt)

  unfoldable pub delete_unit : SandboxAllocationUnit → PoolAction Done
  unfolding remove_unit
  delete_unit unit = do
    raise_if (is_some unit.sandbox) protected_error
    modify (λ s. record s { units = remove_unit unit.id s.units })

  -- `_delete_allocation_unit`, the last job of a cleanup. The stages of its cleanup request went with
  -- the unit, so the request counts as finished and `delete_cleanup_request` finds no fault in it.
  unfoldable pub delete_allocation_unit : Bool → SandboxAllocationUnit → PoolAction Done
  unfolding save_size delete_unit
  delete_allocation_unit with_pool unit = do
    size ← gets (λ s. pos s.pool.size -ℤ pos 1)
    save_size size
    delete_unit unit
    raise_if (not (is_finished (create_request unit.id))) validation_error
    empty ← gets (λ s. s.pool.size == 0)
    when (empty && with_pool) delete_pool

-- `lock_pool`
unfoldable pub lock_pool : Option String → PoolAction PoolLock
lock_pool token s = elim s.pool.lock [
  | some _ ↦ (err validation_error, s)
  | none ↦
      let lock : PoolLock = record { training_access_token = token } in
      (ok lock, record s { pool = record s.pool { lock = some lock } })
]

-- `validate_max_size` and `update` of PoolSerializer, for the maximal size.
unfoldable pub update_max_size : ℤ → PoolAction Done
update_max_size max_size s =
    if ltb_ℤ max_size (pos 1)
    then (err validation_error, s)
    else (ok tt, record s { pool = record s.pool { max_size = max_size } })
