-- ===== src/Pools/Histories.antt =====
-- The states that a pool passes through: builds with any count, ends of cleanups, locks.
use backend_sandbox_service.Prelude.{
  ℕ, suc, ◌+◌, ◌-◌, ◌==◌, ◌≡◌, refl, Bool, false, not, Option, none, some, List, [], ◌∷◌, length,
  length-append, String, arith, is_some, ◌&&◌, ◌||◌, if◌then◌else◌,
}
use backend_sandbox_service.Prelude.Int.{ℤ, pos, negsuc, ◌+ℤ◌, ◌-ℤ◌, ◌≤ℤ◌}
use backend_sandbox_service.Errors.{is_ok}
use backend_sandbox_service.Models.{SandboxAllocationUnit}
use backend_sandbox_service.Pools.{
  PoolState, Cloud, create_sandboxes_in_pool, create_allocations_requests, new_units, rounds,
  save_size, build, count_or_rest, delete_allocation_unit, delete_unit, remove_unit, lock_pool,
}
use backend_sandbox_service.Pools.Capacity.{
  has_unit, rest_lem, length-new_units, length-remove_unit, delete_pool_frame,
}

module _ (cloud : Cloud) where
  pub data Steps : PoolState → PoolState → Type 0 where
    start : {s : PoolState} → Steps s s
    built :
        {s t : PoolState}
        → Steps s t
        → (count : Option ℤ) (created_by : Option ℕ)
        → Steps s (create_sandboxes_in_pool cloud created_by count t).1
    cleaned :
        {s t : PoolState}
        → Steps s t
        → (with_pool : Bool) (unit : SandboxAllocationUnit)
        → Steps s (delete_allocation_unit cloud with_pool unit t).1
    locked : {s t : PoolState} → Steps s t → (token : Option String) → Steps s (lock_pool token t).1

  -- By how much a build lowers the size without taking a unit: a negative count that succeeds.
  abbrev pub drift_of_build : Option ℤ → Option ℕ → PoolState → ℕ
  drift_of_build none created_by s = 0
  drift_of_build (some (pos n)) created_by s = 0
  drift_of_build (some (negsuc n)) created_by s =
      if is_ok (create_sandboxes_in_pool cloud created_by (some (negsuc n)) s).0 then suc n else 0

  -- The end of a cleanup that lowers the size and takes no unit: the unit's sandbox is still there,
  -- or the unit is not.
  abbrev pub drift_of_cleanup : SandboxAllocationUnit → PoolState → ℕ
  drift_of_cleanup unit s =
      if not (s.pool.size == 0) && (is_some unit.sandbox || not (has_unit unit.id s.units))
      then 1
      else 0

  abbrev pub drift : {s t : PoolState} → Steps s t → ℕ
  drift start = 0
  drift (built {t = t} steps count created_by) = drift steps + drift_of_build count created_by t
  drift (cleaned {t = t} steps with_pool unit) = drift steps + drift_of_cleanup unit t
  drift (locked steps token) = drift steps

-- The size falls short of the number of units by so much, and does not pass the maximal size.
pub record IsShort (short : ℕ) (s : PoolState) : Type 0 where
  pub counted : s.pool.size + short ≡ length s.units
  pub within : pos s.pool.size ≤ℤ s.pool.max_size

remove_unit-absent :
    (id : ℕ) (units : List SandboxAllocationUnit)
    → has_unit id units ≡ false
    → remove_unit id units ≡ units
unfolding remove_unit
remove_unit-absent id [] h = refl
remove_unit-absent id (unit ∷ units) h = ground (arith, remove_unit-absent id units)

module _ (cloud : Cloud) where
  pos-IsShort :
      (n short : ℕ) (created_by : Option ℕ) (s : PoolState)
      → IsShort short s
      → IsShort (short + 0) (create_sandboxes_in_pool cloud created_by (some (pos n)) s).1
  unfolding create_sandboxes_in_pool count_or_rest build create_allocations_requests save_size ◌+ℤ◌
      rounds
  pos-IsShort n short created_by s h = ground (
    arith,
    h,
    length-append s.units (new_units n s.next_id created_by),
    length-new_units n s.next_id created_by,
  )

  none-IsShort :
      (short : ℕ) (created_by : Option ℕ) (s : PoolState)
      → IsShort short s
      → IsShort (short + 0) (create_sandboxes_in_pool cloud created_by none s).1
  unfolding create_sandboxes_in_pool count_or_rest
  none-IsShort short created_by s h =
      let (n, e, full) = rest_lem cloud s.pool.size s.pool.max_size h.within in
      rw (e) (pos-IsShort n short created_by s h)

  negsuc-IsShort :
      (n short : ℕ) (created_by : Option ℕ) (s : PoolState)
      → IsShort short s
      → IsShort
          (short + drift_of_build cloud (some (negsuc n)) created_by s)
          (create_sandboxes_in_pool cloud created_by (some (negsuc n)) s).1
  unfolding create_sandboxes_in_pool count_or_rest build create_allocations_requests save_size ◌+ℤ◌
      rounds new_units
  negsuc-IsShort n short created_by s h = ground (
    arith,
    h,
    length-append s.units (new_units 0 s.next_id created_by),
    length-new_units 0 s.next_id created_by,
  )

  delete-IsShort :
      (with_pool : Bool) (unit : SandboxAllocationUnit) (short : ℕ) (s : PoolState)
      → IsShort short s
      → IsShort
          (short + drift_of_cleanup cloud unit s)
          (delete_allocation_unit cloud with_pool unit s).1
  unfolding delete_allocation_unit save_size delete_unit ◌-ℤ◌
  delete-IsShort with_pool unit short s h = ground (
    arith,
    h,
    length-remove_unit unit.id s.units,
    remove_unit-absent unit.id s.units,
    delete_pool_frame cloud (record s {
      pool = record s.pool { size = s.pool.size - 1 };
      units = remove_unit unit.id s.units;
    }),
  )

  lock_pool-IsShort :
      (token : Option String) (short : ℕ) (s : PoolState)
      → IsShort short s
      → IsShort short (lock_pool token s).1
  unfolding lock_pool
  lock_pool-IsShort token short s h = ground (arith, h)

  -- Whatever builds with any count, ends of cleanups and locks follow one another, failing ones
  -- included, a pool whose size was the number of its units and not above the maximal size keeps
  -- within the maximal size, and its size is the number of its units less the drift: the sum of the
  -- negative counts that were accepted, and one for each end of a cleanup that lowered the size
  -- while the unit had its sandbox, or was no unit of the pool.
  pub Steps-IsShort :
      {s t : PoolState} (steps : Steps cloud s t) → IsShort 0 s → IsShort (drift cloud steps) t
  Steps-IsShort start h = h
  Steps-IsShort (built steps none created_by) h =
      none-IsShort (drift cloud steps) created_by _ (Steps-IsShort steps h)
  Steps-IsShort (built steps (some (pos n)) created_by) h =
      pos-IsShort n (drift cloud steps) created_by _ (Steps-IsShort steps h)
  Steps-IsShort (built steps (some (negsuc n)) created_by) h =
      negsuc-IsShort n (drift cloud steps) created_by _ (Steps-IsShort steps h)
  Steps-IsShort (cleaned steps with_pool unit) h =
      delete-IsShort with_pool unit (drift cloud steps) _ (Steps-IsShort steps h)
  Steps-IsShort (locked steps token) h =
      lock_pool-IsShort token (drift cloud steps) _ (Steps-IsShort steps h)
