-- ===== src/Pools/Capacity.antt =====
-- The number of units of a pool against its size and its maximal size.
use backend_sandbox_service.Prelude.{
  ℕ, zero, suc, ◌+◌, ◌-◌, ◌≡◌, refl, sym, Bool, true, Option, none, some, List, [], ◌∷◌, ◌++◌,
  arith, length, any, ap, ◌∙◌, ◌==◌, not, ◌&&◌,
}
use backend_sandbox_service.Prelude.Int.{ℤ, pos, negsuc, ◌+ℤ◌, ◌-ℤ◌, ◌≤ℤ◌, ltb_ℤ}
use backend_sandbox_service.Errors.{ok, is_ok}
use backend_sandbox_service.Models.{SandboxAllocationUnit}
use backend_sandbox_service.Pools.{
  PoolState, Cloud, new_units, rounds, create_allocations_requests, save_size,
  validate_hardware_usage, build, atomic, count_or_rest, create_sandboxes_in_pool, remove_unit,
  delete_pool, delete_row, emit,
}

pub length-new_units : (n id : ℕ) (created_by : Option ℕ) → length (new_units n id created_by) ≡ n
unfolding new_units
length-new_units zero id created_by = refl
length-new_units (suc n) id created_by = omega (arith, length-new_units n (suc id) created_by)

-- The size is the number of units, and does not pass the maximal size.
pub record IsSound (s : PoolState) : Type 0 where
  pub counted : s.pool.size ≡ length s.units
  pub within : pos s.pool.size ≤ℤ s.pool.max_size

module _ (cloud : Cloud) where
  -- Building exactly as many sandboxes as fit is possible: for a count that is not negative, the
  -- call succeeds just where the pool has room for that many more and the hardware check passes.
  pub is_ok-create_sandboxes_in_pool :
      (n : ℕ) (created_by : Option ℕ) (s : PoolState)
      → is_ok (create_sandboxes_in_pool cloud created_by (some (pos n)) s).0 ≡ (
          not (ltb_ℤ s.pool.max_size (pos (s.pool.size + n)))
          && is_ok (validate_hardware_usage cloud (pos n)))
  unfolding create_sandboxes_in_pool build create_allocations_requests save_size count_or_rest ◌+ℤ◌
      rounds
  is_ok-create_sandboxes_in_pool n created_by s = ground arith

  pub rest_lem :
      (size : ℕ) (max_size : ℤ)
      → pos size ≤ℤ max_size
      → (n : ℕ) × (max_size -ℤ pos size ≡ pos n) × (pos (size + n) ≡ max_size)
  unfolding ◌-ℤ◌
  rest_lem size (pos max) h = (max - size, ground arith, ground arith)
  rest_lem size (negsuc max) h = ground arith

  -- On a sound pool, a call without a count is the call for a number that fills the pool.
  none_as_some :
      (created_by : Option ℕ) (s : PoolState)
      → IsSound s
      → (n : ℕ) × (create_sandboxes_in_pool cloud created_by none s
          ≡ create_sandboxes_in_pool cloud created_by (some (pos n)) s)
        × (pos (s.pool.size + n) ≡ s.pool.max_size)
  unfolding create_sandboxes_in_pool count_or_rest
  none_as_some created_by s h =
      let (n, e, full) = rest_lem s.pool.size s.pool.max_size h.within in
      (n, ap (λ k. atomic (build cloud k created_by) s) e, full)

  built_exact :
      (n : ℕ) (created_by : Option ℕ) (s : PoolState) (units : List SandboxAllocationUnit)
      → (create_sandboxes_in_pool cloud created_by (some (pos n)) s).0 ≡ ok units
      → ((create_sandboxes_in_pool cloud created_by (some (pos n)) s).1.units ≡ s.units ++ units)
        × (length units ≡ n)
        × ((create_sandboxes_in_pool cloud created_by (some (pos n)) s).1.pool.size
            ≡ s.pool.size + n)
  unfolding create_sandboxes_in_pool build create_allocations_requests save_size ◌+ℤ◌ rounds
      count_or_rest
  built_exact n created_by s units e = ground (arith, length-new_units n s.next_id created_by)

  -- Where a call without a count succeeds on a sound pool, it appends the units that it returns and
  -- fills the pool: the size becomes the maximal size.
  pub create_sandboxes_in_pool-none :
      (created_by : Option ℕ) (s : PoolState) (units : List SandboxAllocationUnit)
      → IsSound s
      → (create_sandboxes_in_pool cloud created_by none s).0 ≡ ok units
      → ((create_sandboxes_in_pool cloud created_by none s).1.units ≡ s.units ++ units)
        × (pos (s.pool.size + length units) ≡ s.pool.max_size)
        × (pos (create_sandboxes_in_pool cloud created_by none s).1.pool.size ≡ s.pool.max_size)
  create_sandboxes_in_pool-none created_by s units h e =
      let (n, q, full) = none_as_some created_by s h in
      let (appended, many, size) = built_exact n created_by s units (sym (ap (λ x. x.0) q) ∙ e) in
      (
        ap (λ x. x.1.units) q ∙ appended,
        ap (λ k. pos (s.pool.size + k)) many ∙ full,
        ap (λ x. pos x.1.pool.size) q ∙ ap pos size ∙ full,
      )

-- A unit of the pool, known by its number.
abbrev pub has_unit : ℕ → List SandboxAllocationUnit → Bool
has_unit id units = any (λ unit. unit.id == id) units

pub length-remove_unit :
    (id : ℕ) (units : List SandboxAllocationUnit)
    → has_unit id units ≡ true
    → suc (length (remove_unit id units)) ≡ length units
unfolding remove_unit
length-remove_unit id [] h = ground arith
length-remove_unit id (unit ∷ units) h = ground (arith, length-remove_unit id units)

module _ (cloud : Cloud) where
  pub delete_pool_frame :
      (s : PoolState)
      → ((delete_pool cloud s).1.pool ≡ s.pool) × ((delete_pool cloud s).1.units ≡ s.units)
  unfolding delete_pool delete_row emit
  delete_pool_frame s = ground arith
