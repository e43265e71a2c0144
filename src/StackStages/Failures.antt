-- ===== src/StackStages/Failures.antt =====
-- How a failed build of a stack ends.
use backend_sandbox_service.Prelude.{ℕ, suc, ◌≡◌, true, false, some, String, arith, if◌then◌else◌}
use backend_sandbox_service.Errors.{Exc, value_error, stack_error, ok, err, is_crczp}
use backend_sandbox_service.Models.{stack_allocation}
use backend_sandbox_service.StageHandler.{World, Handler}
use backend_sandbox_service.StackStages.{
  is_allocation, delete_stack_of_unit, terminate_process, build_stack, allocate_stack,
}
use backend_sandbox_service.StackStages.Keeps.{Keeps-build_stack}

module _ (world : World) where
  -- Deleting a stack where Terraform's destroy process ends with an error code.
  delete_failed :
      (s : Handler) (p code : ℕ) (stderr : String)
      → world.delete_stack ≡ ok (some p)
      → world.wait_for_process p ≡ ok (stderr, suc code)
      → (delete_stack_of_unit world false s).0
        ≡ err (if is_allocation s.stage.class then value_error else stack_error)
  unfolding delete_stack_of_unit is_allocation
  delete_failed s p code stderr hd hw = ground arith

  terminate-stage : (s : Handler) → (terminate_process world s).1.stage ≡ s.stage
  unfolding terminate_process
  terminate-stage s = ground arith

  -- A build that fails with a cloud error, after which the destroy process ends with an error code
  -- too, does not report the failed deletion as a stack error: storing the process's error output
  -- for an allocation stage in the table of cleanup outputs raises a value error of its own.
  pub allocate_stack-value_error :
      (s : Handler) (e : Exc) (p code : ℕ) (stderr : String)
      → s.stage.class ≡ stack_allocation
      → world.get_definition ≡ ok tt
      → (build_stack world s).0 ≡ err e
      → is_crczp e ≡ true
      → world.delete_stack ≡ ok (some p)
      → world.wait_for_process p ≡ ok (stderr, suc code)
      → (allocate_stack world s).0 ≡ err value_error
  unfolding allocate_stack is_allocation
  allocate_stack-value_error s e p code stderr hc hg hb he hd hw =
      let b = (build_stack world s).1 in
      let t = (terminate_process world b).1 in
      ground (
        arith,
        delete_failed t p code stderr hd hw,
        terminate-stage b,
        (Keeps-build_stack world).at s,
      )
