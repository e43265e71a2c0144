-- ===== src/StackStages.antt =====
-- StackStageHandler, AllocationStackStageHandler and CleanupStackStageHandler of
-- crczp/sandbox_instance_app/lib/stage_handlers.py.
pub mod Keeps
pub mod Failures
use backend_sandbox_service.Prelude.{
  ℕ, Bool, true, false, Option, none, some, List, [], ◌∷◌, ◌++◌, String, ◌==◌, not,
}
use backend_sandbox_service.Errors.{
  Done, crczp_exception, stack_creation_failed, stack_error, value_error, integrity_error, ok, err,
  pure, raise, lift, ◌>>=◌, ◌>>◌, when, catch, is_crczp, is_process_lookup,
}
use backend_sandbox_service.Models.{
  StageClass, stack_allocation, networking_allocation, user_allocation,
}
use backend_sandbox_service.StageHandler.{
  create_stack, delete_stack, delete_workspace, delete_directory, terminate, kill, World, Action,
  call, set_process,
}

-- The two tables of output lines.
pub data TerraformOutput : Type 0 where
  allocation_output cleanup_output : TerraformOutput

is_allocation : StageClass → Bool
is_allocation stack_allocation = true
is_allocation networking_allocation = true
is_allocation user_allocation = true
is_allocation _ = false

-- Whether a stage may stand in the table's foreign key: Django refuses a stage of the other kind.
unfoldable pub accepts : TerraformOutput → StageClass → Bool
unfolding is_allocation
accepts allocation_output class = is_allocation class
accepts cleanup_output stack_allocation = false
accepts cleanup_output networking_allocation = false
accepts cleanup_output user_allocation = false
accepts cleanup_output _ = true

-- `terraform_output.objects.create(**kwargs, content=line)`
create_output : TerraformOutput → String → Action Done
unfolding accepts
create_output table line s = elim (accepts table s.stage.class) [
  | true ↦ (
    ok tt,
    record s {
      entry = record s.entry { terraform_outputs = s.entry.terraform_outputs ++ line ∷ [] };
    },
  )
  | false ↦ (err value_error, s)
]

pub log_lines : TerraformOutput → List String → Action Done
unfolding create_output
log_lines table [] = pure tt
log_lines table (line ∷ lines) = create_output table line >> log_lines table lines

module _ (world : World) where
  log_process_output : ℕ → TerraformOutput → Action Done
  unfolding log_lines
  log_process_output process table = log_lines table (world.process_output process)

  wait_for_process : ℕ → TerraformOutput → Action Done
  unfolding create_output
  wait_for_process process table = do
    (stderr, return_code) ← lift (world.wait_for_process process)
    when (not (return_code == 0)) (create_output table stderr >> raise crczp_exception)

  -- The process is none where the stack directory could not be initialised.
  delete_process : Bool → Option ℕ → Action Done
  unfolding log_process_output wait_for_process
  delete_process log_output none = pure tt
  delete_process log_output (some process) = do
    when log_output (log_process_output process cleanup_output)
    wait_for_process process cleanup_output

  unfoldable pub delete_stack_of_unit : Bool → Action Done
  unfolding delete_process
  delete_stack_of_unit log_output = do
    catch is_crczp (call delete_stack world.delete_stack >>= delete_process log_output)
        (λ _. raise stack_error)
    catch is_crczp (call delete_workspace world.delete_terraform_workspace) (λ _. pure tt)
    call delete_directory world.delete_stack_directory

  -- `TerraformStack.objects.create(...)`: one for a stage.
  create_terraformstack : ℕ → Action Done
  create_terraformstack process s = elim s.entry.terraformstack [
    | some _ ↦ (err integrity_error, s)
    | none ↦ (ok tt, record s { entry = record s.entry { terraformstack = some process } })
  ]

  follow_process : Option ℕ → Action Done
  unfolding create_terraformstack log_process_output wait_for_process
  follow_process none = raise crczp_exception
  follow_process (some process) = do
    create_terraformstack process
    log_process_output process allocation_output
    wait_for_process process allocation_output

  terminate_process : Action Done
  terminate_process s = elim s.process [
    | none ↦ (ok tt, s)
    | some process ↦ call (terminate process) (ok tt) s
  ]

  give_up : Action Done
  unfolding terminate_process delete_stack_of_unit
  give_up = do terminate_process; delete_stack_of_unit false; raise stack_creation_failed

  keep_process : Option ℕ → Action Done
  unfolding follow_process
  keep_process process = do set_process process; follow_process process

  pub build_stack : Action Done
  unfolding keep_process
  build_stack = do process ← call create_stack world.create_stack; keep_process process

  -- `AllocationStackStageHandler._execute`
  unfoldable pub allocate_stack : Action Done
  unfolding build_stack give_up
  allocate_stack = do lift world.get_definition; catch is_crczp build_stack (λ _. give_up)

  -- `CleanupStackStageHandler._execute`
  unfoldable pub cleanup_stack : Action Done
  unfolding delete_stack_of_unit
  cleanup_stack = delete_stack_of_unit true

  kill_process : Option ℕ → Option ℕ → Action Done
  kill_process (some _) (some process) =
      catch is_process_lookup (call (kill process) (world.kill process)) (λ _. pure tt)
  kill_process _ _ = pure tt

  -- `AllocationStackStageHandler._cancel`
  unfoldable pub cancel_allocation : Action Done
  unfolding kill_process
  cancel_allocation s = kill_process s.stage.start s.entry.terraformstack s
