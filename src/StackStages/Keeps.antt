-- ===== src/StackStages/Keeps.antt =====
-- The stack handlers' bodies leave the stage object alone.
use backend_sandbox_service.Prelude.{
  Option, none, some, List, [], ◌∷◌, arith, String, ℕ, Bool, true,
}
use backend_sandbox_service.StageHandler.{World}
use backend_sandbox_service.StageHandler.Keeps.{KeepsStage, Keeps-bind, keeps_rules}
use backend_sandbox_service.StackStages.{
  TerraformOutput, create_output, log_lines, log_process_output, wait_for_process, delete_process,
  delete_stack_of_unit, create_terraformstack, follow_process, terminate_process, give_up,
  keep_process, build_stack, allocate_stack, cleanup_stack, kill_process, cancel_allocation,
}

Keeps-create_output :
    (table : TerraformOutput) (line : String) → KeepsStage (create_output table line)
unfolding create_output
Keeps-create_output table line = record { at = λ s. ground arith }

Keeps-log_lines :
    (table : TerraformOutput) (lines : List String) → KeepsStage (log_lines table lines)
unfolding log_lines
Keeps-log_lines table [] = search keeps_rules
Keeps-log_lines table (line ∷ lines) =
    Keeps-bind (create_output table line) (λ _. log_lines table lines)
      (Keeps-create_output table line) (λ _. Keeps-log_lines table lines)

module _ (world : World) where
  Keeps-wait_for_process :
      (p : ℕ) (table : TerraformOutput) → KeepsStage (wait_for_process world p table)
  unfolding wait_for_process
  Keeps-wait_for_process p table = search (keeps_rules, Keeps-create_output)

  Keeps-delete_process : (b : Bool) (p : Option ℕ) → KeepsStage (delete_process world b p)
  unfolding delete_process log_process_output
  Keeps-delete_process b none = search keeps_rules
  Keeps-delete_process b (some p) = search (keeps_rules, Keeps-log_lines, Keeps-wait_for_process)

  pub Keeps-delete_stack_of_unit : (b : Bool) → KeepsStage (delete_stack_of_unit world b)
  unfolding delete_stack_of_unit
  Keeps-delete_stack_of_unit b = search (keeps_rules, Keeps-delete_process) depth 8

  Keeps-create_terraformstack : (p : ℕ) → KeepsStage (create_terraformstack world p)
  unfolding create_terraformstack
  Keeps-create_terraformstack p = record { at = λ s. ground arith }

  Keeps-follow_process : (p : Option ℕ) → KeepsStage (follow_process world p)
  unfolding follow_process log_process_output
  Keeps-follow_process none = search keeps_rules
  Keeps-follow_process (some p) =
      search (keeps_rules, Keeps-create_terraformstack, Keeps-log_lines, Keeps-wait_for_process)

  Keeps-terminate_process : KeepsStage (terminate_process world)
  unfolding terminate_process
  Keeps-terminate_process = record { at = λ s. ground arith }

  Keeps-give_up : KeepsStage (give_up world)
  unfolding give_up
  Keeps-give_up = search (keeps_rules, Keeps-terminate_process, Keeps-delete_stack_of_unit)

  Keeps-keep_process : (p : Option ℕ) → KeepsStage (keep_process world p)
  unfolding keep_process
  Keeps-keep_process p = record { at = λ s. (Keeps-follow_process p).at (record s { process = p }) }

  pub Keeps-build_stack : KeepsStage (build_stack world)
  unfolding build_stack
  Keeps-build_stack = search (keeps_rules, Keeps-keep_process)

  pub Keeps-allocate_stack : KeepsStage (allocate_stack world)
  unfolding allocate_stack
  Keeps-allocate_stack = search (keeps_rules, Keeps-build_stack, Keeps-give_up)

  pub Keeps-cleanup_stack : KeepsStage (cleanup_stack world)
  unfolding cleanup_stack
  Keeps-cleanup_stack = Keeps-delete_stack_of_unit true

  pub Keeps-cancel_allocation : KeepsStage (cancel_allocation world)
  unfolding cancel_allocation kill_process
  Keeps-cancel_allocation = record { at = λ s. ground arith }
