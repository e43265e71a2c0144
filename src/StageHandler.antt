-- ===== src/StageHandler.antt =====
-- What the handlers of crczp/sandbox_instance_app/lib/stage_handlers.py work on: the stage object
-- in memory beside its row, the services they call, and the record of those calls.
pub mod Keeps
use backend_sandbox_service.Prelude.{ℕ, suc, Bool, true, Option, some, List, [], ◌∷◌, ◌++◌, String}
use backend_sandbox_service.Errors.{Done, Result, Exec, modify}
use backend_sandbox_service.Models.{Stage, StageEntry}
use backend_sandbox_service.Groups.{Smtp, GroupState}

pub data Call : Type 0 where
  create_stack delete_stack delete_workspace delete_directory delete_jump_key : Call
  terminate kill : (process_id : ℕ) → Call
  run_playbook : Call
  delete_container : (name : ℕ) → Call
  delete_job : (job_id : ℕ) → Call

-- The answers of Terraform, the container runner, the jump host, the queue, the operating system
-- and the mail server to one run of a handler.
pub record World : Type 0 where
  pub get_definition : Result Done
  -- the process id, or no process
  pub create_stack : Result (Option ℕ)
  pub process_output : ℕ → List String
  -- standard error and the return code
  pub wait_for_process : ℕ → Result (String × ℕ)
  pub delete_stack : Result (Option ℕ)
  pub delete_terraform_workspace : Result Done
  pub delete_stack_directory : Result Done
  pub prepare_runner : Result Done
  -- the name of the container
  pub run_ansible_playbook : Result ℕ
  pub get_container_outputs : Result Done
  pub check_container_status : Result Done
  pub delete_container : ℕ → Result Done
  pub delete_jump_ssh_key : Result Done
  -- whether the job was still in the queue
  pub fetch_job : ℕ → Result Bool
  pub kill : ℕ → Result Done
  pub smtp : Smtp

-- `stage` is the object in memory, `entry` the stage's row with what points to it.
pub record Handler : Type 0 where
  pub stage : Stage
  pub entry : StageEntry
  pub process : Option ℕ
  pub has_sandbox : Bool
  pub has_group : Bool
  pub group : GroupState
  pub clock : ℕ
  pub calls : List Call

abbrev pub Action : Type 0 → Type 0
Action A = Exec Handler A

-- `self.stage.save()`: the fields of the object replace those of the row.
unfoldable pub save : Handler → Handler
save s = record s { entry = record s.entry { row = s.stage } }

-- `self.stage.start = timezone.now(); self.stage.save()`
unfoldable pub mark_started : Handler → Handler
unfolding save
mark_started s =
    save (record s { stage = record s.stage { start = some s.clock }; clock = suc s.clock })

-- `self.stage.end = timezone.now(); self.stage.finished = True; self.stage.save()`
unfoldable pub mark_ended : Handler → Handler
unfolding save
mark_ended s = save (record s {
  stage = record s.stage { end = some s.clock; finished = true };
  clock = suc s.clock;
})

abbrev pub call : {A : Type 0} → Call → Result A → Action A
call c r s = (r, record s { calls = s.calls ++ c ∷ [] })

abbrev pub set_process : Option ℕ → Action Done
set_process p = modify (λ s. record s { process = p })

-- A row that points to the stage.
abbrev pub modify_entry : (StageEntry → StageEntry) → Action Done
modify_entry f = modify (λ s. record s { entry = f s.entry })

-- An operation of the group's own row.
abbrev pub on_group : Exec GroupState Done → Action Done
on_group m s = let (r, g) = m s.group in (r, record s { group = g })
