-- ===== src/Examples.antt =====
-- Concrete data for the runs in the modules below: services that answer, stages and units.
pub mod StageRuns
pub mod RequestRuns
pub mod PoolRuns
pub mod LockRuns
pub mod QueueRuns
pub mod NetbirdRuns
pub mod RunnerRuns
pub mod ProvisionRuns
pub mod DefinitionRuns
pub mod TokenRuns
pub mod InventoryRuns
pub mod UserRuns
pub mod NodeRuns
pub mod FileRuns
pub mod SshRuns
pub mod CreationRuns
pub mod OutputRuns
pub mod UuidRuns
pub mod LaunchRuns
pub mod RaceRuns
use backend_sandbox_service.Prelude.{ℕ, true, false, Option, none, some, List, [], ◌∷◌, String}
use backend_sandbox_service.Errors.{Exc, ok, err, stack_creation_failed}
use backend_sandbox_service.Models.{
  StageClass, stack_allocation, networking_allocation, user_allocation, stack_cleanup,
  networking_cleanup, user_cleanup, Stage, StageEntry, create_stage, SandboxRequest, Sandbox,
  SandboxLock, SandboxAllocationUnit,
}
use backend_sandbox_service.Groups.Notices.{working}
use backend_sandbox_service.StageHandler.{World, Handler}

-- Every service does what it is asked, and the processes of Terraform end well.
abbrev pub good_world : World
good_world = record {
  get_definition = ok tt;
  create_stack = ok (some 71);
  process_output = λ _. "applied" ∷ [];
  wait_for_process = λ _. ok ("", 0);
  delete_stack = ok (some 72);
  delete_terraform_workspace = ok tt;
  delete_stack_directory = ok tt;
  prepare_runner = ok tt;
  run_ansible_playbook = ok 81;
  get_container_outputs = ok tt;
  check_container_status = ok tt;
  delete_container = λ _. ok tt;
  delete_jump_ssh_key = ok tt;
  fetch_job = λ _. ok true;
  kill = λ _. ok tt;
  smtp = working;
}

-- The stack cannot be created, and the process that destroys it ends with an error code.
abbrev pub bad_world : World
bad_world = record good_world {
  create_stack = err stack_creation_failed;
  wait_for_process = λ _. ok ("quota exceeded", 1);
}

abbrev pub waiting : ℕ → StageClass → Stage
waiting id class = create_stage id class "" ""

abbrev pub over : Stage → Stage
over stage = record stage { start = some 3; end = some 4; finished = true }

abbrev pub broken : Stage → Stage
broken stage = record (over stage) { failed = true; error_message = some stack_creation_failed }

abbrev pub row_of : Stage → StageEntry
row_of stage = record {
  row = stage;
  rq_job = some 11;
  terraformstack = none;
  container = none;
  terraform_outputs = [];
}

abbrev pub handler : Stage → Handler
handler stage = record {
  stage = stage;
  entry = row_of stage;
  process = none;
  has_sandbox = true;
  has_group = false;
  group = record { group = none; mails = [] };
  clock = 9;
  calls = [];
}

abbrev pub request_with : Stage → Stage → Stage → SandboxRequest
request_with stack networking user = record {
  id = 5;
  stack = some (row_of stack);
  networking = some (row_of networking);
  user = some (row_of user);
}

-- A stack that is being built, with the later stages waiting.
abbrev pub started : Stage
started = record (waiting 1 stack_allocation) { start = some 3 }

abbrev pub running_request : SandboxRequest
running_request = request_with started (waiting 2 networking_allocation) (waiting 3 user_allocation)

-- The stack stands, and the later stages wait.
abbrev pub half_built : SandboxRequest
half_built =
    request_with (over (waiting 1 stack_allocation)) (waiting 2 networking_allocation)
      (waiting 3 user_allocation)

abbrev pub locked_sandbox : Sandbox
locked_sandbox = record { id = 40; ready = true; lock = some (record { created_by = some 2 }) }

abbrev pub unit_with : Option Sandbox → Option SandboxRequest → SandboxAllocationUnit
unit_with sandbox request = record {
  id = 5;
  created_by = some 1;
  sandbox = sandbox;
  allocation_request = request;
  cleanup_request = none;
}
