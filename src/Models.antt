-- ===== src/Models.antt =====
-- The rows of crczp/sandbox_instance_app/models.py and crczp/sandbox_ansible_app/models.py. A
-- related object of a one-to-one field is an `Option` in its owner (`hasattr` asks for it); the
-- requests and stages of a unit are reached through the unit.
use backend_sandbox_service.Prelude.{
  ℕ, Bool, false, Option, none, some, List, [], ◌∷◌, String, count, not, ◌==◌,
}
use backend_sandbox_service.Prelude.Int.{ℤ}
use backend_sandbox_service.Errors.{Exc}

-- The concrete subclasses of `AllocationStage` and `CleanupStage`.
pub data StageClass : Type 0 where
  stack_allocation networking_allocation user_allocation : StageClass
  stack_cleanup networking_cleanup user_cleanup : StageClass

-- Timestamps are readings of a clock; an error message is the exception whose text it is.
pub record Stage : Type 0 where
  pub id : ℕ
  pub class : StageClass
  pub start : Option ℕ
  pub end : Option ℕ
  pub failed : Bool
  pub error_message : Option Exc
  pub finished : Bool
  pub repo_url : String
  pub rev : String

-- `stage_class.objects.create(...)`
unfoldable pub create_stage : ℕ → StageClass → String → String → Stage
create_stage id class repo_url rev = record {
  id = id;
  class = class;
  start = none;
  end = none;
  failed = false;
  error_message = none;
  finished = false;
  repo_url = repo_url;
  rev = rev;
}

-- A stage's row with the objects that point to it: the RQ job, the Terraform process, the
-- container, and the lines of output.
pub record StageEntry : Type 0 where
  pub row : Stage
  pub open row use *
  pub rq_job : Option ℕ
  pub terraformstack : Option ℕ
  pub container : Option ℕ
  pub terraform_outputs : List String

unfoldable pub stage_entry : Stage → StageEntry
stage_entry stage = record {
  row = stage;
  rq_job = none;
  terraformstack = none;
  container = none;
  terraform_outputs = [];
}

-- The stages of an allocation request (`stackallocationstage`, `networkingansibleallocationstage`
-- and `useransibleallocationstage`) or those of a cleanup request.
pub record SandboxRequest : Type 0 where
  pub id : ℕ
  pub stack : Option StageEntry
  pub networking : Option StageEntry
  pub user : Option StageEntry

abbrev pub AllocationRequest : Type 0
AllocationRequest = SandboxRequest

abbrev pub CleanupRequest : Type 0
CleanupRequest = SandboxRequest

-- A request without stages, as it is created.
abbrev pub create_request : ℕ → SandboxRequest
create_request id = record { id = id; stack = none; networking = none; user = none }

abbrev present : Option StageEntry → List StageEntry → List StageEntry
present none rest = rest
present (some stage) rest = stage ∷ rest

-- `request.stages`
unfoldable pub stages : SandboxRequest → List StageEntry
stages r = present r.stack (present r.networking (present r.user []))

-- `is_finished`: no stage is unfinished, which holds where there is none.
unfoldable pub is_finished : SandboxRequest → Bool
unfolding stages
is_finished r = count (λ stage. not stage.finished) (stages r) == 0

-- `stages.filter(failed=True).count()`, read as a truth value.
unfoldable pub has_failed : SandboxRequest → Bool
unfolding stages
has_failed r = not (count (λ stage. stage.failed) (stages r) == 0)

-- A user is known by number; a lock without one was created anonymously.
pub record SandboxLock : Type 0 where
  pub created_by : Option ℕ

-- The primary key, a UUID, is its 128-bit number: texts of UUIDs are ordered as these are.
pub record Sandbox : Type 0 where
  pub id : ℕ
  pub ready : Bool
  pub lock : Option SandboxLock

pub record SandboxAllocationUnit : Type 0 where
  pub id : ℕ
  pub created_by : Option ℕ
  pub sandbox : Option Sandbox
  pub allocation_request : Option AllocationRequest
  pub cleanup_request : Option CleanupRequest

pub record PoolLock : Type 0 where
  pub training_access_token : Option String

-- `max_size` is an IntegerField, so it may be negative; `size` is a PositiveIntegerField.
pub record Pool : Type 0 where
  pub id : ℕ
  pub max_size : ℤ
  pub size : ℕ
  pub send_emails : Bool
  pub rev : String
  pub rev_sha : String
  pub definition_url : String
  pub lock : Option PoolLock
