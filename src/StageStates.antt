-- ===== src/StageStates.antt =====
-- StageState and the functions that report it, of crczp/sandbox_instance_app/lib/requests.py.
pub mod Progress
pub mod Machine
use backend_sandbox_service.Prelude.{
  Bool, true, false, Option, none, some, List, [], ◌∷◌, map, is_none, is_some, if◌then◌else◌, ◌&&◌,
}
use backend_sandbox_service.Models.{StageEntry, Stage, SandboxRequest}

pub data StageState : Type 0 where
  in_queue running finished failed : StageState

unfoldable pub stage_state : Stage → StageState
stage_state stage =
    if is_none stage.end && is_some stage.start
    then running
    else if stage.failed
    then failed
    else if stage.finished
    then finished
    else in_queue

-- `_get_request_stages_state`
request_stages_state : List StageEntry → List StageState
request_stages_state = map (λ entry. stage_state entry.row)

abbrev three_stages :
    Option StageEntry → Option StageEntry → Option StageEntry → Option (List StageEntry)
three_stages (some a) (some b) (some c) = some (a ∷ b ∷ c ∷ [])
three_stages _ _ _ = none

-- `get_allocation_request_stages_state` and `get_cleanup_request_stages_state`: where a stage is
-- missing, all three are reported as waiting.
unfoldable pub get_stages_state : SandboxRequest → List StageState
unfolding request_stages_state
get_stages_state request = elim (three_stages request.stack request.networking request.user) [
  | none ↦ in_queue ∷ in_queue ∷ in_queue ∷ []
  | some entries ↦ request_stages_state entries
]
