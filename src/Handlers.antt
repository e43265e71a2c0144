-- ===== src/Handlers.antt =====
-- RequestHandler.cancel_request of crczp/sandbox_instance_app/lib/request_handlers.py, for the two
-- orders in which `_get_stage_handlers` lists the stages.
pub mod Cancelling
pub mod JobFailures
use backend_sandbox_service.Prelude.{
  ℕ, Bool, true, false, Option, none, some, List, [], ◌∷◌, ◌++◌, any, is_none,
}
use backend_sandbox_service.Errors.{
  Done, does_not_exist, validation_error, Result, ok, err, Exec, pure, gets, raise_if, ◌>>=◌, ◌>>◌,
}
use backend_sandbox_service.Models.{StageEntry, SandboxRequest, is_finished}
use backend_sandbox_service.StageHandler.{Call, World, Handler}
use backend_sandbox_service.Stages.{cancel}

-- The one-to-one fields of a request that hold its stages.
pub data Slot : Type 0 where
  stack_slot networking_slot user_slot : Slot

unfoldable pub get_slot : Slot → SandboxRequest → Option StageEntry
get_slot stack_slot r = r.stack
get_slot networking_slot r = r.networking
get_slot user_slot r = r.user

unfoldable pub set_slot : Slot → Option StageEntry → SandboxRequest → SandboxRequest
set_slot stack_slot e r = record r { stack = e }
set_slot networking_slot e r = record r { networking = e }
set_slot user_slot e r = record r { user = e }

-- `AllocationRequestHandler._get_stage_handlers`: the last stage is cancelled first.
abbrev pub allocation_order : List Slot
allocation_order = user_slot ∷ networking_slot ∷ stack_slot ∷ []

-- `CleanupRequestHandler._get_stage_handlers`
abbrev pub cleanup_order : List Slot
cleanup_order = stack_slot ∷ networking_slot ∷ user_slot ∷ []

-- The request, the calls of services so far, and the clock.
pub record RequestState : Type 0 where
  pub request : SandboxRequest
  pub calls : List Call
  pub clock : ℕ

-- A handler made for a stage read from the database, without sandbox and group.
unfoldable pub handler_of : StageEntry → RequestState → Handler
handler_of entry s = record {
  stage = entry.row;
  entry = entry;
  process = none;
  has_sandbox = false;
  has_group = false;
  group = record { group = none; mails = [] };
  clock = s.clock;
  calls = s.calls;
}

module _ (world : World) where
  unfoldable pub cancel_entry : Slot → StageEntry → Exec RequestState Done
  unfolding handler_of set_slot
  cancel_entry slot entry s =
      let (r, t) = cancel world (handler_of entry s) in
      (
        r,
        record {
          request = set_slot slot (some t.entry) s.request;
          calls = t.calls;
          clock = t.clock;
        },
      )

  cancel_slot : Slot → Exec RequestState Done
  unfolding cancel_entry get_slot
  cancel_slot slot s = elim (get_slot slot s.request) [
    | none ↦ (err does_not_exist, s)
    | some entry ↦ cancel_entry slot entry s
  ]

  cancel_slots : List Slot → Exec RequestState Done
  unfolding cancel_slot
  cancel_slots [] = pure tt
  cancel_slots (slot ∷ slots) = cancel_slot slot >> cancel_slots slots

  -- The handlers of all stages are made before the first is cancelled.
  unfoldable pub cancel_request : List Slot → Exec RequestState Done
  unfolding cancel_slots get_slot
  cancel_request order = do
    finished ← gets (λ s. is_finished s.request)
    raise_if finished validation_error
    missing ← gets (λ s. any (λ slot. is_none (get_slot slot s.request)) order)
    raise_if missing does_not_exist
    cancel_slots order
