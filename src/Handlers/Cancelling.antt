-- ===== src/Handlers/Cancelling.antt =====
-- What cancelling a request does to its stages.
use backend_sandbox_service.Prelude.{
  ℕ, ◌≡◌, refl, true, Option, none, some, arith, if◌then◌else◌, is_some, Bool-cases, inl, inr,
}
use backend_sandbox_service.Errors.{ok}
use backend_sandbox_service.Models.{StageEntry, Stage, SandboxRequest, is_finished}
use backend_sandbox_service.StageHandler.{World}
use backend_sandbox_service.Stages.{cancel}
use backend_sandbox_service.Stages.Cancel.{cancel-IsCancelled}
use backend_sandbox_service.Handlers.{
  Slot, stack_slot, networking_slot, user_slot, allocation_order, cleanup_order, RequestState,
  handler_of, cancel_entry, cancel_slots, cancel_request,
}

-- A stage after a cancellation that did not raise: one that had finished is as it was, and any
-- other is now finished and failed.
pub record IsSettled (before after : Stage) : Type 0 where
  pub finished : after.finished ≡ true
  pub failed : after.failed ≡ (if before.finished then before.failed else true)
  pub ended : is_some after.end ≡ (if before.finished then is_some before.end else true)
  pub message : after.error_message ≡ before.error_message
  pub same : after.id ≡ before.id

module _ (world : World) where
  -- What one cancellation makes of a stage's row, and what it returns.
  abbrev cancelled : StageEntry → RequestState → StageEntry
  cancelled entry s = (cancel world (handler_of entry s)).1.entry

  cancelled-IsSettled :
      (entry : StageEntry) (s : RequestState)
      → (cancel world (handler_of entry s)).0 ≡ ok tt
      → IsSettled entry.row (cancelled entry s).row
  unfolding handler_of
  cancelled-IsSettled entry s h = elim (Bool-cases entry.row.finished) [
    | inl done ↦ unfold cancel in ground arith
    | inr open_stage ↦ ground (arith, cancel-IsCancelled world (handler_of entry s) open_stage)
  ]

-- The same of the stage in a slot, which is neither made nor deleted.
abbrev pub SettledSlot : Option StageEntry → Option StageEntry → Type 0
SettledSlot (some before) (some after) = IsSettled before.row after.row
SettledSlot none none = Unit
SettledSlot _ _ = ⊥

pub record IsSettledRequest (before after : SandboxRequest) : Type 0 where
  pub stack : SettledSlot before.stack after.stack
  pub networking : SettledSlot before.networking after.networking
  pub user : SettledSlot before.user after.user

abbrev request_of : ℕ → StageEntry → StageEntry → StageEntry → SandboxRequest
request_of id a b c = record { id = id; stack = some a; networking = some b; user = some c }

module _ (world : World) where
  abbrev state_after : Slot → StageEntry → RequestState → RequestState
  state_after slot entry s = (cancel_entry world slot entry s).1

  cancel_allocation_slots :
      (id : ℕ) (a b c : StageEntry) (s : RequestState)
      → s.request ≡ request_of id a b c
      → (cancel_slots world allocation_order s).0 ≡ ok tt
      → IsSettledRequest s.request (cancel_slots world allocation_order s).1.request
  unfolding cancel_slots cancel_entry
  cancel_allocation_slots id a b c s e h =
      let s1 = state_after user_slot c s in
      let s2 = state_after networking_slot b s1 in
      ground (
        arith,
        cancelled-IsSettled world c s,
        cancelled-IsSettled world b s1,
        cancelled-IsSettled world a s2,
      )

  cancel_cleanup_slots :
      (id : ℕ) (a b c : StageEntry) (s : RequestState)
      → s.request ≡ request_of id a b c
      → (cancel_slots world cleanup_order s).0 ≡ ok tt
      → IsSettledRequest s.request (cancel_slots world cleanup_order s).1.request
  unfolding cancel_slots cancel_entry
  cancel_cleanup_slots id a b c s e h =
      let s1 = state_after stack_slot a s in
      let s2 = state_after networking_slot b s1 in
      ground (
        arith,
        cancelled-IsSettled world a s,
        cancelled-IsSettled world b s1,
        cancelled-IsSettled world c s2,
      )

  cancel_allocation_cases :
      (id : ℕ) (a b c : Option StageEntry) (s : RequestState)
      → s.request ≡ record { id = id; stack = a; networking = b; user = c }
      → (cancel_request world allocation_order s).0 ≡ ok tt
      → IsSettledRequest s.request (cancel_request world allocation_order s).1.request
  unfolding cancel_request
  cancel_allocation_cases id (some a) (some b) (some c) s e h =
      ground (arith, cancel_allocation_slots id a b c s)
  cancel_allocation_cases id a b c s e h = absurd (ground arith)

  cancel_cleanup_cases :
      (id : ℕ) (a b c : Option StageEntry) (s : RequestState)
      → s.request ≡ record { id = id; stack = a; networking = b; user = c }
      → (cancel_request world cleanup_order s).0 ≡ ok tt
      → IsSettledRequest s.request (cancel_request world cleanup_order s).1.request
  unfolding cancel_request
  cancel_cleanup_cases id (some a) (some b) (some c) s e h =
      ground (arith, cancel_cleanup_slots id a b c s)
  cancel_cleanup_cases id a b c s e h = absurd (ground arith)

IsSettledRequest-finished :
    (before after : SandboxRequest) → IsSettledRequest before after → is_finished after ≡ true
unfolding is_finished
IsSettledRequest-finished before after h = ground arith

module _ (world : World) where
  -- If cancelling an allocation request returns, the stages that had finished are as they were,
  -- the others are finished, failed and ended, and the request has finished.
  pub cancel_request-allocation :
      (s : RequestState)
      → (cancel_request world allocation_order s).0 ≡ ok tt
      → let t = (cancel_request world allocation_order s).1 in
        IsSettledRequest s.request t.request × (is_finished t.request ≡ true)
  cancel_request-allocation s h =
      let settled =
        cancel_allocation_cases world s.request.id s.request.stack s.request.networking
          s.request.user s refl h in
      (settled, IsSettledRequest-finished s.request _ settled)

  -- If cancelling a cleanup request returns, the stages that had finished are as they were, the
  -- others are finished, failed and ended, and the request has finished.
  pub cancel_request-cleanup :
      (s : RequestState)
      → (cancel_request world cleanup_order s).0 ≡ ok tt
      → let t = (cancel_request world cleanup_order s).1 in
        IsSettledRequest s.request t.request × (is_finished t.request ≡ true)
  cancel_request-cleanup s h =
      let settled =
        cancel_cleanup_cases world s.request.id s.request.stack s.request.networking s.request.user
          s refl h in
      (settled, IsSettledRequest-finished s.request _ settled)
