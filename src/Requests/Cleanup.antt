-- ===== src/Requests/Cleanup.antt =====
-- When a cleanup is accepted, and what it does to the unit.
use backend_sandbox_service.Prelude.{
  ℕ, ◌≡◌, Bool, false, Option, none, some, List, [], ◌∷◌, ◌++◌, arith, is_none, not, ◌&&◌,
  if◌then◌else◌, append_assoc, Option-cases, inl, inr,
}
use backend_sandbox_service.Errors.{is_ok}
use backend_sandbox_service.Models.{
  Sandbox, SandboxRequest, SandboxAllocationUnit, StageEntry, is_finished,
}
use backend_sandbox_service.Requests.{
  Event, clear_cache, destroy_netbird, enqueue_cleanup, UnitState, is_locked, first_stage_runs,
  create_cleanup_request,
}

-- The events of a cleanup that is accepted.
abbrev pub cleanup_events : Option Sandbox → ℕ → Bool → List Event
cleanup_events none id delete_pool = enqueue_cleanup id delete_pool ∷ []
cleanup_events (some sandbox) id delete_pool =
    clear_cache sandbox.id ∷ destroy_netbird sandbox.id ∷ enqueue_cleanup id delete_pool ∷ []

-- When a plain cleanup is accepted: the unit's sandbox, if it has one, is not locked, the first
-- stage exists and is not running, the allocation has finished, and no cleanup exists.
abbrev may_clean_request : Option StageEntry → SandboxRequest → Bool
may_clean_request none request = false
may_clean_request (some stack) request = not (first_stage_runs stack) && is_finished request

abbrev may_clean_allocation : Option SandboxRequest → Bool
may_clean_allocation none = false
may_clean_allocation (some request) = may_clean_request request.stack request

abbrev pub may_clean_up : SandboxAllocationUnit → Bool
may_clean_up unit =
    not (is_locked unit.sandbox)
    && (may_clean_allocation unit.allocation_request && is_none unit.cleanup_request)

-- The unit without its sandbox, and the events of the cleanup.
abbrev pub cleaned_up : Bool → UnitState → UnitState
cleaned_up delete_pool s = record s {
  unit = record s.unit { sandbox = none };
  events = s.events ++ cleanup_events s.unit.sandbox s.unit.id delete_pool;
}

pub append_three :
    (es : List Event) (a b c : Event) → ((es ++ a ∷ []) ++ b ∷ []) ++ c ∷ [] ≡ es ++ a ∷ b ∷ c ∷ []
append_three es a b c = simp append_assoc

-- A plain cleanup is accepted exactly where `may_clean_up` holds. Then the sandbox is gone, its
-- cache entry and NetBird resources were dealt with before the cleanup job was put in the queue,
-- and nothing else of the unit changed. Where it is refused, nothing has changed.
pub create_cleanup_request_lem :
    (s : UnitState)
    → let (r, t) = create_cleanup_request s in
      (is_ok r ≡ may_clean_up s.unit)
      × (t ≡ (if may_clean_up s.unit then cleaned_up false s else s))
unfolding create_cleanup_request
create_cleanup_request_lem s = elim (Option-cases s.unit.sandbox) [
  | inl absent ↦ ground arith
  | inr (x, e) ↦ ground (
    arith,
    append_three s.events (clear_cache x.id) (destroy_netbird x.id)
        (enqueue_cleanup s.unit.id false),
  )
]
