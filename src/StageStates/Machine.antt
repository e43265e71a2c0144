-- ===== src/StageStates/Machine.antt =====
-- The life of a stage, as the reported states show it, against a machine of four states.
use backend_sandbox_service.Prelude.{
  ◌≡◌, refl, Bool, true, false, not, List, [], ◌∷◌, is_none, is_some, ◌||◌, arith, Bool-cases, inl,
  inr,
}
use backend_sandbox_service.Errors.{is_ok}
use backend_sandbox_service.StageHandler.{World, Handler}
use backend_sandbox_service.Stages.{execute, cancel}
use backend_sandbox_service.Stages.Execute.{execute-IsRecorded}
use backend_sandbox_service.Stages.Cancel.{cancel-IsCancelled}
use backend_sandbox_service.StageStates.{
  StageState, in_queue, running, finished, failed, stage_state,
}

-- What is done with a stage, by workers that find the services in any state.
pub data StageOperation : Type 0 where
  run_it cancel_it : World → StageOperation

unfoldable pub perform : StageOperation → Handler → Handler
perform (run_it world) s = (execute world s).1
perform (cancel_it world) s = (cancel world s).1

-- What the machine sees of an operation: a run that returned or raised, or a cancellation.
pub data StageEvent : Type 0 where
  ran : (returned : Bool) → StageEvent
  cancelled : StageEvent

unfoldable pub event_of : StageOperation → Handler → StageEvent
event_of (run_it world) s = ran (is_ok (execute world s).0)
event_of (cancel_it world) s = cancelled

-- The machine: a failure stays, a finished stage cannot be cancelled, and what waits or runs ends.
unfoldable pub next : StageEvent → StageState → StageState
next (ran false) state = failed
next (ran true) failed = failed
next (ran true) in_queue = finished
next (ran true) running = finished
next (ran true) finished = finished
next cancelled in_queue = failed
next cancelled running = failed
next cancelled finished = finished
next cancelled failed = failed

unfoldable pub perform_all : List StageOperation → Handler → Handler
unfolding perform
perform_all [] s = s
perform_all (operation ∷ operations) s = perform_all operations (perform operation s)

unfoldable pub replay : List StageOperation → Handler → StageState → StageState
unfolding next event_of perform
replay [] s state = state
replay (operation ∷ operations) s state =
    replay operations (perform operation s) (next (event_of operation s) state)

-- A stage that no worker runs: it waits, or it has ended, and its row is as it is in memory.
pub record IsSettled (s : Handler) : Type 0 where
  pub saved : s.entry.row ≡ s.stage
  pub ended : is_some s.stage.end ≡ s.stage.finished
  pub failed : (s.stage.finished || not s.stage.failed) ≡ true
  pub started : (s.stage.finished || is_none s.stage.start) ≡ true

perform-IsSettled :
    (operation : StageOperation) (s : Handler) → IsSettled s → IsSettled (perform operation s)
unfolding perform
perform-IsSettled (run_it world) s h = ground (arith, execute-IsRecorded world s)
perform-IsSettled (cancel_it world) s h = elim (Bool-cases s.stage.finished) [
  | inl done ↦ unfold cancel in ground (arith, done)
  | inr undone ↦ ground (arith, cancel-IsCancelled world s undone)
]

perform-next :
    (operation : StageOperation) (s : Handler)
    → IsSettled s
    → stage_state (perform operation s).entry.row
      ≡ next (event_of operation s) (stage_state s.entry.row)
unfolding perform event_of stage_state next
perform-next (run_it world) s h = ground (arith, execute-IsRecorded world s)
perform-next (cancel_it world) s h = elim (Bool-cases s.stage.finished) [
  | inl done ↦ unfold cancel in ground (arith, done)
  | inr undone ↦ ground (arith, undone, cancel-IsCancelled world s undone)
]

-- Whatever runs and cancellations are made of a settled stage, one after the other, and however the
-- services answer, the stage is settled in the end, and the state that is reported for it is the one
-- that the machine reaches.
pub perform_all-replay :
    (operations : List StageOperation) (s : Handler)
    → IsSettled s
    → IsSettled (perform_all operations s)
      × (stage_state (perform_all operations s).entry.row
          ≡ replay operations s (stage_state s.entry.row))
unfolding perform_all replay
perform_all-replay [] s h = (h, refl)
perform_all-replay (operation ∷ operations) s h =
    let (settled, same) =
      perform_all-replay operations (perform operation s) (perform-IsSettled operation s h) in
    (settled, ground (arith, same, perform-next operation s h))
