-- ===== src/Examples/RaceRuns.antt =====
-- An Ansible stage that is cancelled while its run prepares the container.
use backend_sandbox_service.Prelude.{◌≡◌, refl, true, not, ◌||◌}
use backend_sandbox_service.Errors.{ok, err, ansible_error, is_ok}
use backend_sandbox_service.Models.{user_allocation, create_stage}
use backend_sandbox_service.StageHandler.{Handler, mark_started, mark_ended, save}
use backend_sandbox_service.StageStates.{stage_state, finished, failed}
use backend_sandbox_service.Stages.Races.{
  Race, begin_run, read_row, end_run, end_cancellation, Steps, start, begun, ended, read, cancelled,
}
use backend_sandbox_service.Stages.Races.Orders.{race, Steps-saved, cancelled-undone}
use backend_sandbox_service.Examples.{good_world, waiting, handler}

abbrev run : Handler
run = handler (waiting 3 user_allocation)

abbrev begins : Race
begins = begin_run (race run run)

-- The run raises after the cancellation has read the row, and saves first.
abbrev raised : Race
raised =
    end_cancellation good_world (ok tt) (end_run good_world (err ansible_error) (read_row begins))

raised-Steps : Steps good_world (race run run) raised
unfolding begin_run read_row end_run end_cancellation
raised-Steps =
    cancelled (ended (read (begun start refl) refl) (err ansible_error) refl) (ok tt) refl

Steps-saved_example :
    (raised.row.finished ≡ true)
    × (raised.row.failed ≡ (raised.cancelled_last || not (is_ok {A = Unit} (err ansible_error))))
unfolding create_stage begin_run read_row end_run end_cancellation mark_started mark_ended save
Steps-saved_example =
    Steps-saved good_world run run raised refl raised-Steps (err ansible_error) refl

-- The cancellation saves while the run goes on.
abbrev noted : Race
noted = end_cancellation good_world (ok tt) (read_row begins)

noted-Steps : Steps good_world (race run run) noted
unfolding begin_run read_row end_cancellation mark_started save create_stage
noted-Steps = cancelled (read (begun start refl) refl) (ok tt) refl

cancelled-undone_example :
    (stage_state noted.row ≡ failed)
    × (stage_state (end_run good_world (ok tt) noted).row ≡ finished)
unfolding create_stage begin_run read_row end_cancellation mark_started mark_ended save
cancelled-undone_example = cancelled-undone good_world run run noted refl noted-Steps refl refl
