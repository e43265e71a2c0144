-- ===== src/Stages/Races/Orders.antt =====
-- What the row of a stage is in the end, in whatever order its run and its cancellation save it.
use backend_sandbox_service.Prelude.{
  ◌≡◌, refl, ◌⊎◌, inl, true, false, not, ◌||◌, none, if◌then◌else◌, arith, is_some,
}
use backend_sandbox_service.Errors.{Done, Result, ok, err, is_ok, ◌>>◌}
use backend_sandbox_service.Models.{Stage}
use backend_sandbox_service.StageHandler.{World, Handler, mark_started, mark_ended, save}
use backend_sandbox_service.Stages.{
  after_run, note_failure, note_cancel_error, mark_failed, run_stage, execute, delete_stage_job,
  cancel_stage, cancel,
}
use backend_sandbox_service.Stages.Execute.{Keeps-run_stage}
use backend_sandbox_service.Stages.Cancel.{Keeps-cancel_body}
use backend_sandbox_service.StageStates.{stage_state, finished, failed}
use backend_sandbox_service.Stages.Races.{
  RunPhase, run_waits, run_goes, run_ended, not_read, row_read, cancel_ended, Race, begin_run,
  read_row, end_run, end_cancellation, Steps, start, begun, ended, read, cancelled,
}

-- What the copy of the run is in each phase.
abbrev RunIs : RunPhase → Stage → Type 0
RunIs run_waits stage = stage.failed ≡ false
RunIs run_goes stage = stage.failed ≡ false
RunIs (run_ended r) stage = (stage.finished ≡ true) × (stage.failed ≡ not (is_ok r))

record IsConsistent (s : Race) : Type 0 where
  shown : s.row ≡ (if s.cancelled_last then s.cancellation.stage else s.run.stage)
  marked :
      (s.cancelled_last ≡ false)
      ⊎ ((s.cancellation.stage.failed ≡ true)
          × (s.cancellation.stage.finished ≡ true)
          × (is_some s.cancellation.stage.end ≡ true)
          × (s.cancel_phase ≡ cancel_ended))
  as_run : RunIs s.run_phase s.run.stage

-- The job waits in the queue, with a copy that is the row; nobody cancels yet.
abbrev pub race : Handler → Handler → Race
race run cancellation = record {
  run = run;
  run_phase = run_waits;
  cancellation = cancellation;
  cancel_phase = not_read;
  row = run.stage;
  cancelled_last = false;
}

begin_run-IsConsistent :
    (s : Race) → IsConsistent s → s.run_phase ≡ run_waits → IsConsistent (begin_run s)
unfolding begin_run mark_started save
begin_run-IsConsistent s h waits = ground (arith, h)

read_row-IsConsistent :
    (s : Race) → IsConsistent s → s.cancel_phase ≡ not_read → IsConsistent (read_row s)
unfolding read_row
read_row-IsConsistent s h none_yet = ground (arith, h)

module _ (world : World) where
  end_run-IsConsistent :
      (r : Result Done) (s : Race)
      → IsConsistent s
      → s.run_phase ≡ run_goes
      → IsConsistent (end_run world r s)
  unfolding end_run after_run note_failure mark_ended save
  end_run-IsConsistent (ok _) s h goes = ground (arith, h)
  end_run-IsConsistent (err e) s h goes = ground (arith, h)

  end_cancellation-IsConsistent :
      (r : Result Done) (s : Race)
      → IsConsistent s
      → s.cancel_phase ≡ row_read
      → IsConsistent (end_cancellation world r s)
  unfolding end_cancellation note_cancel_error mark_failed mark_ended save
  end_cancellation-IsConsistent (ok _) s h has_read = ground (arith, h)
  end_cancellation-IsConsistent (err e) s h has_read = ground (arith, h)

  Steps-IsConsistent : {s t : Race} → Steps world s t → IsConsistent s → IsConsistent t
  Steps-IsConsistent start h = h
  Steps-IsConsistent (begun steps waits) h =
      begin_run-IsConsistent _ (Steps-IsConsistent steps h) waits
  Steps-IsConsistent (ended steps r goes) h =
      end_run-IsConsistent r _ (Steps-IsConsistent steps h) goes
  Steps-IsConsistent (read steps none_yet) h =
      read_row-IsConsistent _ (Steps-IsConsistent steps h) none_yet
  Steps-IsConsistent (cancelled steps r has_read) h =
      end_cancellation-IsConsistent r _ (Steps-IsConsistent steps h) has_read

  over-saved :
      (r : Result Done) (t : Race)
      → IsConsistent t
      → t.run_phase ≡ run_ended r
      → (t.row.finished ≡ true) × (t.row.failed ≡ (t.cancelled_last || not (is_ok r)))
  over-saved r t h over = ground (arith, h)

  -- In whatever order a run and a cancellation of a stage save it, once the run has ended the row is
  -- finished, and failed exactly if the run raised or the cancellation saved it last.
  pub Steps-saved :
      (run cancellation : Handler) (t : Race)
      → run.stage.failed ≡ false
      → Steps world (race run cancellation) t
      → (r : Result Done) → t.run_phase ≡ run_ended r
      → (t.row.finished ≡ true) × (t.row.failed ≡ (t.cancelled_last || not (is_ok r)))
  Steps-saved run cancellation t sound steps r over =
      over-saved r t
        (Steps-IsConsistent steps (record { shown = refl; marked = inl refl; as_run = sound })) over

  undone :
      (t : Race)
      → IsConsistent t
      → t.run_phase ≡ run_goes
      → t.cancelled_last ≡ true
      → (stage_state t.row ≡ failed) × (stage_state (end_run world (ok tt) t).row ≡ finished)
  unfolding stage_state end_run after_run mark_ended save
  undone t h goes last = (ground (arith, h), ground (arith, h))

  -- In whatever order the steps came, where a cancellation was the last to save the row of a stage
  -- whose run still goes on, the stage is reported as failed; once that run ends well, it is reported
  -- as finished: the last save of the run undoes what the cancellation noted.
  pub cancelled-undone :
      (run cancellation : Handler) (t : Race)
      → run.stage.failed ≡ false
      → Steps world (race run cancellation) t
      → t.run_phase ≡ run_goes
      → t.cancelled_last ≡ true
      → (stage_state t.row ≡ failed) × (stage_state (end_run world (ok tt) t).row ≡ finished)
  cancelled-undone run cancellation t sound steps goes last =
      undone t
        (Steps-IsConsistent steps (record { shown = refl; marked = inl refl; as_run = sound })) goes
        last

  -- A run that nobody disturbs is `execute`, but for the time of its end.
  execute-end_run :
      (run cancellation : Handler)
      → let r = (run_stage world run.stage.class (mark_started run)).0 in
        let row = (end_run world r (begin_run (race run cancellation))).row in
        record row { end = none } ≡ record (execute world run).1.entry.row { end = none }
  unfolding begin_run end_run execute after_run note_failure mark_ended save
  execute-end_run run cancellation =
      ground (arith, (Keeps-run_stage world run.stage.class).at (mark_started run))

  -- A cancellation that nobody disturbs is `cancel`, but for the time of its end.
  cancel-end_cancellation :
      (run cancellation : Handler)
      → let open_copy = record cancellation { stage = run.stage } in
        let r = (delete_stage_job world >> cancel_stage world run.stage.class) open_copy in
        let stage =
          (end_cancellation world r.0 (read_row (race run cancellation))).cancellation.stage in
        record stage { end = none } ≡ record (cancel world open_copy).1.stage { end = none }
  unfolding read_row end_cancellation cancel note_cancel_error mark_ended save
  cancel-end_cancellation run cancellation =
      let open_copy = record cancellation { stage = run.stage } in
      ground (arith, (Keeps-cancel_body world run.stage.class).at open_copy)
