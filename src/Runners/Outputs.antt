-- ===== src/Runners/Outputs.antt =====
-- When the loop that follows the log of a pod ends, and the outputs that it leaves.
use backend_sandbox_service.Prelude.{
  ℕ, zero, suc, ◌+◌, ◌≤◌, ◌<◌, ◌≡◌, refl, Bool, true, false, none, some, List, [], ◌∷◌, ◌++◌,
  append-nil, append_assoc, String, arith, length, ltb, inl, inr,
}
use backend_sandbox_service.Errors.{Result, ok, err, Result-cases}
use backend_sandbox_service.Runners.{
  OutputState, Kube, JobStatus, is_over, save_output, save_outputs, follow_log, follow_pod,
  save_pod_outputs, follow_and_save, get_pod_outputs, wait_for_pod_start, read_job, open_log,
}

-- The loop is left, by its end or by an exception.
abbrev pub is_left : Result Bool → Bool
is_left (ok job_done) = job_done
is_left (err _) = true

-- Every line that is read finds the job over, where the reading succeeds.
abbrev pub over_or_error : Result JobStatus → Bool
over_or_error (ok status) = is_over status
over_or_error (err _) = true

abbrev pub some_line : Result (List String) → Bool
some_line (ok logs) = ltb 0 (length logs)
some_line (err _) = true

opened : OutputState → OutputState
opened s = record s { passes = suc s.passes }

saved : String → OutputState → OutputState
saved log s = record s { outputs = s.outputs ++ log ∷ []; reads = suc s.reads }

module _ (kube : Kube) where
  follow_log-passes :
      (logs : List String) (s : OutputState) → (follow_log kube logs s).1.passes ≡ s.passes
  unfolding follow_log save_output read_job saved
  follow_log-passes [] s = refl
  follow_log-passes (log ∷ logs) s = ground (arith, follow_log-passes logs (saved log s))

  follow_log-is_left :
      (n : ℕ) (logs : List String) (s : OutputState)
      → s.passes ≡ suc n
      → ltb 0 (length logs) ≡ true
      → ((reads : ℕ) → over_or_error (kube.job_status (suc n) reads) ≡ true)
      → is_left (follow_log kube logs s).0 ≡ true
  unfolding follow_log save_output read_job saved
  follow_log-is_left n [] s e line over = ground arith
  follow_log-is_left n (log ∷ logs) s e line over = ground (arith, over s.reads)

  follow_pod-is_left :
      (n fuel : ℕ) (s : OutputState)
      → s.passes ≤ n
      → n < s.passes + fuel
      → ((reads : ℕ) → some_line (kube.log_stream n reads) ≡ true)
      → ((reads : ℕ) → over_or_error (kube.job_status (suc n) reads) ≡ true)
      → is_left (follow_pod kube fuel s).0 ≡ true
  unfolding follow_pod open_log opened
  follow_pod-is_left n zero s lo hi line over = ground arith
  follow_pod-is_left n (suc fuel) s lo hi line over =
      elim (Result-cases (kube.log_stream s.passes s.reads)) [
        | inr (x, e) ↦ ground (arith, e)
        | inl (logs, e) ↦ ground (
          arith,
          e,
          line s.reads,
          follow_log-passes logs (opened s),
          follow_log-is_left n logs (opened s) _ _ over,
          follow_pod-is_left n fuel (follow_log kube logs (opened s)).1 _ _ line over,
        )
      ]

  follow_pod-empty :
      (fuel : ℕ) (s : OutputState)
      → ((passes reads : ℕ) → kube.log_stream passes reads ≡ ok [])
      → ((follow_pod kube fuel s).0 ≡ ok false)
        × ((follow_pod kube fuel s).1.outputs ≡ s.outputs)
        × ((follow_pod kube fuel s).1.reads ≡ s.reads)
  unfolding follow_pod follow_log open_log opened
  follow_pod-empty zero s h = (refl, refl, refl)
  follow_pod-empty (suc fuel) s h =
      ground (arith, h s.passes s.reads, follow_pod-empty fuel (opened s) h)

  save_outputs_lem :
      (contents : List String) (s : OutputState)
      → save_outputs contents s ≡ (ok tt, record s { outputs = s.outputs ++ contents })
  unfolding save_outputs save_output
  save_outputs_lem [] s = rw (append-nil s.outputs) refl
  save_outputs_lem (content ∷ contents) s = ground (
    arith,
    save_outputs_lem contents (record s { outputs = s.outputs ++ content ∷ [] }),
    append_assoc s.outputs (content ∷ []) contents,
  )

  -- Where the pod starts, and the log, when it is opened for the n-th time (counted from 0), has a
  -- line and finds the job over, or the service fails at that, so many passes after the ones that
  -- were made before end the loop: the outputs are collected or an exception is raised.
  pub get_pod_outputs-is_left :
      (pod_name : String) (n fuel : ℕ) (s : OutputState)
      → wait_for_pod_start kube.pod_events ≡ ok (some pod_name)
      → s.passes ≤ n
      → n < s.passes + fuel
      → ((reads : ℕ) → some_line (kube.log_stream n reads) ≡ true)
      → ((reads : ℕ) → over_or_error (kube.job_status (suc n) reads) ≡ true)
      → is_left (get_pod_outputs kube fuel s).0 ≡ true
  unfolding get_pod_outputs follow_and_save save_pod_outputs
  get_pod_outputs-is_left pod_name n fuel s started lo hi line over =
      elim (Result-cases (kube.pod_log pod_name)) [
        | inl (lines, e) ↦ ground (
          arith,
          started,
          e,
          follow_pod-is_left n fuel s _ _ line over,
          save_outputs_lem lines (record (follow_pod kube fuel s).1 { outputs = [] }),
        )
        | inr (x, e) ↦ ground (arith, started, e, follow_pod-is_left n fuel s _ _ line over)
      ]

  -- Outputs that were collected without an exception are the lines of the whole log of the pod that
  -- started, in order: none of those that were written while it ran is left.
  pub get_pod_outputs-outputs :
      (fuel : ℕ) (s : OutputState)
      → (get_pod_outputs kube fuel s).0 ≡ ok true
      → (pod_name : String) × (wait_for_pod_start kube.pod_events ≡ ok (some pod_name))
        × (kube.pod_log pod_name ≡ ok (get_pod_outputs kube fuel s).1.outputs)
  unfolding get_pod_outputs follow_and_save save_pod_outputs
  get_pod_outputs-outputs fuel s e = elim (Result-cases (wait_for_pod_start kube.pod_events)) [
    | inr (x, failed) ↦ ground (arith, failed)
    | inl (none, ended) ↦ ground (arith, ended)
    | inl (some pod_name, started) ↦ elim (Result-cases (kube.pod_log pod_name)) [
      | inr (x, failed) ↦ ground (arith, started, failed)
      | inl (lines, read) ↦ (
        pod_name,
        started,
        ground (
          arith,
          started,
          read,
          save_outputs_lem lines (record (follow_pod kube fuel s).1 { outputs = [] }),
        ),
      )
    ]
  ]

  -- Where a pod has started and no opening of its log gives a line, the collection of the outputs
  -- never ends, however many passes are made and whatever the status of the job is, and nothing is
  -- written.
  pub get_pod_outputs-endless :
      (pod_name : String) (fuel : ℕ) (s : OutputState)
      → wait_for_pod_start kube.pod_events ≡ ok (some pod_name)
      → ((passes reads : ℕ) → kube.log_stream passes reads ≡ ok [])
      → ((get_pod_outputs kube fuel s).0 ≡ ok false)
        × ((get_pod_outputs kube fuel s).1.outputs ≡ s.outputs)
        × ((get_pod_outputs kube fuel s).1.reads ≡ s.reads)
  unfolding get_pod_outputs follow_and_save
  get_pod_outputs-endless pod_name fuel s started empty =
      ground (arith, started, follow_pod-empty fuel s empty)
