-- ===== src/Runners.antt =====
-- The containers that run Ansible, crczp/sandbox_ansible_app/lib/container.py: what DockerContainer
-- and KubernetesContainer read of their service, and the outputs that they write.
pub mod Outputs
pub mod Launch
use Prim.Native.Char.{Char, code}
use Prim.Native.String
use backend_sandbox_service.Prelude.{
  ℕ, zero, suc, Bool, true, false, Option, none, some, List, [], ◌∷◌, ◌++◌, String, str_eq, ltb,
  ◌==◌, ◌||◌, if◌then◌else◌,
}
use backend_sandbox_service.Errors.{
  Done, Exc, ansible_error, crczp_exception, index_error, Result, ok, err, Exec, pure, raise, lift,
  modify, raise_if, catch, is_kube_api, is_config, ◌>>=◌, ◌>>◌,
}

-- The phase of a pod.
pub data PodPhase : Type 0 where
  pod_pending pod_running pod_succeeded pod_failed pod_unknown : PodPhase

-- An event of the watch on the pods of a job.
pub record PodEvent : Type 0 where
  pub deleted : Bool
  pub phase : PodPhase
  pub name : String

-- V1JobStatus: the numbers of pods, 0 where there is none, and the types of the conditions.
pub record JobStatus : Type 0 where
  pub failed : ℕ
  pub succeeded : ℕ
  pub conditions : List String

-- The outputs of the stage, and how often the log was opened and the job was read.
pub record OutputState : Type 0 where
  pub outputs : List String
  pub passes : ℕ
  pub reads : ℕ

abbrev pub OutputAction : Type 0 → Type 0
OutputAction A = Exec OutputState A

-- The Kubernetes API: the events of the watches until they end, the lines that come when the log is
-- opened once more, the job as it is read then, and the whole log of the pod.
pub record Kube : Type 0 where
  pub load_incluster_config : Result Done
  pub pod_events : List PodEvent
  pub job_events : List JobStatus
  pub log_stream : (passes reads : ℕ) → Result (List String)
  pub job_status : (passes reads : ℕ) → Result JobStatus
  pub pod_log : String → Result (List String)
  pub delete_job : Result Done

-- `_wait_for_pod_start`
is_started : PodPhase → Bool
is_started pod_running = true
is_started pod_failed = true
is_started _ = false

unfoldable pub wait_for_pod_start : List PodEvent → Result (Option String)
unfolding is_started
wait_for_pod_start [] = ok none
wait_for_pod_start (event ∷ events) =
    let rest = wait_for_pod_start events in
    if is_started event.phase
    then ok (some event.name)
    else (if event.deleted then err crczp_exception else rest)

-- `job.status.succeeded or job.status.failed`
unfoldable pub is_over : JobStatus → Bool
is_over status = ltb 0 status.succeeded || ltb 0 status.failed

-- `_wait_for_job_finish`
unfoldable pub wait_for_job_finish : List JobStatus → Option JobStatus
unfolding is_over
wait_for_job_finish [] = none
wait_for_job_finish (status ∷ events) =
    let rest = wait_for_job_finish events in if is_over status then some status else rest

first_is_failed : List String → Bool
first_is_failed [] = false
first_is_failed (condition ∷ _) = str_eq condition "Failed"

unfoldable pub has_job_failed : JobStatus → Bool
unfolding first_is_failed
has_job_failed status = ltb 0 status.failed || first_is_failed status.conditions

-- `self.output_class.objects.create(...)`
unfoldable pub save_output : String → OutputAction Done
save_output content = modify (λ s. record s { outputs = s.outputs ++ content ∷ [] })

unfoldable pub save_outputs : List String → OutputAction Done
unfolding save_output
save_outputs [] = pure tt
save_outputs (content ∷ contents) = save_output content >> save_outputs contents

module _ (kube : Kube) where
  -- `KubernetesContainer.check_container_status`
  unfoldable pub check_finished : Option JobStatus → Result Done
  unfolding has_job_failed
  check_finished none = err ansible_error
  check_finished (some status) = if has_job_failed status then err ansible_error else ok tt

  unfoldable pub check_job_status : Result Done
  unfolding check_finished wait_for_job_finish
  check_job_status = check_finished (wait_for_job_finish kube.job_events)

  unfoldable pub read_job : OutputAction JobStatus
  read_job s = (kube.job_status s.passes s.reads, record s { reads = suc s.reads })

  unfoldable pub open_log : OutputAction (List String)
  open_log s = (kube.log_stream s.passes s.reads, record s { passes = suc s.passes })

  -- One pass over the stream of the log; the result is `job_done`.
  unfoldable pub follow_log : List String → OutputAction Bool
  unfolding save_output read_job is_over
  follow_log [] = pure false
  follow_log (log ∷ logs) = do
    save_output log
    status ← read_job
    λ s. elim (is_over status) [ true ↦ (ok true, s) | false ↦ follow_log logs s ]

  -- `while not job_done`, for so many passes; `ok false`: the loop still goes on.
  unfoldable pub follow_pod : ℕ → OutputAction Bool
  unfolding follow_log open_log
  follow_pod zero = pure false
  follow_pod (suc fuel) = do
    logs ← open_log
    job_done ← follow_log logs
    λ s. elim job_done [ true ↦ (ok true, s) | false ↦ follow_pod fuel s ]

  -- `_save_pod_outputs`
  unfoldable pub save_pod_outputs : String → OutputAction Done
  unfolding save_outputs
  save_pod_outputs pod_name = do
    modify (λ s. record s { outputs = [] })
    pod_outputs ← lift (kube.pod_log pod_name)
    save_outputs pod_outputs

  unfoldable pub follow_and_save : ℕ → Option String → OutputAction Bool
  unfolding follow_pod save_pod_outputs
  follow_and_save fuel none = raise ansible_error
  follow_and_save fuel (some pod_name) = do
    job_done ← follow_pod fuel
    λ s. elim job_done [ false ↦ (ok false, s) | true ↦ (save_pod_outputs pod_name >> pure true) s ]

  -- `KubernetesContainer.get_container_outputs`
  unfoldable pub get_pod_outputs : ℕ → OutputAction Bool
  unfolding follow_and_save wait_for_pod_start
  get_pod_outputs fuel = do
    pod_name ← lift (wait_for_pod_start kube.pod_events)
    follow_and_save fuel pod_name

  -- `KubernetesContainer.delete_container`: errors of the configuration and of the API become the
  -- cloud library's.
  renamed : (Exc → Bool) → Result Done → Result Done
  renamed named (ok _) = ok tt
  renamed named (err e) = err (if named e then crczp_exception else e)

  unfoldable pub delete_kube_job : Result Done
  unfolding renamed
  delete_kube_job = elim (renamed is_config kube.load_incluster_config) [
    | ok _ ↦ renamed is_kube_api kube.delete_job
    | err e ↦ err e
  ]

-- The Docker engine: the lines of the stream, the exit status, and the removal.
pub record Engine : Type 0 where
  pub logs : Result (List String)
  pub wait : Result ℕ
  pub remove : Result Done

strip_end : Char → String → String
strip_end c String.[] = if code c == 10 then String.[] else String.◌∷◌ c String.[]
strip_end c (String.◌∷◌ d s) = String.◌∷◌ c (strip_end d s)

-- `output[:-1] if output[-1] == '\n' else output`: an empty output is an IndexError.
unfoldable pub strip_line : String → Result String
unfolding strip_end
strip_line String.[] = err index_error
strip_line (String.◌∷◌ c s) = ok (strip_end c s)

module _ (engine : Engine) where
  unfoldable pub save_lines : List String → OutputAction Done
  unfolding strip_line save_output
  save_lines [] = pure tt
  save_lines (line ∷ lines) = do
    output ← lift (strip_line line)
    save_output output
    save_lines lines

  -- `DockerContainer.get_container_outputs`
  unfoldable pub get_docker_outputs : OutputAction Done
  unfolding save_lines
  get_docker_outputs = do lines ← lift engine.logs; save_lines lines

  -- `DockerContainer.check_container_status`
  unfoldable pub check_docker_status : Result Done
  check_docker_status = elim engine.wait [
    | err e ↦ err e
    | ok status_code ↦ if status_code == 0 then ok tt else err ansible_error
  ]
