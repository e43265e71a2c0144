-- ===== src/Examples/RunnerRuns.antt =====
-- Pods whose log is followed: one that writes a line, and one that writes nothing.
use backend_sandbox_service.Prelude.{◌≡◌, refl, true, false, [], ◌∷◌, if◌then◌else◌, ◌==◌, arith}
use backend_sandbox_service.Errors.{ok, err, kube_api_error}
use backend_sandbox_service.Runners.{
  pod_pending, pod_running, JobStatus, OutputState, Kube, get_pod_outputs, wait_for_pod_start,
  get_docker_outputs, check_job_status, is_over,
}
use backend_sandbox_service.Runners.Outputs.{
  is_left, get_pod_outputs-is_left, get_pod_outputs-endless,
}

abbrev running : JobStatus
running = record { failed = 0; succeeded = 0; conditions = [] }

abbrev succeeded : JobStatus
succeeded = record { failed = 0; succeeded = 1; conditions = "Complete" ∷ [] }

-- The first opening of the log gives nothing, the next ones two lines each.
abbrev kube : Kube
kube = record {
  load_incluster_config = ok tt;
  pod_events =
      record { deleted = false; phase = pod_pending; name = "pod-a" }
      ∷ record { deleted = false; phase = pod_running; name = "pod-a" }
      ∷ [];
  job_events = running ∷ succeeded ∷ [];
  log_stream = λ passes _. if passes == 0 then ok [] else ok ("a" ∷ "b" ∷ []);
  job_status = λ passes _. if passes == 2 then ok succeeded else ok running;
  pod_log = λ _. ok ("a" ∷ "b" ∷ "c" ∷ []);
  delete_job = err kube_api_error;
}

abbrev silent : Kube
silent = record kube { log_stream = λ _ _. ok []; job_status = λ _ _. ok succeeded }

abbrev start : OutputState
start = record { outputs = []; passes = 0; reads = 0 }

run :
    get_pod_outputs kube 5 start
    ≡ (ok true, record { outputs = "a" ∷ "b" ∷ "c" ∷ []; passes = 2; reads = 1 })
unfolding get_pod_outputs
run = refl

check : check_job_status kube ≡ ok tt
unfolding check_job_status
check = refl

docker_run :
    get_docker_outputs (record { logs = ok ("x\n" ∷ "y" ∷ []); wait = ok 0; remove = ok tt }) start
    ≡ (ok tt, record start { outputs = "x" ∷ "y" ∷ [] })
unfolding get_docker_outputs
docker_run = refl

get_pod_outputs-is_left_example : is_left (get_pod_outputs kube 5 start).0 ≡ true
unfolding is_over
get_pod_outputs-is_left_example =
    get_pod_outputs-is_left kube "pod-a" 1 5 start (unfold wait_for_pod_start in refl) (omega arith)
      (omega arith) (λ reads. refl) (λ reads. refl)

get_pod_outputs-endless_example :
    ((get_pod_outputs silent 9 start).0 ≡ ok false)
    × ((get_pod_outputs silent 9 start).1.outputs ≡ [])
    × ((get_pod_outputs silent 9 start).1.reads ≡ 0)
get_pod_outputs-endless_example =
    get_pod_outputs-endless silent "pod-a" 9 start (unfold wait_for_pod_start in refl)
      (λ passes reads. refl)
