-- ===== src/Examples/LaunchRuns.antt =====
-- An allocation and a cleanup whose files are below the shared volume.
use backend_sandbox_service.Prelude.{◌≡◌, refl, true, false, str}
use backend_sandbox_service.Errors.{ok, err, config_exception, crczp_exception}
use backend_sandbox_service.Runners.Launch.{
  AnsibleRun, RunnerSettings, run_docker, text_length, text_from, sub_path_of, job_name, kube_job,
  start_kube_job,
}
use backend_sandbox_service.Runners.Launch.Backends.{
  below, docker_files, kube_files, kube_job-run_docker,
}

abbrev settings : RunnerSettings
settings = record {
  ansible_docker_image = "runner";
  answers_storage_api = "http://answers";
  git_skip_ssl_verification = false;
  volumes_path = "/var/volume";
  docker_network = "bridge";
  namespace = "crczp";
  persistent_volume_claim_name = "ansible";
}

abbrev allocation : AnsibleRun
allocation = record {
  url = "https://git/a";
  rev = "main";
  stage_id = 12;
  cleanup = false;
  ssh_directory = below settings "12/ssh";
  inventory_path = below settings "12/inventory.yml";
  containers_path = below settings "12/containers";
  credentials_path = below settings "12/.git-credentials";
}

name : job_name (record allocation { cleanup = true }) ≡ "ansible-cleanup-12"
unfolding job_name str
name = refl

path : sub_path_of settings allocation.ssh_directory ≡ "12/ssh"
unfolding sub_path_of text_length text_from
path = refl

config_refused :
    start_kube_job (err config_exception) (λ _. ok tt) settings allocation ≡ err crczp_exception
unfolding start_kube_job
config_refused = refl

kube_job-run_docker_example :
    (kube_files settings (kube_job settings allocation).volume_mounts
      ≡ docker_files (run_docker settings allocation).volumes)
    × ((kube_job settings allocation).args ≡ (run_docker settings allocation).command)
    × ((kube_job settings allocation).image ≡ (run_docker settings allocation).image)
    × ((kube_job settings allocation).backoff_limit ≡ 0)
kube_job-run_docker_example =
    kube_job-run_docker settings allocation "12/ssh" "12/inventory.yml" "12/containers"
      "12/.git-credentials" refl refl refl refl refl
