-- ===== src/Runners/Launch.antt =====
-- How the containers that run Ansible are started, crczp/sandbox_ansible_app/lib/container.py: the
-- run of Docker, and the job of Kubernetes.
use backend_sandbox_service.Prelude.{
  ℕ, zero, suc, ◌+◌, Bool, true, false, List, [], ◌∷◌, ◌++◌, String, str, str_append, str_eq,
  if◌then◌else◌,
}
use backend_sandbox_service.Errors.{Done, Exc, crczp_exception, Result, ok, err, is_config}
pub mod Names
pub mod Backends

-- What a container is made for, with the paths of its files on the host.
pub record AnsibleRun : Type 0 where
  pub url : String
  pub rev : String
  pub stage_id : ℕ
  pub cleanup : Bool
  pub ssh_directory : String
  pub inventory_path : String
  pub containers_path : String
  pub credentials_path : String

-- The configuration that both backends read.
pub record RunnerSettings : Type 0 where
  pub ansible_docker_image : String
  pub answers_storage_api : String
  pub git_skip_ssl_verification : Bool
  pub volumes_path : String
  pub docker_network : String
  pub namespace : String
  pub persistent_volume_claim_name : String

-- A file of the host, where the container has it, and how it is bound.
pub record Volume : Type 0 where
  pub source : String
  pub bind : String
  pub mode : String

-- V1VolumeMount: a path in the shared volume, and where the container has it.
pub record VolumeMount : Type 0 where
  pub mount_path : String
  pub sub_path : String

-- The call of `containers.run`.
pub record DockerRun : Type 0 where
  pub image : String
  pub command : List String
  pub volumes : List Volume
  pub network : String

-- The job with its one container.
pub record KubeJob : Type 0 where
  pub name : String
  pub namespace : String
  pub image : String
  pub args : List String
  pub git_ssl_no_verify : String
  pub volume_mounts : List VolumeMount
  pub claim_name : String
  pub backoff_limit : ℕ
  pub restart_policy : String

-- Where the container has its files.
abbrev pub ssh_dir_bind : String
ssh_dir_bind = "/root/.ssh"

abbrev pub inventory_bind : String
inventory_bind = "/app/inventory.yml"

abbrev pub containers_bind : String
containers_bind = "/root/containers"

abbrev pub git_credentials_bind : String
git_credentials_bind = "/app/.git-credentials"

-- `command += ['-c'] if self.cleanup else []`
unfoldable pub arguments : RunnerSettings → AnsibleRun → List String
arguments settings run =
    ("-u" ∷ run.url ∷ "-r" ∷ run.rev ∷ "-i" ∷ inventory_bind ∷ "-a" ∷ settings.answers_storage_api
      ∷ [])
    ++ elim run.cleanup [ true ↦ "-c" ∷ [] | false ↦ [] ]

-- An entry of the dictionary of volumes, in the place of one with the same path.
unfoldable pub put_volume : Volume → List Volume → List Volume
put_volume new [] = new ∷ []
put_volume new (volume ∷ volumes) =
    let rest = put_volume new volumes in
    if str_eq volume.source new.source then new ∷ volumes else volume ∷ rest

-- `DockerContainer._run_container`
unfoldable pub run_docker : RunnerSettings → AnsibleRun → DockerRun
unfolding arguments put_volume
run_docker settings run = record {
  image = settings.ansible_docker_image;
  command = arguments settings run;
  volumes =
      put_volume
        (record { source = run.credentials_path; bind = git_credentials_bind; mode = "ro" })
        (put_volume (record { source = run.containers_path; bind = containers_bind; mode = "rw" })
          (put_volume (record { source = run.inventory_path; bind = inventory_bind; mode = "ro" })
            (record { source = run.ssh_directory; bind = ssh_dir_bind; mode = "rw" } ∷ [])));
  network = settings.docker_network;
}

-- `len(text)` and `text[n:]`
unfoldable pub text_length : String → ℕ
text_length String.[] = 0
text_length (String.◌∷◌ c text) = suc (text_length text)

unfoldable pub text_from : ℕ → String → String
text_from zero text = text
text_from (suc n) String.[] = ""
text_from (suc n) (String.◌∷◌ c text) = text_from n text

-- The rest of a path below the directory of the shared volume.
unfoldable pub sub_path_of : RunnerSettings → String → String
unfolding text_length text_from
sub_path_of settings path = text_from (suc (text_length settings.volumes_path)) path

-- `ALLOCATION_JOB_NAME` and `CLEANUP_JOB_NAME`, with the number of the stage.
unfoldable pub job_name : AnsibleRun → String
job_name run = elim run.cleanup [
  | true ↦ str_append "ansible-cleanup-" (str run.stage_id)
  | false ↦ str_append "ansible-allocation-" (str run.stage_id)
]

-- `_create_container` and the job around it in `_create_kube_job`.
unfoldable pub kube_job : RunnerSettings → AnsibleRun → KubeJob
unfolding arguments sub_path_of job_name
kube_job settings run = record {
  name = job_name run;
  namespace = settings.namespace;
  image = settings.ansible_docker_image;
  args = arguments settings run;
  git_ssl_no_verify = elim settings.git_skip_ssl_verification [ true ↦ "true" | false ↦ "false" ];
  volume_mounts =
      record { mount_path = ssh_dir_bind; sub_path = sub_path_of settings run.ssh_directory }
      ∷ record { mount_path = inventory_bind; sub_path = sub_path_of settings run.inventory_path }
      ∷ record { mount_path = containers_bind; sub_path = sub_path_of settings run.containers_path }
      ∷ record {
        mount_path = git_credentials_bind;
        sub_path = sub_path_of settings run.credentials_path;
      }
      ∷ [];
  claim_name = settings.persistent_volume_claim_name;
  backoff_limit = 0;
  restart_policy = "Never";
}

-- `KubernetesContainer.__init__`, with what the loading of the configuration and the creation of a
-- job answer: the job that was made.
unfoldable pub start_kube_job :
    Result Done → (KubeJob → Result Done) → RunnerSettings → AnsibleRun → Result KubeJob
unfolding kube_job
start_kube_job load_incluster_config create_namespaced_job settings run =
    elim load_incluster_config [
      | err e ↦ err (elim (is_config e) [ true ↦ crczp_exception | false ↦ e ])
      | ok _ ↦ elim (create_namespaced_job (kube_job settings run)) [
        | err e ↦ err e
        | ok _ ↦ ok (kube_job settings run)
      ]
    ]
