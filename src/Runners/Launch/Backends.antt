-- ===== src/Runners/Launch/Backends.antt =====
-- Both backends run the same command on the same files.
use Prim.Native.String.append
use backend_sandbox_service.Prelude.{
  suc, ◌≡◌, ap, ◌∙◌, List, String, str_append, str_eq, map, Bool, true, not, ◌&&◌, arith,
}
use backend_sandbox_service.Runners.Launch.{
  AnsibleRun, RunnerSettings, Volume, VolumeMount, run_docker, put_volume, kube_job, text_length,
  text_from, sub_path_of,
}

-- `os.path.join`, of a directory and a path below it.
abbrev pub below : RunnerSettings → String → String
below settings path = str_append settings.volumes_path (str_append "/" path)

text_from-append :
    (directory path : String)
    → text_from (suc (text_length directory)) (str_append directory (str_append "/" path)) ≡ path
unfolding text_length text_from
text_from-append String.[] path =
    ap (text_from 1) (append.nil (str_append "/" path) ∙ append.cons "/" String.[] path)
    ∙ append.nil path
text_from-append (String.◌∷◌ c directory) path =
    ap (text_from (suc (suc (text_length directory))))
      (append.cons c directory (str_append "/" path))
    ∙ text_from-append directory path

-- The files of the host that the container finds in a place.
abbrev pub docker_files : List Volume → List (String × String)
docker_files volumes = map (λ v. (v.source, v.bind)) volumes

abbrev pub kube_files : RunnerSettings → List VolumeMount → List (String × String)
kube_files settings mounts = map (λ m. (below settings m.sub_path, m.mount_path)) mounts

-- No two of the files of a run are the same.
abbrev pub separate : AnsibleRun → Bool
separate run =
    not (str_eq run.ssh_directory run.inventory_path)
    && not (str_eq run.ssh_directory run.containers_path)
    && not (str_eq run.ssh_directory run.credentials_path)
    && not (str_eq run.inventory_path run.containers_path)
    && not (str_eq run.inventory_path run.credentials_path)
    && not (str_eq run.containers_path run.credentials_path)

-- Where the files of a run differ and are below the directory of the shared volume, the job of Kubernetes finds
-- the same files in the same places as the container of Docker, and runs the same command in the
-- same image; and it is not tried again.
pub kube_job-run_docker :
    (settings : RunnerSettings) (run : AnsibleRun) (ssh inventory containers credentials : String)
    → run.ssh_directory ≡ below settings ssh
    → run.inventory_path ≡ below settings inventory
    → run.containers_path ≡ below settings containers
    → run.credentials_path ≡ below settings credentials
    → separate run ≡ true
    → let job = kube_job settings run in
      let docker = run_docker settings run in
      (kube_files settings job.volume_mounts ≡ docker_files docker.volumes)
      × (job.args ≡ docker.command)
      × (job.image ≡ docker.image)
      × (job.backoff_limit ≡ 0)
unfolding kube_job run_docker put_volume sub_path_of
kube_job-run_docker settings run ssh inventory containers credentials a b c d e = ground (
  arith,
  text_from-append settings.volumes_path ssh,
  text_from-append settings.volumes_path inventory,
  text_from-append settings.volumes_path containers,
  text_from-append settings.volumes_path credentials,
)
