-- ===== src/RunnerFiles.antt =====
-- The files of containers that an allocation's Ansible run is given:
-- crczp/sandbox_ansible_app/lib/ansible.py.
use backend_sandbox_service.Prelude.{
  true, false, Option, none, some, List, [], ◌∷◌, ◌++◌, String, str_eq, contains, filter,
  if◌then◌else◌,
}
use backend_sandbox_service.Errors.{
  Done, api_exception, index_error, other_error, Result, ok, err, Exec, pure, raise, lift, modify,
  catch, ◌>>=◌, ◌>>◌,
}
use backend_sandbox_service.Definitions.{
  Platform, Container, ContainerMapping, DockerContainers, is_set, get_dockerfile,
}
pub mod Once
pub mod Complete

-- What has been written, in order: directories made, and files saved, over any that were there.
pub data FileOperation : Type 0 where
  made : (dir_path : String) → FileOperation
  saved : (file_path text : String) → FileOperation

abbrev pub FileAction : Type 0 → Type 0
FileAction A = Exec (List FileOperation) A

-- The templates of Jinja, and what the file system answers for a path.
pub record Disk : Type 0 where
  pub make : (dir_path : String) → Result Done
  pub write : (file_path : String) → Result Done
  pub render_compose : List ContainerMapping → List Container → Result String
  pub render_dockerfile : Container → Result String

unfoldable pub mappings_of : String → List ContainerMapping → List ContainerMapping
mappings_of host mappings = filter (λ m. str_eq m.host host) mappings

unfoldable pub find_container : String → List Container → Option Container
find_container name [] = none
find_container name (container ∷ containers) =
    let rest = find_container name containers in
    if str_eq container.name name then some container else rest

module _ (disk : Disk) where
  unfoldable pub make_dir : String → FileAction Done
  make_dir dir_path = lift (disk.make dir_path) >> modify (λ s. s ++ made dir_path ∷ [])

  unfoldable pub save_file : String → String → FileAction Done
  save_file file_path text =
      lift (disk.write file_path) >> modify (λ s. s ++ saved file_path text ∷ [])

module _ (platform : Platform) (disk : Disk) (containers_path : String) where
  unfoldable pub compose_path : String → String
  compose_path host =
      platform.join_path (platform.join_path containers_path host) "docker-compose.yml"

  unfoldable pub dockerfile_dir : ContainerMapping → String
  dockerfile_dir mapping =
      platform.join_path (platform.join_path containers_path mapping.host) mapping.container

  -- One round of `_generate_docker_composes`.
  unfoldable pub generate_compose : DockerContainers → String → FileAction Done
  unfolding mappings_of compose_path save_file make_dir
  generate_compose containers host = do
    make_dir disk (platform.join_path containers_path host)
    catch (λ _. true)
        (do
          docker_compose ← lift (
              disk.render_compose (mappings_of host containers.container_mappings)
                containers.containers)
          save_file disk (compose_path host) docker_compose)
        (λ _. raise api_exception)

  -- `_generate_docker_composes`
  unfoldable pub generate_docker_composes :
      DockerContainers → List ContainerMapping → List String → FileAction Done
  generate_docker_composes containers [] parsed_docker_hosts = pure tt
  generate_docker_composes containers (mapping ∷ mappings) parsed_docker_hosts =
      elim (contains mapping.host parsed_docker_hosts) [
        | true ↦ generate_docker_composes containers mappings parsed_docker_hosts
        | false ↦
            generate_compose containers mapping.host
            >> generate_docker_composes containers mappings
                (parsed_docker_hosts ++ mapping.host ∷ [])
      ]

  -- The text of a Dockerfile: of the template where the container has an image, and otherwise the
  -- one of the repository.
  unfoldable pub dockerfile_of : String → String → Container → Result String
  unfolding is_set
  dockerfile_of url rev container = elim (is_set container.image) [
    | true ↦ elim (disk.render_dockerfile container) [
      | ok text ↦ ok text
      | err _ ↦ err api_exception
    ]
    | false ↦ elim container.dockerfile [
      | none ↦ err other_error
      | some path ↦ get_dockerfile platform url rev path
    ]
  ]

  -- One round of `_generate_dockerfiles`.
  unfoldable pub generate_dockerfile :
      String → String → List Container → ContainerMapping → FileAction Done
  unfolding find_container dockerfile_of dockerfile_dir save_file make_dir
  generate_dockerfile url rev containers mapping = do
    make_dir disk (dockerfile_dir mapping)
    container ← lift (elim (find_container mapping.container containers) [
      | none ↦ err index_error
      | some container ↦ ok container
    ])
    dockerfile ← lift (dockerfile_of url rev container)
    save_file disk (platform.join_path (dockerfile_dir mapping) "Dockerfile") dockerfile

  -- `_generate_dockerfiles`
  unfoldable pub generate_dockerfiles :
      String → String → List Container → List ContainerMapping → FileAction Done
  generate_dockerfiles url rev containers [] = pure tt
  generate_dockerfiles url rev containers (mapping ∷ mappings) =
      generate_dockerfile url rev containers mapping
      >> generate_dockerfiles url rev containers mappings

  -- `prepare_containers_directory`, for the containers of the sandbox's topology.
  unfoldable pub prepare_containers_directory :
      String → String → Option DockerContainers → FileAction Done
  prepare_containers_directory url rev none = pure tt
  prepare_containers_directory url rev (some containers) = do
    make_dir disk containers_path
    generate_docker_composes containers containers.container_mappings []
    generate_dockerfiles url rev containers.containers containers.container_mappings
