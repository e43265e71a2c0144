-- ===== src/Definitions.antt =====
-- Sandbox definitions: crczp/sandbox_definition_app/lib/definitions.py.
mod Providers
mod Topologies
pub mod Validation
pub mod Cached
pub mod Created
unfoldable pub use Providers.*
unfoldable pub use Topologies.*
use backend_sandbox_service.Prelude.{
  ℕ, Bool, true, false, not, Option, none, some, List, [], ◌∷◌, ◌++◌, String, str_eq, str_append,
  contains, ◌&&◌, ◌||◌, if◌then◌else◌, map, any, is_some,
}
use backend_sandbox_service.Errors.{
  Done, Exc, validation_error, git_error, Result, ok, err, Exec, lift, gets, modify, when, ◌>>=◌,
  ◌>>◌, pure, raise_if, is_git,
}

module _ (platform : Platform) where
  -- `load_definition`
  unfoldable pub load_definition : String → Result TopologyDefinition
  unfolding map_flavors
  load_definition text = elim (platform.load_topology text) [
    | none ↦ err validation_error
    | some top_def ↦
        let renamed = platform.image_name_replace top_def in
        ok (record renamed {
          hosts = map_flavors platform.flavor_mapping renamed.hosts;
          routers = map_flavors platform.flavor_mapping renamed.routers;
        })
  ]

  unfoldable pub load_docker_containers : String → Result DockerContainers
  load_docker_containers text = elim (platform.load_containers text) [
    | none ↦ err validation_error
    | some containers ↦ ok containers
  ]

  -- The part of the validation that asks the cloud.
  unfoldable pub validate_resources : TopologyDefinition → List String → List String → Result Done
  unfolding check_each flavors_of images_of
  validate_resources top_def flavors images =
      check_each (λ flavor. contains flavor flavors)
        (flavors_of top_def.hosts ++ flavors_of top_def.routers)
      then check_each (λ image. contains image images)
          (images_of top_def.hosts ++ images_of top_def.routers)

  -- `validate_topology_definition`
  unfoldable pub validate_topology_definition : TopologyDefinition → Result Done
  unfolding check_each validate_resources
  validate_topology_definition top_def =
      check_each (λ group. not (contains group default_hosts_groups)) top_def.groups
      then elim platform.flavors [
        | err e ↦ err e
        | ok flavors ↦ elim platform.images [
          | err e ↦ err e
          | ok images ↦ validate_resources top_def flavors images
        ]
      ]

  -- `get_definition`, from the file on.
  unfoldable pub fetch_definition : String → String → DefinitionAction TopologyDefinition
  fetch_definition url rev_sha = do
    text ← lift (get_file (platform.git url) "topology.yml" rev_sha)
    top_def ← lift (load_definition text)
    lift (validate_topology_definition top_def)
    modify (λ s. record s { cache = (cache_key url rev_sha, top_def) ∷ s.cache })
    pure top_def

  unfoldable pub look_up : Bool → String → String → DefinitionAction (Option TopologyDefinition)
  unfolding cached cache_key
  look_up true url rev_sha s = (ok none, s)
  look_up false url rev_sha s = (ok (cached (cache_key url rev_sha) s.cache), s)

  -- `get_definition`
  unfoldable pub get_definition : String → String → Bool → DefinitionAction TopologyDefinition
  get_definition url rev force_refresh = do
    git_type ← lift (get_def_provider (platform.git url) url)
    rev_sha ← lift (get_rev_sha git_type platform.topology_cache_mode (platform.git url) rev)
    found ← look_up force_refresh url rev_sha
    λ s. elim found [ some top_def ↦ (ok top_def, s) | none ↦ fetch_definition url rev_sha s ]

  -- The file of a provider that may not be had.
  unfoldable pub provided_file : String → String → String → Result String
  unfolding get_def_provider get_file
  provided_file url path rev = elim (get_def_provider (platform.git url) url) [
    | err e ↦ err e
    | ok _ ↦ get_file (platform.git url) path rev
  ]

  -- `get_containers`: there are none where git fails.
  unfoldable pub get_containers : String → String → Result (Option DockerContainers)
  unfolding provided_file load_docker_containers
  get_containers url rev = elim (provided_file url "containers.yml" rev) [
    | err e ↦ if is_git e then ok none else err e
    | ok text ↦ elim (load_docker_containers text) [
      | err e ↦ err e
      | ok containers ↦ ok (some containers)
    ]
  ]

  -- `get_dockerfile`: `os.path.join(path, 'Dockerfile')`
  unfoldable pub get_dockerfile : String → String → String → Result String
  unfolding provided_file
  get_dockerfile url rev path = provided_file url (platform.join_path path "Dockerfile") rev

  -- The body of the loop over the containers.
  unfoldable pub check_dockerfile : String → String → Option String → Result Done
  unfolding get_dockerfile
  check_dockerfile url rev none = ok tt
  check_dockerfile url rev (some path) = elim (str_eq path "") [
    | true ↦ ok tt
    | false ↦ elim (get_dockerfile url rev path) [
      | ok _ ↦ ok tt
      | err e ↦ err (if is_git e then validation_error else e)
    ]
  ]

  unfoldable pub check_container : String → String → Container → Result Done
  unfolding is_set check_dockerfile
  check_container url rev container =
      elim (not (is_set container.image) && not (is_set container.dockerfile)
        || is_set container.image && is_set container.dockerfile) [
          | true ↦ err validation_error
          | false ↦ check_dockerfile url rev container.dockerfile
        ]

  unfoldable pub check_containers : String → String → List Container → Result Done
  unfolding check_container
  check_containers url rev [] = ok tt
  check_containers url rev (container ∷ containers) =
      check_container url rev container then check_containers url rev containers

  unfoldable pub is_mapped : List String → List String → ContainerMapping → Bool
  is_mapped containers hosts mapping =
      contains mapping.container containers && contains mapping.host hosts

  -- `validate_docker_containers`, of the definition and the containers.
  unfoldable pub validate_containers :
      String → String → TopologyDefinition → DockerContainers → Result Done
  unfolding check_containers check_each is_mapped names_of container_names
  validate_containers url rev top_def containers =
      check_containers url rev containers.containers
      then check_each (is_mapped (container_names containers.containers) (names_of top_def.hosts))
          containers.container_mappings

  unfoldable pub validate_docker_containers : String → String → DefinitionAction Done
  validate_docker_containers url rev = do
    top_def ← get_definition url rev false
    found ← lift (get_containers url rev)
    λ s. elim found [
      | none ↦ (ok tt, s)
      | some containers ↦ (validate_containers url rev top_def containers, s)
    ]

  unfoldable pub is_fresh_import : TopologyCacheMode → Bool
  is_fresh_import fresh_import = true
  is_fresh_import _ = false

  unfoldable pub is_github : GitType → Bool
  is_github github = true
  is_github gitlab = false

  -- UniqueTogetherValidator of the serializer
  unfoldable pub is_unique : Definition → List Definition → Bool
  is_unique definition definitions =
      not (any (λ d. str_eq d.url definition.url && str_eq d.rev definition.rev) definitions)

  unfoldable pub save_definition : Definition → DefinitionAction Definition
  unfolding is_unique
  save_definition definition s =
      elim (platform.fields_valid definition && is_unique definition s.definitions) [
        | false ↦ (err validation_error, s)
        | true ↦ (ok definition, record s { definitions = s.definitions ++ definition ∷ [] })
      ]

  -- `create_definition`
  unfoldable pub create_definition : String → String → DefinitionAction Definition
  create_definition url rev = do
    top_def ←
        get_definition url rev
          (is_github (get_git_type url) && is_fresh_import platform.topology_cache_mode)
    lift (validate_topology_definition top_def)
    validate_docker_containers url rev
    lift (platform.validate_in_cloud top_def)
    save_definition (record { name = top_def.name; url = url; rev = rev })
