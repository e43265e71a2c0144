-- ===== src/Examples/DefinitionRuns.antt =====
-- A definition in a GitHub repository, with one container.
use backend_sandbox_service.Prelude.{
  ◌≡◌, refl, true, false, none, some, [], ◌∷◌, String, ◌⊎◌, str_append,
}
use backend_sandbox_service.Errors.{
  Result, ok, err, is_ok, validation_error, git_error, value_error,
}
use backend_sandbox_service.Definitions.{
  TopologyDefinition, DockerContainers, DefinitionState, Platform, GitServer, fresh_import,
  get_rest_server, get_def_provider, get_definition, create_definition,
  validate_topology_definition, validate_containers, fetch_definition, get_containers, get_file,
  get_rev_sha, is_fresh_import, is_github, load_definition, look_up, save_definition,
  validate_docker_containers,
}
use backend_sandbox_service.Definitions.Created.{named, ContainersFit, create_definition-created}

abbrev pub url : String
url = "https://github.com/a/b.git"

abbrev pub topology : TopologyDefinition
topology = record {
  name = "small";
  hosts = record { name = "server"; flavor = "standard.small"; image = "debian" } ∷ [];
  routers = record { name = "router"; flavor = "tiny"; image = "debian" } ∷ [];
  groups = "web" ∷ [];
}

abbrev pub containers : DockerContainers
containers = record {
  containers = record { name = "nginx"; image = some "nginx:1"; dockerfile = none } ∷ [];
  container_mappings = record { container = "nginx"; host = "server" } ∷ [];
}

abbrev pub server : GitServer
server = record {
  has_repo = true;
  branches = some [];
  tags = some [];
  commit = λ rev. some rev;
  contents = λ path rev. some path;
}

abbrev pub platform : Platform
platform = record {
  topology_cache_mode = fresh_import;
  flavor_mapping = ("tiny", "standard.small") ∷ [];
  flavors = ok ("standard.small" ∷ []);
  images = ok ("debian" ∷ []);
  load_topology = λ _. some topology;
  load_containers = λ _. some containers;
  image_name_replace = λ top_def. top_def;
  validate_in_cloud = λ _. ok tt;
  fields_valid = λ _. true;
  join_path = λ dir file. str_append dir (str_append "/" file);
  git = λ _. server;
}

-- The topology as it is loaded, with the flavor that the configuration gives.
abbrev pub loaded : TopologyDefinition
loaded = record topology {
  routers = record { name = "router"; flavor = "standard.small"; image = "debian" } ∷ [];
}

abbrev pub empty : DefinitionState
empty = record { cache = []; definitions = [] }

rest_server : get_rest_server "https://gitlab.com/a/b.git" ≡ ok "https://gitlab.com/"
unfolding get_rest_server
rest_server = refl

rest_server_without_path : get_rest_server "https://gitlab.com" ≡ err value_error
unfolding get_rest_server
rest_server_without_path = refl

not_cloned_with_https : get_def_provider server "git@gitlab.com:a/b.git" ≡ err git_error
unfolding get_def_provider
not_cloned_with_https = refl

created :
    (create_definition platform url "main" empty).0
    ≡ ok (record { name = "small"; url = url; rev = "main" })
unfolding create_definition get_definition get_def_provider get_rev_sha look_up is_github
    is_fresh_import fetch_definition get_file load_definition validate_topology_definition
    validate_docker_containers get_containers validate_containers save_definition
created = refl

refused : validate_topology_definition platform topology ≡ err validation_error
unfolding validate_topology_definition
refused = refl

create_definition-created_example :
    ((is_ok (create_definition platform url "main" empty).0 ≡ false)
      × ((create_definition platform url "main" empty).1.definitions ≡ []))
    ⊎ ((top_def : TopologyDefinition) × ((create_definition platform url "main" empty).0
          ≡ ok (named platform url "main" top_def))
        × ((create_definition platform url "main" empty).1.definitions
            ≡ named platform url "main" top_def ∷ [])
        × (false ≡ false)
        × (validate_topology_definition platform top_def ≡ ok tt)
        × (◌≡◌ {A = Result Unit} (ok tt) (ok tt))
        × ContainersFit platform url "main" top_def)
create_definition-created_example = create_definition-created platform url "main" empty
