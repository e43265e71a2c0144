-- ===== src/Definitions/Topologies.antt =====
-- Definitions of topologies and containers, the state of the service that keeps them, and what it
-- asks: crczp/sandbox_definition_app/models.py and lib/definitions.py.
use backend_sandbox_service.Prelude.{
  Bool, false, not, Option, none, some, List, [], ◌∷◌, String, str_eq, str_append, if◌then◌else◌,
}
use backend_sandbox_service.Errors.{Done, validation_error, Result, ok, err, Exec}
use backend_sandbox_service.Definitions.Providers.{TopologyCacheMode, GitServer}

-- A host or a router.
pub record Node : Type 0 where
  pub name : String
  pub flavor : String
  pub image : String

pub record TopologyDefinition : Type 0 where
  pub name : String
  pub hosts : List Node
  pub routers : List Node
  pub groups : List String

pub record Container : Type 0 where
  pub name : String
  pub image : Option String
  pub dockerfile : Option String

pub record ContainerMapping : Type 0 where
  pub container : String
  pub host : String

pub record DockerContainers : Type 0 where
  pub containers : List Container
  pub container_mappings : List ContainerMapping

-- A row of Definition.
pub record Definition : Type 0 where
  pub name : String
  pub url : String
  pub rev : String

pub record DefinitionState : Type 0 where
  pub cache : List (String × TopologyDefinition)
  pub definitions : List Definition

abbrev pub DefinitionAction : Type 0 → Type 0
DefinitionAction A = Exec DefinitionState A

-- The configuration, the cloud, the readers of YAML files, the renaming of images by the naming
-- strategy, if one is set, the checks of single fields by the REST framework, the joining of paths,
-- and the git servers.
pub record Platform : Type 0 where
  pub topology_cache_mode : TopologyCacheMode
  pub flavor_mapping : List (String × String)
  pub flavors : Result (List String)
  pub images : Result (List String)
  pub load_topology : String → Option TopologyDefinition
  pub load_containers : String → Option DockerContainers
  pub image_name_replace : TopologyDefinition → TopologyDefinition
  pub validate_in_cloud : TopologyDefinition → Result Done
  pub fields_valid : Definition → Bool
  pub join_path : String → String → String
  pub git : (url : String) → GitServer

-- DefaultAnsibleHostsGroups
abbrev pub default_hosts_groups : List String
default_hosts_groups =
    "hosts" ∷ "management" ∷ "routers" ∷ "ssh_nodes" ∷ "winrm_nodes" ∷ "user_accessible_nodes"
    ∷ "hidden_hosts" ∷ "docker_hosts" ∷ "monitored_hosts_tcp" ∷ "monitored_hosts_icmp"
    ∷ "windows_hosts" ∷ "vpn_entrypoints" ∷ []

-- A loop that raises ValidationError at the first member that fails the test.
unfoldable pub check_each : {A : Type 0} → (A → Bool) → List A → Result Done
check_each accepted [] = ok tt
check_each accepted (x ∷ xs) =
    let rest = check_each accepted xs in if accepted x then rest else err validation_error

infixl 5 ◌then◌
abbrev pub ◌then◌ : {A B : Type 0} → Result A → Result B → Result B
ok _ then r = r
err e then r = err e

unfoldable pub flavors_of : List Node → List String
flavors_of [] = []
flavors_of (node ∷ nodes) = node.flavor ∷ flavors_of nodes

unfoldable pub images_of : List Node → List String
images_of [] = []
images_of (node ∷ nodes) = node.image ∷ images_of nodes

unfoldable pub names_of : List Node → List String
names_of [] = []
names_of (node ∷ nodes) = node.name ∷ names_of nodes

unfoldable pub container_names : List Container → List String
container_names [] = []
container_names (container ∷ containers) = container.name ∷ container_names containers

-- `flavor_mapping[host.flavor]` where it has an entry.
unfoldable pub mapped : List (String × String) → String → String
mapped [] flavor = flavor
mapped ((from, to) ∷ mapping) flavor =
    let rest = mapped mapping flavor in if str_eq from flavor then to else rest

unfoldable pub map_flavors : List (String × String) → List Node → List Node
unfolding mapped
map_flavors mapping [] = []
map_flavors mapping (node ∷ nodes) =
    record node { flavor = mapped mapping node.flavor } ∷ map_flavors mapping nodes

-- `if container.image`
unfoldable pub is_set : Option String → Bool
is_set none = false
is_set (some text) = not (str_eq text "")

unfoldable pub cached : String → List (String × TopologyDefinition) → Option TopologyDefinition
cached key [] = none
cached key ((other, top_def) ∷ cache) =
    let rest = cached key cache in if str_eq other key then some top_def else rest

unfoldable pub cache_key : String → String → String
cache_key url rev_sha =
    str_append "definition-"
      (str_append url (str_append "-rev-sha-" (str_append rev_sha "-topology")))
