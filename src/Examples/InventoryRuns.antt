-- ===== src/Examples/InventoryRuns.antt =====
-- The inventory of a sandbox with a server, a router and one container.
use backend_sandbox_service.Prelude.{
  str_append, ◌≡◌, refl, true, false, none, some, List, [], ◌∷◌, String,
}
use backend_sandbox_service.Errors.{ok}
use backend_sandbox_service.Definitions.{
  TopologyDefinition, DockerContainers, Platform, fresh_import, validate_containers,
}
use backend_sandbox_service.Inventory.{
  RouterMapping, router_of, network_to_router_mapping, man_routes, build_routing,
  add_monitored_group, normalize_address, ssh, winrm, TopologyNode, TopologyInstance,
  InventoryConfig, make_inventory, empty_inventory, Group, attach_keys, add_docker_hosts_group,
  add_host, add_user_network_ips, add_vpn_entrypoints_group, add_windows_hosts_group, check_found,
  create_groups, create_hosts, create_user_defined_groups, mgmt_address, set_ip_forward,
  update_docker_hosts,
}
use backend_sandbox_service.Inventory.Known.{knows}
use backend_sandbox_service.Inventory.Preference.{first_router, network_to_router_mapping-first}
use backend_sandbox_service.Inventory.Complete.{
  inventory_names, make_inventory-validated, fits_together,
}

abbrev mappings : List RouterMapping
mappings =
    record { router = "r2"; network = "lan" }
    ∷ record { router = "r1"; network = "lan" }
    ∷ record { router = "r2"; network = "dmz" }
    ∷ []

routes :
    man_routes
      (network_to_router_mapping mappings)
      (λ _. ok "255.255.255.0")
      ("r1" ∷ "r2" ∷ [])
      (record { router = "r1"; ip = "10.0.0.1"; networks = "lan" ∷ [] }
        ∷ record { router = "r2"; ip = "10.0.0.2"; networks = "lan" ∷ "dmz" ∷ [] }
        ∷ [])
    ≡ ok (
        record { network = "lan"; mask = "255.255.255.0"; gateway_ip = "10.0.0.1" }
        ∷ record { network = "dmz"; mask = "255.255.255.0"; gateway_ip = "10.0.0.2" }
        ∷ [])
unfolding man_routes network_to_router_mapping
routes = refl

network_to_router_mapping-first_example :
    router_of "lan" (network_to_router_mapping mappings) ≡ first_router "lan" mappings
network_to_router_mapping-first_example = network_to_router_mapping-first "lan" mappings

abbrev man : TopologyNode
man = record {
  name = "man";
  mgmt_user = "debian";
  mgmt_protocol = ssh;
  hidden = false;
  image = "debian";
}

abbrev server : TopologyNode
server = record man { name = "server"; mgmt_protocol = winrm; hidden = true; image = "windows" }

abbrev router : TopologyNode
router = record man { name = "router" }

abbrev containers : DockerContainers
containers = record {
  containers = record { name = "nginx"; image = some "nginx:1"; dockerfile = none } ∷ [];
  container_mappings = record { container = "nginx"; host = "server" } ∷ [];
}

abbrev topology : TopologyInstance
topology = record {
  ip = "10.9.0.1";
  man = man;
  nodes = man ∷ server ∷ router ∷ [];
  hosts = server ∷ [];
  routers = router ∷ [];
  mgmt_links = ("server", "10.0.0.5") ∷ ("router", "10.0.0.6") ∷ [];
  user_accessible = "server" ∷ [];
  user_links = ("server", "10.1.0.5") ∷ ("uan", "10.1.0.9") ∷ [];
  groups = record { name = "web"; nodes = "server" ∷ [] } ∷ [];
  containers = some containers;
  vpn_entrypoints = "server" ∷ "gone" ∷ [];
  man_link = ok tt;
  router_links = record { router = "router"; ip = "10.0.1.1"; networks = "lan" ∷ [] } ∷ [];
  router_mappings = record { router = "router"; network = "lan" } ∷ [];
  monitors_tcp = true;
  monitored_tcp = record { node = "server"; addresses = none ∷ some "10.1.0.5" ∷ [] } ∷ [];
  monitors_icmp = false;
  monitored_icmp = [];
}

abbrev config : InventoryConfig
config = record {
  windows_images = ok ("windows" ∷ []);
  proxy_jump_host = "jump";
  proxy_jump_user = "crczp";
  strip = λ text. text;
  ip_network = λ address. some (str_append address "/32");
  is_fqdn = λ _. false;
  mask_of = λ _. ok "255.255.255.0";
}

abbrev groups_of : List Group → List (String × List String)
groups_of [] = []
groups_of (g ∷ gs) = (g.name, g.hosts) ∷ groups_of gs

made :
    groups_of (make_inventory config topology (empty_inventory config topology)).1.groups
    ≡ ("hosts", "server" ∷ [])
      ∷ ("management", "man" ∷ [])
      ∷ ("routers", "router" ∷ [])
      ∷ ("winrm_nodes", "server" ∷ [])
      ∷ ("ssh_nodes", "router" ∷ [])
      ∷ ("user_accessible_nodes", "server" ∷ [])
      ∷ ("hidden_hosts", "server" ∷ [])
      ∷ ("docker_hosts", "server" ∷ [])
      ∷ ("monitored_hosts_tcp", "server" ∷ [])
      ∷ ("windows_hosts", "server" ∷ [])
      ∷ ("vpn_entrypoints", "server" ∷ [])
      ∷ ("web", "server" ∷ [])
      ∷ []
unfolding make_inventory build_routing add_monitored_group add_host create_hosts set_ip_forward
    create_groups empty_inventory add_docker_hosts_group add_windows_hosts_group
    add_vpn_entrypoints_group create_user_defined_groups add_user_network_ips check_found
    update_docker_hosts
made = refl

abbrev platform : Platform
platform = record {
  topology_cache_mode = fresh_import;
  flavor_mapping = [];
  flavors = ok [];
  images = ok [];
  load_topology = λ _. none;
  load_containers = λ _. none;
  image_name_replace = λ top_def. top_def;
  validate_in_cloud = λ _. ok tt;
  fields_valid = λ _. true;
  join_path = λ dir _. dir;
  git = λ _. record {
    has_repo = true;
    branches = some [];
    tags = some [];
    commit = λ rev. some rev;
    contents = λ path _. some path;
  };
}

abbrev top_def : TopologyDefinition
top_def = record {
  name = "small";
  hosts = record { name = "server"; flavor = "small"; image = "windows" } ∷ [];
  routers = [];
  groups = [];
}

make_inventory-validated_example :
    ((make_inventory config topology (empty_inventory config topology)).0 ≡ ok tt)
    × (knows
          (inventory_names config topology)
          (make_inventory config topology (empty_inventory config topology)).1.hosts
        ≡ true)
unfolding validate_containers inventory_names fits_together mgmt_address first_router
    normalize_address
make_inventory-validated_example =
    make_inventory-validated config topology platform "https://git/a.git" "main" top_def containers
      refl refl refl refl

keys :
    attach_keys
      (("server", some "key") ∷ ("gone", some "key") ∷ [])
      (record { name = "vpn_entrypoints"; hosts = "server" ∷ []; hosts_vars = [] })
    ≡ record {
      name = "vpn_entrypoints";
      hosts = "server" ∷ [];
      hosts_vars = ("server", "key") ∷ [];
    }
unfolding attach_keys
keys = refl
