-- ===== src/Inventory.antt =====
-- The Ansible inventory of a sandbox: crczp/sandbox_ansible_app/lib/inventory.py,
-- lib/group_builders.py and the end of `create_inventory` of lib/ansible.py.
mod Routing
mod Hosts
mod Topology
pub mod Preference
pub mod Known
pub mod Routable
mod Builders
pub mod Complete
unfoldable pub use Routing.*
unfoldable pub use Hosts.*
unfoldable pub use Topology.*
use backend_sandbox_service.Prelude.{
  ℕ, Bool, true, false, not, Option, none, some, List, [], ◌∷◌, ◌++◌, String, str_eq, str_append,
  contains, is_some, ◌&&◌, ◌||◌, if◌then◌else◌, filter,
}
use backend_sandbox_service.Definitions.{ContainerMapping, DockerContainers, is_set}
use backend_sandbox_service.Errors.{
  Done, key_error, ansible_error, assertion_error, Result, ok, err, Exec, pure, raise, lift, gets,
  modify, when, raise_if, catch, ◌>>=◌, ◌>>◌,
}

module _ (config : InventoryConfig) (topology : TopologyInstance) where
  -- `Routing.__init__`, with `_set_sandbox_routing`.
  unfoldable pub build_routing : InventoryAction Done
  unfolding man_routes network_to_router_mapping node_names
  build_routing = do
    lift topology.man_link
    raise_if (not (contains topology.man.name (node_names topology.nodes))) key_error
    routes ← lift (
        man_routes (network_to_router_mapping topology.router_mappings) config.mask_of
          (node_names topology.nodes) topology.router_links)
    modify (λ s. record s { routes = routes })

  -- `_create_hosts`
  unfoldable pub create_hosts : List TopologyNode → InventoryAction Done
  unfolding mgmt_address add_host new_host
  create_hosts [] = pure tt
  create_hosts (node ∷ nodes) = do
    address ← lift (mgmt_address topology node.name topology.mgmt_links)
    add_host (new_host node.name address node.mgmt_user)
    create_hosts nodes

  unfoldable pub forward : Host → Host
  forward host = record host { ip_forward = true }

  unfoldable pub forward_all : List String → List Host → List Host
  unfolding change_host forward
  forward_all [] hosts = hosts
  forward_all (name ∷ names) hosts = forward_all names (change_host forward name hosts)

  -- `_set_ip_forward`
  unfoldable pub set_ip_forward : InventoryAction Done
  unfolding forward_all node_names
  set_ip_forward = modify (λ s. record s {
    hosts = forward_all (node_names topology.routers ++ topology.man.name ∷ []) s.hosts;
  })

  -- `_add_docker_hosts_group`; the set of hosts stands here in the order of first occurrence.
  unfoldable pub add_docker_hosts_group : InventoryAction Done
  unfolding mapped_hosts pick_hosts put_names add_group
  add_docker_hosts_group = elim topology.containers [
    | none ↦ modify (λ s. record s { docker_hosts = none })
    | some containers ↦ do
      hosts ← gets (λ s. s.hosts)
      docker_hosts ← lift (pick_hosts hosts (mapped_hosts containers.container_mappings))
      modify (λ s. record s { docker_hosts = some (put_names docker_hosts []) })
      add_group "docker_hosts" docker_hosts
  ]

  -- `_add_monitored_hosts_tcp_group` and `_add_monitored_hosts_icmp_group`; the builder that
  -- comes next, `_add_monitored_hosts_http_vars`, only adds variables.
  unfoldable pub add_monitored_group : String → Bool → List MonitoredNode → InventoryAction Done
  unfolding pick_monitored add_group
  add_monitored_group name monitors nodes = when monitors (do
    hosts ← gets (λ s. s.hosts)
    monitored ← lift (pick_monitored config hosts nodes)
    add_group name monitored)

  -- `_add_windows_hosts_group`: a failure to list the images gives no group.
  unfoldable pub add_windows_hosts_group : InventoryAction Done
  unfolding windows_names add_group is_empty_list
  add_windows_hosts_group s = elim config.windows_images [
    | err _ ↦ (ok tt, s)
    | ok images ↦
        let names = windows_names images s.hosts topology.nodes in
        when (not (is_empty_list names)) (add_group "windows_hosts" names) s
  ]

  -- `_add_vpn_entrypoints_group`
  unfoldable pub add_vpn_entrypoints_group : InventoryAction Done
  unfolding known_names add_group is_empty_list
  add_vpn_entrypoints_group s =
      when (not (is_empty_list topology.vpn_entrypoints))
        (add_group "vpn_entrypoints" (known_names s.hosts topology.vpn_entrypoints)) s

  -- `_create_groups`: the builders, in order.
  unfoldable pub create_groups : InventoryAction Done
  unfolding add_picked add_group node_names over_protocol hidden_names
  create_groups = do
    add_picked "hosts" (node_names topology.hosts)
    add_group "management" (topology.man.name ∷ [])
    add_picked "routers" (node_names topology.routers)
    add_picked "winrm_nodes" (over_protocol true topology.man.name topology.nodes)
    add_picked "ssh_nodes" (over_protocol false topology.man.name topology.nodes)
    add_picked "user_accessible_nodes" topology.user_accessible
    add_picked "hidden_hosts" (hidden_names topology.hosts)
    add_docker_hosts_group
    add_monitored_group "monitored_hosts_tcp" topology.monitors_tcp topology.monitored_tcp
    add_monitored_group "monitored_hosts_icmp" topology.monitors_icmp topology.monitored_icmp
    add_windows_hosts_group
    add_vpn_entrypoints_group

  -- `_create_user_defined_groups`
  unfoldable pub create_user_defined_groups : List NodeGroup → InventoryAction Done
  unfolding add_picked
  create_user_defined_groups [] = pure tt
  create_user_defined_groups (group ∷ groups) =
      add_picked group.name group.nodes >> create_user_defined_groups groups

  unfoldable pub with_user_ip : String → Host → Host
  with_user_ip ip host = record host { user_network_ip = some ip }

  -- `_add_user_network_ip_to_user_defined_nodes`
  unfoldable pub add_user_network_ips : List (String × String) → InventoryAction Done
  unfolding change_host with_user_ip find_host
  add_user_network_ips [] s = (ok tt, s)
  add_user_network_ips ((name, ip) ∷ links) s = elim (str_eq name "uan") [
    | true ↦ add_user_network_ips links s
    | false ↦ elim (find_host name s.hosts) [
      | none ↦ (err key_error, s)
      | some _ ↦
          add_user_network_ips links
            (record s { hosts = change_host (with_user_ip ip) name s.hosts })
    ]
  ]

  unfoldable pub with_containers_path : Host → Host
  with_containers_path host = record host {
    containers_path = some (str_append "/root/containers/" (str_append host.name "/"));
  }

  unfoldable pub give_paths : List String → List Host → List Host
  unfolding with_containers_path
  give_paths docker_hosts [] = []
  give_paths docker_hosts (host ∷ hosts) =
      (if contains host.name docker_hosts then with_containers_path host else host)
      ∷ give_paths docker_hosts hosts

  -- `_update_docker_hosts`, where there are containers.
  unfoldable pub update_docker_hosts : InventoryAction Done
  unfolding give_paths
  update_docker_hosts s = elim topology.containers [
    | none ↦ (ok tt, s)
    | some _ ↦ elim s.docker_hosts [
      | none ↦ (err assertion_error, s)
      | some docker_hosts ↦ (ok tt, record s { hosts = give_paths docker_hosts s.hosts })
    ]
  ]

  -- A host and a group that the constructor looks up before it adds variables to them.
  unfoldable pub check_found : InventoryAction Done
  unfolding find_host find_group
  check_found s = elim (find_host "proxy-jump" s.hosts) [
    | none ↦ (err ansible_error, s)
    | some _ ↦ elim (find_group "winrm_nodes" s.groups) [
      | none ↦ (err ansible_error, s)
      | some _ ↦ (ok tt, s)
    ]
  ]

  -- `Inventory.__init__`
  unfoldable pub make_inventory : InventoryAction Done
  make_inventory = do
    add_host (new_host "proxy-jump" config.proxy_jump_host config.proxy_jump_user)
    build_routing
    create_hosts topology.nodes
    set_ip_forward
    create_groups
    create_user_defined_groups topology.groups
    add_user_network_ips topology.user_links
    check_found
    update_docker_hosts

  unfoldable pub empty_inventory : InventoryState
  empty_inventory = record { hosts = []; groups = []; docker_hosts = none; routes = [] }

-- The setup keys of the sandbox's NetBird rows, put on the group by `create_inventory`.
unfoldable pub attach_key : String → Option String → Group → Group
attach_key name none group = group
attach_key name (some key) group =
    if not (str_eq key "") && contains name group.hosts
    then record group { hosts_vars = (name, key) ∷ group.hosts_vars }
    else group

unfoldable pub attach_keys : List (String × Option String) → Group → Group
unfolding attach_key
attach_keys [] group = group
attach_keys ((name, key) ∷ rows) group = attach_keys rows (attach_key name key group)
