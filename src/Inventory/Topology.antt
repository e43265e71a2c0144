-- ===== src/Inventory/Topology.antt =====
-- The topology instance that an inventory is made of, and the nodes that its groups ask for:
-- crczp/sandbox_ansible_app/lib/inventory.py and lib/group_builders.py.
use backend_sandbox_service.Prelude.{
  Bool, true, false, not, Option, none, some, List, [], ◌∷◌, String, str_eq, contains, is_some,
  ◌&&◌, if◌then◌else◌,
}
use backend_sandbox_service.Definitions.{ContainerMapping, DockerContainers}
use backend_sandbox_service.Errors.{Done, key_error, value_error, Result, ok, err}
use backend_sandbox_service.Inventory.Hosts.{Host, find_host}
use backend_sandbox_service.Inventory.Routing.{RouterMapping, RouterLink}

pub data Protocol : Type 0 where
  ssh winrm : Protocol

-- A node of the topology instance.
pub record TopologyNode : Type 0 where
  pub name : String
  pub mgmt_user : String
  pub mgmt_protocol : Protocol
  pub hidden : Bool
  pub image : String

pub record NodeGroup : Type 0 where
  pub name : String
  pub nodes : List String

-- A monitored node, with the addresses of its targets.
pub record MonitoredNode : Type 0 where
  pub node : String
  pub addresses : List (Option String)

-- The topology instance, by what the inventory asks of it: the nodes with the management node among
-- them, the addresses of the links to the management network, the names of the nodes on the links to
-- user-accessible networks, the links of the user networks, the link of the management node to the
-- routers, the links of the routers, and the monitored nodes, with whether the definition asks for
-- them. The variables of interfaces and of targets are left out.
pub record TopologyInstance : Type 0 where
  pub ip : String
  pub man : TopologyNode
  pub nodes : List TopologyNode
  pub hosts : List TopologyNode
  pub routers : List TopologyNode
  pub mgmt_links : List (String × String)
  pub user_accessible : List String
  pub user_links : List (String × String)
  pub groups : List NodeGroup
  pub containers : Option DockerContainers
  pub vpn_entrypoints : List String
  pub man_link : Result Done
  pub router_links : List RouterLink
  pub router_mappings : List RouterMapping
  pub monitors_tcp : Bool
  pub monitored_tcp : List MonitoredNode
  pub monitors_icmp : Bool
  pub monitored_icmp : List MonitoredNode

-- The names of the images that have Windows, where the images can be listed, the host of the proxy
-- jump of the configuration, and what the standard library answers on texts: without the spaces
-- around them, the address or network that they stand for with its prefix length, whether they match
-- VALID_FQDN_REGEX, and the mask of the address of a network.
pub record InventoryConfig : Type 0 where
  pub windows_images : Result (List String)
  pub proxy_jump_host : String
  pub proxy_jump_user : String
  pub strip : String → String
  pub ip_network : String → Option String
  pub is_fqdn : String → Bool
  pub mask_of : String → Result String

unfoldable pub node_names : List TopologyNode → List String
node_names [] = []
node_names (node ∷ nodes) = node.name ∷ node_names nodes

unfoldable pub is_winrm : Protocol → Bool
is_winrm winrm = true
is_winrm ssh = false

-- The nodes other than the management node that are reached over WinRM, or over SSH.
unfoldable pub over_protocol : Bool → String → List TopologyNode → List String
unfolding is_winrm
over_protocol wanted man [] = []
over_protocol wanted man (node ∷ nodes) =
    let rest = over_protocol wanted man nodes in
    if (if wanted then is_winrm node.mgmt_protocol else not (is_winrm node.mgmt_protocol))
      && not (str_eq node.name man)
    then node.name ∷ rest
    else rest

unfoldable pub hidden_names : List TopologyNode → List String
hidden_names [] = []
hidden_names (node ∷ nodes) =
    let rest = hidden_names nodes in if node.hidden then node.name ∷ rest else rest

unfoldable pub mapped_hosts : List ContainerMapping → List String
mapped_hosts [] = []
mapped_hosts (mapping ∷ mappings) = mapping.host ∷ mapped_hosts mappings

-- The Windows nodes that have a host.
unfoldable pub windows_names : List String → List Host → List TopologyNode → List String
unfolding find_host
windows_names images hosts [] = []
windows_names images hosts (node ∷ nodes) =
    let rest = windows_names images hosts nodes in
    if contains node.image images && is_some (find_host node.name hosts)
    then node.name ∷ rest
    else rest

unfoldable pub known_names : List Host → List String → List String
unfolding find_host
known_names hosts [] = []
known_names hosts (name ∷ names) =
    let rest = known_names hosts names in
    if is_some (find_host name hosts) then name ∷ rest else rest

-- `_normalize_address`
unfoldable pub normalize_address : InventoryConfig → Option String → Result (Option String)
normalize_address config none = ok none
normalize_address config (some address) =
    if str_eq (config.strip address) ""
    then err value_error
    else elim (config.ip_network (config.strip address)) [
      | some network ↦ ok (some network)
      | none ↦
          if config.is_fqdn (config.strip address)
          then ok (some (config.strip address))
          else err value_error
    ]

unfoldable pub normalize_all : InventoryConfig → List (Option String) → Result Done
unfolding normalize_address
normalize_all config [] = ok tt
normalize_all config (address ∷ addresses) =
    let rest = normalize_all config addresses in
    elim (normalize_address config address) [ err e ↦ err e | ok _ ↦ rest ]

-- The hosts of the monitored nodes: a KeyError where there is no host.
unfoldable pub pick_monitored :
    InventoryConfig → List Host → List MonitoredNode → Result (List String)
unfolding find_host normalize_all
pick_monitored config hosts [] = ok []
pick_monitored config hosts (monitored ∷ nodes) =
    let rest = pick_monitored config hosts nodes in
    elim (find_host monitored.node hosts) [
      | none ↦ err key_error
      | some host ↦ elim (normalize_all config monitored.addresses) [
        | err e ↦ err e
        | ok _ ↦ elim rest [ ok picked ↦ ok (host.name ∷ picked) | err e ↦ err e ]
      ]
    ]

unfoldable pub is_empty_list : List String → Bool
is_empty_list [] = true
is_empty_list (_ ∷ _) = false

-- `mgmt_links[node.name]`, where the management node has the address of the instance.
unfoldable pub mgmt_address : TopologyInstance → String → List (String × String) → Result String
mgmt_address topology name [] =
    if str_eq topology.man.name name then ok topology.ip else err key_error
mgmt_address topology name ((node, ip) ∷ links) =
    let rest = mgmt_address topology name links in
    if str_eq topology.man.name name
    then ok topology.ip
    else elim rest [ ok later ↦ ok later | err e ↦ if str_eq node name then ok ip else err e ]
