-- ===== src/Nodes/Topology.antt =====
-- The topology of a sandbox as it is shown: crczp/sandbox_instance_app/lib/topology.py.
use backend_sandbox_service.Prelude.{
  ◌≡◌, refl, Bool, true, false, not, ◌&&◌, Option, none, some, List, [], ◌∷◌, ◌++◌, String, str_eq,
  contains, all, any, arith, if◌then◌else◌,
}
use backend_sandbox_service.Errors.{Result, ok, err, is_ok, validation_error, Result-cases}
use backend_sandbox_service.Definitions.{Node}
use backend_sandbox_service.Nodes.Access.{Image, find_image_for_node, get_node_image_has_gui_access}
pub mod Images

-- Topology.HostNode
pub record HostNode : Type 0 where
  pub name : String
  pub os_type : String
  pub gui_access : Bool
  pub is_accessible : Bool
  pub ip : Option String

-- Topology.Subnet
pub record Subnet : Type 0 where
  pub name : String
  pub cidr : String
  pub hosts : List HostNode

-- Topology.RouterNode
pub record RouterNode : Type 0 where
  pub name : String
  pub os_type : String
  pub gui_access : Bool
  pub subnets : List Subnet
  pub is_accessible : Bool
  pub ip : Option String

-- A network of the topology instance, with the links of its visible hosts.
pub record ShownNetwork : Type 0 where
  pub name : String
  pub cidr : String
  pub accessible_by_user : Bool
  pub host_links : List (Node × Option String)

-- A router, with the networks of hosts that it is linked to, and its link to the WAN.
pub record ShownRouter : Type 0 where
  pub node : Node
  pub networks : List String
  pub wan_link : Option (Option String)

-- The visible parts of a topology instance.
pub record ShownInstance : Type 0 where
  pub visible_networks : List ShownNetwork
  pub visible_routers : List ShownRouter

-- `network.name.lower() == 'wan'`: these are the texts that `lower` makes `wan` of.
unfoldable pub is_wan_network : String → Bool
is_wan_network name =
    contains name ("wan" ∷ "Wan" ∷ "wAn" ∷ "waN" ∷ "WAn" ∷ "WaN" ∷ "wAN" ∷ "WAN" ∷ [])

-- A loop that appends what each round gives, and ends with the first exception.
unfoldable pub each : {A B : Type 0} → (A → Result B) → List A → Result (List B)
each f [] = ok []
each f (x ∷ xs) = elim (f x) [
  | err e ↦ err e
  | ok y ↦ elim (each f xs) [ err e ↦ err e | ok ys ↦ ok (y ∷ ys) ]
]

unfoldable pub host_node : List Image → Bool → Node × Option String → Result HostNode
unfolding find_image_for_node get_node_image_has_gui_access
host_node images accessible_by_user (node, ip) = elim (find_image_for_node node images) [
  | err e ↦ err e
  | ok image ↦ ok (record {
    name = node.name;
    os_type = image.os_type;
    gui_access = get_node_image_has_gui_access image;
    is_accessible = accessible_by_user;
    ip = ip;
  })
]

-- `_get_hosts_for_network`
unfoldable pub get_hosts_for_network : List Image → ShownNetwork → Result (List HostNode)
unfolding each host_node
get_hosts_for_network images network =
    each (host_node images network.accessible_by_user) network.host_links

-- `subnets_dict[network.name] = subnet`
unfoldable pub put_subnet : Subnet → List Subnet → List Subnet
put_subnet subnet [] = subnet ∷ []
put_subnet subnet (other ∷ subnets) =
    let rest = put_subnet subnet subnets in
    if str_eq other.name subnet.name then subnet ∷ subnets else other ∷ rest

unfoldable pub find_subnet : String → List Subnet → Option Subnet
find_subnet name [] = none
find_subnet name (subnet ∷ subnets) =
    let rest = find_subnet name subnets in if str_eq subnet.name name then some subnet else rest

-- `_create_subnets_with_hosts`, from the subnets that are there.
unfoldable pub create_subnets : List Image → List ShownNetwork → List Subnet → Result (List Subnet)
unfolding is_wan_network get_hosts_for_network put_subnet
create_subnets images [] subnets = ok subnets
create_subnets images (network ∷ networks) subnets = elim (is_wan_network network.name) [
  | true ↦ create_subnets images networks subnets
  | false ↦ elim (get_hosts_for_network images network) [
    | err e ↦ err e
    | ok hosts ↦
        create_subnets images networks
          (put_subnet (record { name = network.name; cidr = network.cidr; hosts = hosts }) subnets)
  ]
]

-- `_get_subnets_for_router`
unfoldable pub get_subnets_for_router : List String → List Subnet → List Subnet
unfolding is_wan_network find_subnet
get_subnets_for_router [] subnets = []
get_subnets_for_router (name ∷ names) subnets =
    let rest = get_subnets_for_router names subnets in
    if is_wan_network name
    then rest
    else elim (find_subnet name subnets) [ none ↦ rest | some subnet ↦ subnet ∷ rest ]

-- One round of `_create_routers_with_subnets`.
unfoldable pub router_node : List Image → List Subnet → ShownRouter → Result RouterNode
unfolding find_image_for_node get_node_image_has_gui_access get_subnets_for_router
router_node images subnets router = elim (find_image_for_node router.node images) [
  | err e ↦ err e
  | ok image ↦ ok (record {
    name = router.node.name;
    os_type = image.os_type;
    gui_access = get_node_image_has_gui_access image;
    subnets = get_subnets_for_router router.networks subnets;
    is_accessible = true;
    ip = elim router.wan_link [ none ↦ none | some ip ↦ ip ];
  })
]

-- `_build_topology`
unfoldable pub build_topology : Result (List Image) → ShownInstance → Result (List RouterNode)
unfolding create_subnets router_node each
build_topology list_images top_inst = elim list_images [
  | err e ↦ err e
  | ok images ↦ elim (create_subnets images top_inst.visible_networks []) [
    | err e ↦ err e
    | ok subnets ↦ each (router_node images subnets) top_inst.visible_routers
  ]
]

unfoldable pub subnet_hosts : List Subnet → List HostNode
subnet_hosts [] = []
subnet_hosts (subnet ∷ subnets) = subnet.hosts ++ subnet_hosts subnets

-- `get_hosts`
unfoldable pub get_hosts : List RouterNode → List HostNode
unfolding subnet_hosts
get_hosts [] = []
get_hosts (router ∷ routers) = subnet_hosts router.subnets ++ get_hosts routers
