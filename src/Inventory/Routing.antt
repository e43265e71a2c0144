-- ===== src/Inventory/Routing.antt =====
-- The class Routing of crczp/sandbox_ansible_app/lib/inventory.py: which router a network is reached
-- through, and the routes of the management node.
use Prim.Native.Char.{code}
use backend_sandbox_service.Prelude.{
  Bool, true, false, Option, none, some, List, [], ◌∷◌, ◌++◌, String, str_eq, ◌==◌, ltb, contains,
  if◌then◌else◌,
}
use backend_sandbox_service.Errors.{key_error, Result, ok, err}

-- An entry of the topology's `router_mappings`.
pub record RouterMapping : Type 0 where
  pub router : String
  pub network : String

-- A link from the wide network to a router, and the user networks that the router is linked to.
pub record RouterLink : Type 0 where
  pub router : String
  pub ip : String
  pub networks : List String

pub record Route : Type 0 where
  pub network : String
  pub mask : String
  pub gateway_ip : String

-- `a <= b` on texts: the order of their code points.
unfoldable pub leb_str : String → String → Bool
leb_str String.[] t = true
leb_str (String.◌∷◌ c s) String.[] = false
leb_str (String.◌∷◌ c s) (String.◌∷◌ d t) =
    let rest = leb_str s t in if code c == code d then rest else ltb (code c) (code d)

-- `sorted(router_mappings, key=lambda x: x.router, reverse=True)`
unfoldable pub insert_mapping : RouterMapping → List RouterMapping → List RouterMapping
unfolding leb_str
insert_mapping m [] = m ∷ []
insert_mapping m (n ∷ mappings) =
    let rest = insert_mapping m mappings in
    if leb_str n.router m.router then m ∷ n ∷ mappings else n ∷ rest

unfoldable pub sort_reverse : List RouterMapping → List RouterMapping
unfolding insert_mapping
sort_reverse [] = []
sort_reverse (m ∷ mappings) = insert_mapping m (sort_reverse mappings)

-- `net_to_router[router_mapping.network] = router_mapping.router`, the latest first.
unfoldable pub assign_routers : List RouterMapping → List (String × String) → List (String × String)
assign_routers [] net_to_router = net_to_router
assign_routers (m ∷ mappings) net_to_router =
    assign_routers mappings ((m.network, m.router) ∷ net_to_router)

unfoldable pub router_of : String → List (String × String) → Option String
router_of network [] = none
router_of network ((other, router) ∷ net_to_router) =
    let rest = router_of network net_to_router in if str_eq other network then some router else rest

-- `_get_network_to_router_mapping`
unfoldable pub network_to_router_mapping : List RouterMapping → List (String × String)
unfolding sort_reverse assign_routers
network_to_router_mapping mappings = assign_routers (sort_reverse mappings) []

module _ (net_to_router : List (String × String)) where
  -- `_get_host_networks_for_routing`
  unfoldable pub host_networks_for_routing : String → List String → Result (List String)
  unfolding router_of
  host_networks_for_routing router [] = ok []
  host_networks_for_routing router (network ∷ networks) =
      let rest = host_networks_for_routing router networks in
      elim (router_of network net_to_router) [
        | none ↦ err key_error
        | some chosen ↦ elim rest [
          | err e ↦ err e
          | ok routed ↦ ok (if str_eq router chosen then network ∷ routed else routed)
        ]
      ]

  -- `Route(network.cidr, ...)` for each network: the mask of its address may not be found.
  unfoldable pub routes_through :
      (String → Result String) → String → List String → Result (List Route)
  routes_through mask_of ip [] = ok []
  routes_through mask_of ip (network ∷ networks) =
      let rest = routes_through mask_of ip networks in
      elim (mask_of network) [
        | err e ↦ err e
        | ok mask ↦ elim rest [
          | err e ↦ err e
          | ok routes ↦ ok (record { network = network; mask = mask; gateway_ip = ip } ∷ routes)
        ]
      ]

  -- The routes that `_set_sandbox_routing` adds to the interface of the management node; `nodes` are
  -- the keys of `interfaces`, where each router gets its own.
  unfoldable pub man_routes :
      (String → Result String) → List String → List RouterLink → Result (List Route)
  unfolding host_networks_for_routing routes_through
  man_routes mask_of nodes [] = ok []
  man_routes mask_of nodes (link ∷ links) =
      let rest = man_routes mask_of nodes links in
      elim (contains link.router nodes) [
        | false ↦ err key_error
        | true ↦ elim (host_networks_for_routing link.router link.networks) [
          | err e ↦ err e
          | ok networks ↦ elim (routes_through mask_of link.ip networks) [
            | err e ↦ err e
            | ok here ↦ elim rest [ err e ↦ err e | ok routes ↦ ok (here ++ routes) ]
          ]
        ]
      ]
