-- ===== src/Inventory/Routable.antt =====
-- The routing and the groups of monitored hosts are made where what they ask for is there.
use backend_sandbox_service.Prelude.{
  ◌≡◌, refl, Bool, true, false, not, Option, List, [], ◌∷◌, String, str_eq, contains, is_some, ◌&&◌,
  ◌||◌, all, arith, Bool-cases, Option-cases, inl, inr,
}
use backend_sandbox_service.Errors.{Result, ok, is_ok, Result-cases}
use backend_sandbox_service.Inventory.{
  Host, InventoryState, InventoryConfig, TopologyInstance, RouterMapping, RouterLink, Route,
  MonitoredNode, router_of, network_to_router_mapping, host_networks_for_routing, routes_through,
  man_routes, node_names, normalize_address, normalize_all, pick_monitored, build_routing,
  add_monitored_group,
}
use backend_sandbox_service.Inventory.Preference.{first_router, network_to_router_mapping-first}
use backend_sandbox_service.Inventory.Known.{Phase, knows, Safe, contains-known, add_group-Safe}

module _ (mask_of : String → Result String) (nodes : List String)
    (mappings : List RouterMapping) where
  -- A router maps the network, and the network's address has a mask.
  abbrev pub is_mapped_network : String → Bool
  is_mapped_network network = is_some (first_router network mappings) && is_ok (mask_of network)

  -- The router is a node, and its networks are mapped.
  abbrev pub is_routable : RouterLink → Bool
  is_routable link = contains link.router nodes && all is_mapped_network link.networks

  host_networks-masked :
      (router : String) (networks : List String)
      → all is_mapped_network networks ≡ true
      → (routed : List String) × (host_networks_for_routing
            (network_to_router_mapping mappings)
            router
            networks
          ≡ ok routed)
        × (all (λ n. is_ok (mask_of n)) routed ≡ true)
  unfolding host_networks_for_routing
  host_networks-masked router [] h = ([], refl, refl)
  host_networks-masked router (network ∷ networks) h =
      let (routed, found, masked) = host_networks-masked router networks (ground arith) in
      let first = network_to_router_mapping-first network mappings in
      elim (Option-cases (router_of network (network_to_router_mapping mappings))) [
        | inl missing ↦ absurd (ground (arith, missing, first))
        | inr (chosen, mapped) ↦ elim (Bool-cases (str_eq router chosen)) [
          | inl same ↦
              (network ∷ routed, ground (arith, found, mapped, same), ground (arith, masked))
          | inr other ↦ (routed, ground (arith, found, mapped, other), masked)
        ]
      ]

  routes_through-ok :
      (ip : String) (networks : List String)
      → all (λ n. is_ok (mask_of n)) networks ≡ true
      → is_ok (routes_through (network_to_router_mapping mappings) mask_of ip networks) ≡ true
  unfolding routes_through
  routes_through-ok ip [] h = refl
  routes_through-ok ip (network ∷ networks) h = ground (arith, routes_through-ok ip networks)

  pub man_routes-ok :
      (links : List RouterLink)
      → all is_routable links ≡ true
      → is_ok (man_routes (network_to_router_mapping mappings) mask_of nodes links) ≡ true
  unfolding man_routes
  man_routes-ok [] h = refl
  man_routes-ok (link ∷ links) h =
      let (routed, found, masked) = host_networks-masked link.router link.networks (ground arith) in
      ground (arith, found, routes_through-ok link.ip routed masked, man_routes-ok links)

module _ (config : InventoryConfig) (topology : TopologyInstance) where
  -- The management node is a node with a link to the routers, whose links are routable.
  abbrev pub is_routed : Bool
  is_routed =
      is_ok topology.man_link
      && (contains topology.man.name (node_names topology.nodes)
          && all (is_routable config.mask_of (node_names topology.nodes) topology.router_mappings)
              topology.router_links)

  pub build_routing-ok :
      (s : InventoryState)
      → is_routed ≡ true
      → (routes : List Route) × (build_routing config topology s
          ≡ (ok tt, record s { routes = routes }))
  unfolding build_routing
  build_routing-ok s h =
      elim (Result-cases (
        man_routes (network_to_router_mapping topology.router_mappings) config.mask_of
          (node_names topology.nodes) topology.router_links)) [
            | inl (routes, made) ↦ (routes, ground (arith, made))
            | inr (e, failed) ↦ absurd (
                ground (
                  arith,
                  failed,
                  man_routes-ok config.mask_of (node_names topology.nodes) topology.router_mappings
                      topology.router_links,
                ))
          ]

  -- The address of a target can be normalized.
  abbrev pub is_normal : Option String → Bool
  is_normal address = is_ok (normalize_address config address)

  -- Where they are asked for, the monitored nodes are known and their targets have such addresses.
  abbrev pub monitored_among : List String → Bool → List MonitoredNode → Bool
  monitored_among names monitors nodes =
      not monitors
      || all (λ (m : MonitoredNode). contains m.node names && all is_normal m.addresses) nodes

  normalize_all-ok :
      (addresses : List (Option String))
      → all is_normal addresses ≡ true
      → is_ok (normalize_all config addresses) ≡ true
  unfolding normalize_all
  normalize_all-ok [] h = refl
  normalize_all-ok (address ∷ addresses) h = ground (arith, normalize_all-ok addresses)

  pick_monitored-ok :
      (names : List String) (hosts : List Host) (nodes : List MonitoredNode)
      → knows names hosts ≡ true
      → all (λ (m : MonitoredNode). contains m.node names && all is_normal m.addresses) nodes ≡ true
      → is_ok (pick_monitored config hosts nodes) ≡ true
  unfolding pick_monitored
  pick_monitored-ok names hosts [] k h = refl
  pick_monitored-ok names hosts (m ∷ nodes) k h = ground (
    arith,
    contains-known names m.node hosts,
    normalize_all-ok m.addresses,
    pick_monitored-ok names hosts nodes,
  )

  pub add_monitored_group-Safe :
      (names : List String) (a : Phase) (name : String) (monitors : Bool)
      (nodes : List MonitoredNode)
      → monitored_among names monitors nodes ≡ true
      → Safe names a a (add_monitored_group config topology name monitors nodes)
  unfolding Safe add_monitored_group
  add_monitored_group-Safe names a name false nodes fit s h g = (refl, h, g)
  add_monitored_group-Safe names a name true nodes fit s h g =
      let picked_ok = pick_monitored-ok names s.hosts nodes h (ground arith) in
      elim (Result-cases (pick_monitored config s.hosts nodes)) [
        | inr (e, failed) ↦ absurd (ground (arith, failed, picked_ok))
        | inl (picked, found) ↦
            let (done, knows', holds') = add_group-Safe names a name picked s h g in
            (
              ground (arith, found, done),
              ground (arith, found, knows'),
              ground (arith, found, holds'),
            )
      ]
