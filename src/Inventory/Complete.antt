-- ===== src/Inventory/Complete.antt =====
-- The inventory of a topology whose parts fit together is made without an exception.
use backend_sandbox_service.Prelude.{
  ◌≡◌, refl, Bool, true, some, List, [], ◌∷◌, String, str_eq, eq_refl, eq_iff, contains, is_some,
  ◌&&◌, ◌||◌, all, arith, Bool-cases, Option-cases, inl, inr,
}
use backend_sandbox_service.Errors.{ok, ◌>>◌}
use backend_sandbox_service.Definitions.{
  Platform, TopologyDefinition, ContainerMapping, DockerContainers, container_names, names_of,
  validate_containers,
}
use backend_sandbox_service.Definitions.Validation.{is_ok-validate_containers}
use backend_sandbox_service.Inventory.{
  Host, InventoryState, InventoryConfig, TopologyInstance, new_host, put_host, find_host, add_host,
  change_host, node_names, mapped_hosts, create_hosts, set_ip_forward, create_groups,
  create_user_defined_groups, with_user_ip, add_user_network_ips, with_containers_path, give_paths,
  update_docker_hosts, check_found, make_inventory, empty_inventory,
}
use backend_sandbox_service.Inventory.Known.{
  Phase, begun, dockered, known, knows, among, holds, Safe, change_host-known, knows-same,
  contains-known, then-Safe,
}
use backend_sandbox_service.Inventory.Routable.{is_routed, monitored_among, build_routing-ok}
use backend_sandbox_service.Inventory.Builders.{
  is_addressed, mappings_among, groups_among, create_hosts-keeps, create_hosts-knows,
  set_ip_forward-Safe, create_groups-Safe, create_user_defined_groups-Safe,
}

module _ (config : InventoryConfig) (topology : TopologyInstance) where
  docker : Phase
  docker = dockered (is_some topology.containers)

  -- The node on a link is known, but for the one that is passed over.
  abbrev pub linked : List String → List (String × String) → Bool
  linked names links = all (λ link. str_eq link.0 "uan" || contains link.0 names) links

  add_user_network_ips-Safe :
      (names : List String) (links : List (String × String))
      → linked names links ≡ true
      → Safe names docker docker (add_user_network_ips config topology links)
  unfolding Safe add_user_network_ips docker holds with_user_ip
  add_user_network_ips-Safe names [] fit s h g = (refl, h, g)
  add_user_network_ips-Safe names ((name, ip) ∷ links) fit s h g =
      let t : InventoryState = record s {
        hosts = change_host (with_user_ip config topology ip) name s.hosts;
      } in
      let same = knows-same names s.hosts t.hosts (λ other.
        change_host-known (with_user_ip config topology ip) name other s.hosts (λ host. refl)) in
      elim (Bool-cases (str_eq name "uan")) [
        | inl skipped ↦
            let (done, kept, held) = add_user_network_ips-Safe names links (ground arith) s h g in
            (
              ground (arith, skipped, done),
              ground (arith, skipped, kept),
              ground (arith, skipped, held),
            )
        | inr linked ↦
            let found = contains-known names name s.hosts h (ground (arith, linked)) in
            let (done, kept, held) =
              add_user_network_ips-Safe names links (ground arith) t (ground (arith, same)) g in
            (
              ground (arith, linked, found, done),
              ground (arith, linked, found, kept),
              ground (arith, linked, found, held),
            )
      ]

  check_found-Safe :
      (names : List String)
      → contains "proxy-jump" names ≡ true
      → Safe names docker docker (check_found config topology)
  unfolding Safe check_found docker holds
  check_found-Safe names fit s h g =
      let found = contains-known names "proxy-jump" s.hosts h fit in
      (ground (arith, found), ground (arith, found), ground (arith, found))

  give_paths-known :
      (docker_hosts : List String) (name : String) (hosts : List Host)
      → known (give_paths config topology docker_hosts hosts) name ≡ known hosts name
  unfolding give_paths find_host with_containers_path
  give_paths-known docker_hosts name [] = refl
  give_paths-known docker_hosts name (host ∷ hosts) =
      ground (arith, give_paths-known docker_hosts name hosts)

  update_docker_hosts-Safe :
      (names : List String) → Safe names docker docker (update_docker_hosts config topology)
  unfolding Safe update_docker_hosts docker holds
  update_docker_hosts-Safe names s h g = elim (Option-cases topology.containers) [
    | inl e ↦ (ground (arith, e), ground (arith, e), ground (arith, e))
    | inr (containers, e) ↦ elim (Option-cases s.docker_hosts) [
      | inl missing ↦
          (ground (arith, e, missing), ground (arith, e, missing), ground (arith, e, missing))
      | inr (docker_hosts, found) ↦
          let same =
            knows-same names s.hosts (give_paths config topology docker_hosts s.hosts)
              (λ name. give_paths-known docker_hosts name s.hosts) in
          (ground (arith, e, found), ground (arith, e, found, same), ground (arith, e, found))
    ]
  ]

  -- The hosts of the inventory: the proxy jump and the nodes.
  unfoldable pub inventory_names : List String
  unfolding node_names
  inventory_names = "proxy-jump" ∷ node_names topology.nodes

  -- Every node has an address, what the topology mentions are its nodes or the proxy jump, the
  -- networks of the routers are mapped and have masks, and the addresses of monitored targets can be
  -- normalized.
  unfoldable pub fits_together : Bool
  unfolding inventory_names
  fits_together =
      all (is_addressed config topology) topology.nodes
      && (among inventory_names (node_names topology.hosts)
          && (among inventory_names (node_names topology.routers)
              && (among inventory_names topology.user_accessible
                  && (groups_among config topology inventory_names topology.groups
                      && (linked inventory_names topology.user_links
                          && (is_routed config topology
                              && (monitored_among config topology inventory_names
                                    topology.monitors_tcp topology.monitored_tcp
                                  && monitored_among config topology inventory_names
                                      topology.monitors_icmp topology.monitored_icmp)))))))

  among-cons :
      (name : String) (names more : List String)
      → among names more ≡ true
      → among (name ∷ names) more ≡ true
  among-cons name names [] h = refl
  among-cons name names (other ∷ more) h = ground (arith, among-cons name names more)

  among_self : (names : List String) → among names names ≡ true
  among_self [] = refl
  among_self (name ∷ names) =
      ground (arith, eq_refl name, among-cons name names names (among_self names))

  rest-Safe :
      fits_together ≡ true
      → mappings_among config topology inventory_names topology.containers ≡ true
      → Safe inventory_names begun docker (
          set_ip_forward config topology
          >> (create_groups config topology
              >> (create_user_defined_groups config topology topology.groups
                  >> (add_user_network_ips config topology topology.user_links
                      >> (check_found config topology >> update_docker_hosts config topology)))))
  unfolding fits_together docker inventory_names
  rest-Safe fit mappings =
      let names = inventory_names in
      then-Safe names begun begun docker _ _ (set_ip_forward-Safe config topology names begun) (
        then-Safe names begun docker docker _ _
          (create_groups-Safe config topology names
            (among-cons "proxy-jump" (node_names topology.nodes) (node_names topology.nodes)
              (among_self (node_names topology.nodes)))
            (ground arith) (ground arith) (ground arith) mappings (ground arith) (ground arith))
          (then-Safe names docker docker docker _ _
            (create_user_defined_groups-Safe config topology names docker topology.groups
              (ground arith))
            (then-Safe names docker docker docker _ _
              (add_user_network_ips-Safe names topology.user_links (ground arith))
              (then-Safe names docker docker docker _ _ (check_found-Safe names (ground arith))
                (update_docker_hosts-Safe names)))))

  -- The inventory of a topology is made without an exception, and has a host for the proxy jump and
  -- for every node, where every node has an address in the management network; the groups, the
  -- links, the monitored hosts and the mappings of containers that the topology mentions are about
  -- its nodes or the proxy jump (but for links of the node `uan`); the management node has its link,
  -- the routers are nodes, and their networks are mapped to a router and have masks; and the
  -- addresses of the monitored targets can be normalized.
  pub make_inventory-ok :
      fits_together ≡ true
      → mappings_among config topology inventory_names topology.containers ≡ true
      → ((make_inventory config topology (empty_inventory config topology)).0 ≡ ok tt)
        × (knows inventory_names
              (make_inventory config topology (empty_inventory config topology)).1.hosts
            ≡ true)
  unfolding make_inventory add_host empty_inventory holds Safe
  make_inventory-ok fit mappings =
      let s : InventoryState = record (empty_inventory config topology) {
        hosts = put_host (new_host "proxy-jump" config.proxy_jump_host config.proxy_jump_user) [];
      } in
      let (routes, routed) =
        build_routing-ok config topology s (unfold fits_together in ground arith) in
      let s' : InventoryState = record s { routes = routes } in
      let addressed : all (is_addressed config topology) topology.nodes ≡ true =
        unfold fits_together in ground arith in
      let (done, jump) =
        create_hosts-keeps config topology ("proxy-jump" ∷ []) topology.nodes s' addressed
          (unfold put_host find_host new_host in refl) in
      let nodes = create_hosts-knows config topology topology.nodes s' addressed in
      let (done', known', held) =
        rest-Safe fit mappings (create_hosts config topology topology.nodes s').1
          (unfold inventory_names in ground (arith, jump, nodes)) refl in
      (ground (arith, routed, done, done'), ground (arith, routed, done, known'))

  contains-among :
      (names hosts : List String) (name : String)
      → among names hosts ≡ true
      → contains name hosts ≡ true
      → contains name names ≡ true
  contains-among names [] name h e = ground arith
  contains-among names (host ∷ hosts) name h e =
      ground (arith, contains-among names hosts name, eq_iff host name)

  mapped-among :
      (names hosts containers : List String) (mappings : List ContainerMapping)
      → among names hosts ≡ true
      → all
          (λ (m : ContainerMapping). contains m.container containers && contains m.host hosts)
          mappings
        ≡ true
      → among names (mapped_hosts mappings) ≡ true
  unfolding mapped_hosts
  mapped-among names hosts containers [] h e = refl
  mapped-among names hosts containers (m ∷ mappings) h e =
      ground
        (arith, contains-among names hosts m.host h, mapped-among names hosts containers mappings)

  -- Containers that the validation has accepted for a topology definition, whose hosts are nodes of
  -- the topology instance, do not break the inventory: it is made without an exception, and has a
  -- host for the proxy jump and for every node, where the rest of the topology fits together. That
  -- is, every node has an address in the management network; the groups, the links and the monitored
  -- hosts are about its nodes or the proxy jump (but for links of the node `uan`); the management
  -- node has its link, the routers are nodes, and their networks are mapped to a router and have
  -- masks; and the addresses of the monitored targets can be normalized.
  pub make_inventory-validated :
      (platform : Platform) (url rev : String) (top_def : TopologyDefinition)
      (containers : DockerContainers)
      → topology.containers ≡ some containers
      → validate_containers platform url rev top_def containers ≡ ok tt
      → among inventory_names (names_of top_def.hosts) ≡ true
      → fits_together ≡ true
      → ((make_inventory config topology (empty_inventory config topology)).0 ≡ ok tt)
        × (knows inventory_names
              (make_inventory config topology (empty_inventory config topology)).1.hosts
            ≡ true)
  make_inventory-validated platform url rev top_def containers given accepted hosts fit =
      make_inventory-ok fit (
        ground (
          arith,
          given,
          accepted,
          is_ok-validate_containers platform url rev top_def containers,
          mapped-among inventory_names (names_of top_def.hosts)
              (container_names containers.containers) containers.container_mappings hosts,
        ))
