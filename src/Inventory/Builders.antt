-- ===== src/Inventory/Builders.antt =====
-- The builders of groups return where the nodes that they ask for are known.
use backend_sandbox_service.Prelude.{
  ◌≡◌, refl, Bool, true, false, Option, none, some, List, [], ◌∷◌, ◌++◌, String, eq_refl, is_some,
  all, arith, Option-cases, inl, inr,
}
use backend_sandbox_service.Errors.{ok, is_ok, Result-cases}
use backend_sandbox_service.Definitions.{DockerContainers}
use backend_sandbox_service.Inventory.{
  Host, InventoryState, InventoryConfig, TopologyNode, NodeGroup, TopologyInstance, new_host,
  put_host, add_host, add_group, pick_hosts, change_host, put_names, node_names, over_protocol,
  hidden_names, mapped_hosts, windows_names, known_names, mgmt_address, create_hosts, forward,
  forward_all, set_ip_forward, add_docker_hosts_group, add_windows_hosts_group,
  add_vpn_entrypoints_group, create_groups, create_user_defined_groups,
}
use backend_sandbox_service.Inventory.Routable.{monitored_among, add_monitored_group-Safe}
use backend_sandbox_service.Inventory.Known.{
  pure-Safe, Phase, begun, grouped, dockered, known, knows, among, holds, Safe, put_host-known,
  change_host-known, knows-same, pick_hosts-knows, among-knows, put_group-found, then-Safe,
  add_group-Safe, add_group-winrm, add_picked-Safe,
}

module _ (config : InventoryConfig) (topology : TopologyInstance) where
  pub knows-put :
      (names : List String) (host : Host) (hosts : List Host)
      → knows names hosts ≡ true
      → knows names (put_host host hosts) ≡ true
  knows-put [] host hosts h = refl
  knows-put (name ∷ names) host hosts h =
      ground (arith, put_host-known host name hosts, knows-put names host hosts)

  -- The node has an address in the management network.
  abbrev pub is_addressed : TopologyNode → Bool
  is_addressed node = is_ok (mgmt_address topology node.name topology.mgmt_links)

  pub create_hosts-keeps :
      (names : List String) (nodes : List TopologyNode) (s : InventoryState)
      → all is_addressed nodes ≡ true
      → knows names s.hosts ≡ true
      → ((create_hosts config topology nodes s).0 ≡ ok tt)
        × (knows names (create_hosts config topology nodes s).1.hosts ≡ true)
  unfolding create_hosts add_host
  create_hosts-keeps names [] s h k = (refl, k)
  create_hosts-keeps names (node ∷ nodes) s h k =
      elim (Result-cases (mgmt_address topology node.name topology.mgmt_links)) [
        | inr (e, failed) ↦ (ground (arith, failed), ground (arith, failed))
        | inl (address, found) ↦
            let host = new_host node.name address node.mgmt_user in
            let t : InventoryState = record s { hosts = put_host host s.hosts } in
            let (done, kept) =
              create_hosts-keeps names nodes t (ground arith) (knows-put names host s.hosts k) in
            (ground (arith, found, done), ground (arith, found, kept))
      ]

  pub create_hosts-knows :
      (nodes : List TopologyNode) (s : InventoryState)
      → all is_addressed nodes ≡ true
      → knows (node_names nodes) (create_hosts config topology nodes s).1.hosts ≡ true
  unfolding create_hosts node_names add_host new_host
  create_hosts-knows [] s h = refl
  create_hosts-knows (node ∷ nodes) s h =
      elim (Result-cases (mgmt_address topology node.name topology.mgmt_links)) [
        | inr (e, failed) ↦ ground (arith, failed)
        | inl (address, found) ↦
            let host = new_host node.name address node.mgmt_user in
            let t : InventoryState = record s { hosts = put_host host s.hosts } in
            ground (
              arith,
              found,
              create_hosts-knows nodes t,
              put_host-known host node.name s.hosts,
              eq_refl node.name,
              create_hosts-keeps (node.name ∷ []) nodes t,
            )
      ]

  forward_all-known :
      (names : List String) (other : String) (hosts : List Host)
      → known (forward_all config topology names hosts) other ≡ known hosts other
  unfolding forward_all forward
  forward_all-known [] other hosts = refl
  forward_all-known (name ∷ names) other hosts = ground (
    arith,
    forward_all-known names other (change_host (forward config topology) name hosts),
    change_host-known (forward config topology) name other hosts (λ host. refl),
  )

  forwarded :
      (names : List String) (s : InventoryState)
      → knows names s.hosts ≡ true
      → knows names (
          forward_all config topology
            (node_names topology.routers ++ topology.man.name ∷ [])
            s.hosts)
        ≡ true
  forwarded names s h =
      let asked = node_names topology.routers ++ topology.man.name ∷ [] in
      ground (
        arith,
        h,
        knows-same names s.hosts (forward_all config topology asked s.hosts)
            (λ other. forward_all-known asked other s.hosts),
      )

  pub set_ip_forward-Safe :
      (names : List String) (a : Phase) → Safe names a a (set_ip_forward config topology)
  unfolding Safe set_ip_forward holds
  set_ip_forward-Safe names begun s h g = (refl, forwarded names s h, refl)
  set_ip_forward-Safe names grouped s h g = (refl, forwarded names s h, g)
  set_ip_forward-Safe names (dockered has_containers) s h g = (refl, forwarded names s h, g)

  over_protocol-among :
      (names : List String) (wanted : Bool) (nodes : List TopologyNode)
      → among names (node_names nodes) ≡ true
      → among names (over_protocol wanted topology.man.name nodes) ≡ true
  unfolding over_protocol node_names
  over_protocol-among names wanted [] h = refl
  over_protocol-among names wanted (node ∷ nodes) h =
      ground (arith, over_protocol-among names wanted nodes)

  hidden_names-among :
      (names : List String) (nodes : List TopologyNode)
      → among names (node_names nodes) ≡ true
      → among names (hidden_names nodes) ≡ true
  unfolding hidden_names node_names
  hidden_names-among names [] h = refl
  hidden_names-among names (node ∷ nodes) h = ground (arith, hidden_names-among names nodes)

  -- The hosts of containers are known, where there are containers.
  abbrev pub mappings_among : List String → Option DockerContainers → Bool
  mappings_among names none = true
  mappings_among names (some containers) = among names (mapped_hosts containers.container_mappings)

  add_docker_hosts_group-Safe :
      (names : List String)
      → mappings_among names topology.containers ≡ true
      → Safe names grouped
          (dockered (is_some topology.containers))
          (add_docker_hosts_group config topology)
  unfolding Safe add_docker_hosts_group holds add_group
  add_docker_hosts_group-Safe names fit s h g = elim (Option-cases topology.containers) [
    | inl e ↦ (ground (arith, e), ground (arith, e), ground (arith, e))
    | inr (containers, e) ↦
        let asked = mapped_hosts containers.container_mappings in
        let found =
          pick_hosts-knows s.hosts asked (among-knows names asked s.hosts h (ground (arith, e))) in
        elim (Result-cases (pick_hosts s.hosts asked)) [
          | inr (x, failed) ↦ (
            ground (arith, failed, found),
            ground (arith, failed, found),
            ground (arith, failed, found),
          )
          | inl (picked, chosen) ↦ (
            ground (arith, e, chosen),
            ground (arith, e, chosen),
            ground (
              arith,
              e,
              chosen,
              put_group-found
                  (record { name = "docker_hosts"; hosts = put_names picked []; hosts_vars = [] })
                  "winrm_nodes" s.groups,
            ),
          )
        ]
  ]

  add_windows_hosts_group-Safe :
      (names : List String) (a : Phase) → Safe names a a (add_windows_hosts_group config topology)
  unfolding Safe add_windows_hosts_group
  add_windows_hosts_group-Safe names a s h g = elim (Result-cases config.windows_images) [
    | inr (e, failed) ↦ (ground (arith, failed), ground (arith, failed), ground (arith, failed))
    | inl (images, listed) ↦
        let (done, kept, held) =
          add_group-Safe names a "windows_hosts" (windows_names images s.hosts topology.nodes) s h
            g in
        (ground (arith, listed, done), ground (arith, listed, kept), ground (arith, listed, held))
  ]

  add_vpn_entrypoints_group-Safe :
      (names : List String) (a : Phase) → Safe names a a (add_vpn_entrypoints_group config topology)
  unfolding Safe add_vpn_entrypoints_group
  add_vpn_entrypoints_group-Safe names a s h g =
      let (done, kept, held) =
        add_group-Safe names a "vpn_entrypoints" (known_names s.hosts topology.vpn_entrypoints) s h
          g in
      (ground (arith, done), ground (arith, kept), ground (arith, held))

  pub create_groups-Safe :
      (names : List String)
      → among names (node_names topology.nodes) ≡ true
      → among names (node_names topology.hosts) ≡ true
      → among names (node_names topology.routers) ≡ true
      → among names topology.user_accessible ≡ true
      → mappings_among names topology.containers ≡ true
      → monitored_among config topology names topology.monitors_tcp topology.monitored_tcp ≡ true
      → monitored_among config topology names topology.monitors_icmp topology.monitored_icmp ≡ true
      → Safe names begun (dockered (is_some topology.containers)) (create_groups config topology)
  unfolding create_groups
  create_groups-Safe names nodes hosts routers accessible mappings tcp icmp =
      let docker = dockered (is_some topology.containers) in
      then-Safe names begun begun docker _ _
        (add_picked-Safe names begun begun "hosts" (node_names topology.hosts)
          (add_group-Safe names begun "hosts") hosts)
        (then-Safe names begun begun docker _ _
          (add_group-Safe names begun "management" (topology.man.name ∷ []))
          (then-Safe names begun begun docker _ _
            (add_picked-Safe names begun begun "routers" (node_names topology.routers)
              (add_group-Safe names begun "routers") routers)
            (then-Safe names begun grouped docker _ _
              (add_picked-Safe names begun grouped "winrm_nodes"
                (over_protocol true topology.man.name topology.nodes) (add_group-winrm names begun)
                (over_protocol-among names true topology.nodes nodes))
              (then-Safe names grouped grouped docker _ _
                (add_picked-Safe names grouped grouped "ssh_nodes"
                  (over_protocol false topology.man.name topology.nodes)
                  (add_group-Safe names grouped "ssh_nodes")
                  (over_protocol-among names false topology.nodes nodes))
                (then-Safe names grouped grouped docker _ _
                  (add_picked-Safe names grouped grouped "user_accessible_nodes"
                    topology.user_accessible (add_group-Safe names grouped "user_accessible_nodes")
                    accessible)
                  (then-Safe names grouped grouped docker _ _
                    (add_picked-Safe names grouped grouped "hidden_hosts"
                      (hidden_names topology.hosts) (add_group-Safe names grouped "hidden_hosts")
                      (hidden_names-among names topology.hosts hosts))
                    (then-Safe names grouped docker docker _ _
                      (add_docker_hosts_group-Safe names mappings)
                      (then-Safe names docker docker docker _ _
                        (add_monitored_group-Safe config topology names docker "monitored_hosts_tcp"
                          topology.monitors_tcp topology.monitored_tcp tcp)
                        (then-Safe names docker docker docker _ _
                          (add_monitored_group-Safe config topology names docker
                            "monitored_hosts_icmp" topology.monitors_icmp topology.monitored_icmp
                            icmp)
                          (then-Safe names docker docker docker _ _
                            (add_windows_hosts_group-Safe names docker)
                            (add_vpn_entrypoints_group-Safe names docker)))))))))))

  abbrev pub groups_among : List String → List NodeGroup → Bool
  groups_among names groups = all (λ group. among names group.nodes) groups

  pub create_user_defined_groups-Safe :
      (names : List String) (a : Phase) (groups : List NodeGroup)
      → groups_among names groups ≡ true
      → Safe names a a (create_user_defined_groups config topology groups)
  unfolding create_user_defined_groups
  create_user_defined_groups-Safe names a [] fit = pure-Safe names a
  create_user_defined_groups-Safe names a (group ∷ groups) fit =
      then-Safe names a a a _ _
        (add_picked-Safe names a a group.name group.nodes (add_group-Safe names a group.name)
          (ground arith))
        (create_user_defined_groups-Safe names a groups (ground arith))
