-- ===== src/SshConfig/Trainees.antt =====
-- The configuration of the trainees, whose jumps lead to earlier entries.
use backend_sandbox_service.Prelude.{
  ℕ, ◌≡◌, refl, sym, subst, Bool, true, false, not, ◌&&◌, none, some, List, [], ◌∷◌, String, str,
  str_eq, str_append, eq_iff, contains, all, All, arith, Bool-cases, inl, inr,
}
use backend_sandbox_service.SshConfig.{
  SshHost, SshNode, SshContainer, SshTopology, option_of, put_option, update_options, with_jump,
  add_host, add_docker_host, add_user_nodes, add_containers, user_config, ssh_proxy_username,
}
use backend_sandbox_service.SshConfig.Jumps.{
  Destination, Led, Knows, Led-append, Knows-append, given, Leads-given, add_host-Led,
  add_host-Knows, add_host-alias,
}
use backend_sandbox_service.SshConfig.Chains.{
  start, start-Led, start-Knows, through_man, through_man-Leads,
}

abbrev pub ssh_names : List SshNode → List String
ssh_names [] = []
ssh_names (node ∷ nodes) = node.name ∷ ssh_names nodes

module _ (key man_name : String) where
  add_user_nodes-Led :
      (nodes : List SshNode) (hosts : List SshHost)
      → Led [] hosts
      → Knows man_name hosts
      → Led [] (add_user_nodes key (through_man ssh_proxy_username man_name) nodes hosts)
  unfolding add_user_nodes
  add_user_nodes-Led [] hosts led knows = led
  add_user_nodes-Led (node ∷ nodes) hosts led knows =
      let jump = some (through_man ssh_proxy_username man_name) in
      add_user_nodes-Led nodes _
        (add_host-Led node.ip ssh_proxy_username key (some node.name) none jump hosts led
          (through_man-Leads ssh_proxy_username man_name hosts knows))
        (add_host-Knows node.ip ssh_proxy_username key (some node.name) none man_name jump hosts
          knows)

  add_user_nodes-Knows :
      (name : String) (nodes : List SshNode) (hosts : List SshHost)
      → Knows name hosts
      → Knows name (add_user_nodes key (through_man ssh_proxy_username man_name) nodes hosts)
  unfolding add_user_nodes
  add_user_nodes-Knows name [] hosts knows = knows
  add_user_nodes-Knows name (node ∷ nodes) hosts knows = add_user_nodes-Knows name nodes _ (
      add_host-Knows node.ip ssh_proxy_username key (some node.name) none name
        (some (through_man ssh_proxy_username man_name)) hosts knows)

  -- The nodes come to be known by their names.
  add_user_nodes-names :
      (name : String) (nodes : List SshNode) (hosts : List SshHost)
      → str_eq name "" ≡ false
      → contains name (ssh_names nodes) ≡ true
      → Knows name (add_user_nodes key (through_man ssh_proxy_username man_name) nodes hosts)
  unfolding add_user_nodes
  add_user_nodes-names name [] hosts named h = ground arith
  add_user_nodes-names name (node ∷ nodes) hosts named h =
      let jump = some (through_man ssh_proxy_username man_name) in
      elim (Bool-cases (str_eq node.name name)) [
        | inl same ↦ add_user_nodes-Knows name nodes _ (
            subst
              (λ (alias : String).
                Knows name
                  (add_host node.ip ssh_proxy_username key jump (some alias) none [] hosts))
              (sym ((eq_iff node.name name).0 same))
              (add_host-alias node.ip ssh_proxy_username key name jump none hosts named))
        | inr other ↦ add_user_nodes-names name nodes _ named (ground (arith, other))
      ]

-- The container's host has a name, and is one of the nodes.
abbrev pub has_host : List SshNode → SshContainer → Bool
has_host nodes mapping = not (str_eq mapping.host "") && contains mapping.host (ssh_names nodes)

option_of-docker :
    (key jump port : String)
    → option_of "ProxyJump" (
        with_jump (some jump) (
          ("HostName", "127.0.0.1")
          ∷ ("User", "root")
          ∷ ("IdentityFile", key)
          ∷ ("Port", port)
          ∷ ("UserKnownHostsFile", "/dev/null")
          ∷ ("StrictHostKeyChecking", "no")
          ∷ ("IdentitiesOnly", "yes")
          ∷ []))
      ≡ given jump
unfolding with_jump put_option option_of
option_of-docker key jump port = ground arith

-- A container that its own host is the way to.
module _ (key : String) where
  add_docker_host-Led :
      (mapping : SshContainer) (hosts : List SshHost)
      → Led [] hosts
      → Knows mapping.host hosts
      → Led [] (
          add_docker_host "127.0.0.1" "root" key mapping.port
            (some mapping.host)
            (some (str_append mapping.host (str_append "-" mapping.container)))
            []
            hosts)
  unfolding add_docker_host update_options
  add_docker_host-Led mapping hosts led knows = Led-append [] hosts _ led (
      rw (option_of-docker key mapping.host (str mapping.port))
        (Leads-given hosts mapping.host (mapping.host, knows, Destination.plain refl)))

  add_docker_host-Knows :
      (name : String) (mapping : SshContainer) (hosts : List SshHost)
      → Knows name hosts
      → Knows name (
          add_docker_host "127.0.0.1" "root" key mapping.port
            (some mapping.host)
            (some (str_append mapping.host (str_append "-" mapping.container)))
            []
            hosts)
  unfolding add_docker_host
  add_docker_host-Knows name mapping hosts knows = Knows-append name hosts _ knows

  add_containers-Led :
      (containers : List SshContainer) (hosts : List SshHost)
      → Led [] hosts
      → All (λ (m : SshContainer). Knows m.host hosts) containers
      → Led [] (add_containers key containers hosts)
  unfolding add_containers
  add_containers-Led [] hosts led knows = led
  add_containers-Led (m ∷ ms) hosts led knows =
      add_containers-Led ms _ (add_docker_host-Led m hosts led knows.0) (still ms knows.1)
    where
      still :
          (ms : List SshContainer)
          → All (λ (m : SshContainer). Knows m.host hosts) ms
          → All
              (λ (n : SshContainer). Knows n.host (
                add_docker_host "127.0.0.1" "root" key m.port
                  (some m.host)
                  (some (str_append m.host (str_append "-" m.container)))
                  []
                  hosts))
              ms
      still [] h = tt
      still (n ∷ ns) h = (add_docker_host-Knows n.host m hosts h.0, still ns h.1)

module _ (top_ins : SshTopology) (proxy_host proxy_user : String) (proxy_port : ℕ) where
  -- Where MAN has a name, and the host of each container is a node that the user may access, every
  -- jump of the trainees' configuration leads to an entry that stands before it.
  pub user_config-Led :
      (key : String)
      → str_eq top_ins.man_name "" ≡ false
      → all (has_host top_ins.user_accessible_nodes) top_ins.containers ≡ true
      → Led [] (user_config top_ins proxy_host proxy_user key proxy_port)
  unfolding user_config start
  user_config-Led key named hosted =
      let nodes = top_ins.user_accessible_nodes in
      let begun =
        start proxy_host proxy_user key proxy_port top_ins.ip ssh_proxy_username key
          top_ins.man_name in
      add_containers-Led key top_ins.containers _
        (add_user_nodes-Led key top_ins.man_name nodes begun
          (start-Led proxy_host proxy_user key proxy_port top_ins.ip ssh_proxy_username key
            top_ins.man_name)
          (start-Knows proxy_host proxy_user key proxy_port top_ins.ip ssh_proxy_username key
            top_ins.man_name named))
        (known top_ins.containers hosted)
    where
      known :
          (ms : List SshContainer)
          → all (has_host top_ins.user_accessible_nodes) ms ≡ true
          → All
              (λ (m : SshContainer). Knows m.host (
                add_user_nodes key
                  (through_man ssh_proxy_username top_ins.man_name)
                  top_ins.user_accessible_nodes
                  (start proxy_host proxy_user key proxy_port top_ins.ip ssh_proxy_username key
                    top_ins.man_name)))
              ms
      known [] h = tt
      known (m ∷ ms) h = (
        add_user_nodes-names key top_ins.man_name m.host top_ins.user_accessible_nodes _
            (ground arith) (ground arith),
        known ms (ground arith),
      )
