-- ===== src/SshAccess/Keys.antt =====
-- The keys that the configurations name.
use backend_sandbox_service.Prelude.{
  ℕ, ◌≡◌, Option, none, some, List, [], ◌∷◌, ◌++◌, String, str_append, All, All-append, arith, inl,
  inr,
}
use backend_sandbox_service.Errors.{ok, Result-cases}
use backend_sandbox_service.SshConfig.{
  SshHost, SshNode, SshContainer, SshTopology, option_of, put_option, update_options, with_jump,
  with_port, add_host, add_docker_host, add_user_nodes, add_containers, add_management_nodes,
  user_config, mgmt_config, destination, ssh_proxy_username,
}
use backend_sandbox_service.SshConfig.Chains.{start}
use backend_sandbox_service.SshAccess.{
  SshSandbox, SshPool, Instances, InstanceCache, Archive, user_access_name, management_key_name,
  management_config_name, get_stack_name, get_pool_prefix, get_topology_instance,
  get_user_sshconfig, get_management_sshconfig, get_user_ssh_access, add_configs,
  get_management_ssh_access,
}

-- Every entry is for the key of this path.
abbrev pub UsesKey : String → List SshHost → Type 0
UsesKey key hosts = All (λ (h : SshHost). option_of "IdentityFile" h.attributes ≡ some key) hosts

module _ (key : String) where
  add_host-UsesKey :
      (host_name user : String) (proxy_jump alias : Option String) (port : Option ℕ)
      (hosts : List SshHost)
      → UsesKey key hosts
      → UsesKey key (add_host host_name user key proxy_jump alias port [] hosts)
  unfolding add_host with_jump with_port update_options put_option option_of
  add_host-UsesKey host_name user proxy_jump alias port hosts h =
      All-append _ hosts _ h (ground arith, tt)

  add_docker_host-UsesKey :
      (host_name user : String) (port : ℕ) (proxy_jump alias : Option String) (hosts : List SshHost)
      → UsesKey key hosts
      → UsesKey key (add_docker_host host_name user key port proxy_jump alias [] hosts)
  unfolding add_docker_host with_jump update_options put_option option_of
  add_docker_host-UsesKey host_name user port proxy_jump alias hosts h =
      All-append _ hosts _ h (ground arith, tt)

  add_user_nodes-UsesKey :
      (man_proxy_jump : String) (nodes : List SshNode) (hosts : List SshHost)
      → UsesKey key hosts
      → UsesKey key (add_user_nodes key man_proxy_jump nodes hosts)
  unfolding add_user_nodes
  add_user_nodes-UsesKey man_proxy_jump [] hosts h = h
  add_user_nodes-UsesKey man_proxy_jump (node ∷ nodes) hosts h =
      add_user_nodes-UsesKey man_proxy_jump nodes _ (
        add_host-UsesKey node.ip ssh_proxy_username (some man_proxy_jump) (some node.name) none
          hosts h)

  add_containers-UsesKey :
      (containers : List SshContainer) (hosts : List SshHost)
      → UsesKey key hosts
      → UsesKey key (add_containers key containers hosts)
  unfolding add_containers
  add_containers-UsesKey [] hosts h = h
  add_containers-UsesKey (m ∷ ms) hosts h = add_containers-UsesKey ms _ (
      add_docker_host-UsesKey "127.0.0.1" "root" m.port (some m.host)
        (some (str_append m.host (str_append "-" m.container))) hosts h)

  add_management_nodes-UsesKey :
      (man_proxy_jump : String) (nodes : List SshNode) (hosts : List SshHost)
      → UsesKey key hosts
      → UsesKey key (add_management_nodes key man_proxy_jump nodes hosts)
  unfolding add_management_nodes
  add_management_nodes-UsesKey man_proxy_jump [] hosts h = h
  add_management_nodes-UsesKey man_proxy_jump (node ∷ nodes) hosts h =
      add_management_nodes-UsesKey man_proxy_jump nodes _ (
        add_host-UsesKey node.ip node.mgmt_user (some man_proxy_jump) (some node.name) none hosts h)

  start-UsesKey :
      (proxy_host proxy_user : String) (proxy_port : ℕ) (ip man_user man_name : String)
      → UsesKey key (start proxy_host proxy_user key proxy_port ip man_user key man_name)
  unfolding start
  start-UsesKey proxy_host proxy_user proxy_port ip man_user man_name =
      add_host-UsesKey ip man_user (some (destination proxy_user proxy_host proxy_port))
        (some man_name) none (add_host proxy_host proxy_user key none none (some proxy_port) [] [])
        (add_host-UsesKey proxy_host proxy_user none none (some proxy_port) [] tt)

  user_config-UsesKey :
      (ti : SshTopology) (proxy_host proxy_user : String) (proxy_port : ℕ)
      → UsesKey key (user_config ti proxy_host proxy_user key proxy_port)
  unfolding user_config start
  user_config-UsesKey ti proxy_host proxy_user proxy_port = add_containers-UsesKey ti.containers _ (
      add_user_nodes-UsesKey _ ti.user_accessible_nodes
        (start proxy_host proxy_user key proxy_port ti.ip ssh_proxy_username key ti.man_name)
        (start-UsesKey proxy_host proxy_user proxy_port ti.ip ssh_proxy_username ti.man_name))

  mgmt_config-UsesKey :
      (ti : SshTopology) (proxy_host proxy_user : String) (proxy_port : ℕ)
      → UsesKey key (mgmt_config ti proxy_host proxy_user proxy_port key key)
  unfolding mgmt_config start
  mgmt_config-UsesKey ti proxy_host proxy_user proxy_port =
      add_management_nodes-UsesKey _ ti.management_nodes
        (start proxy_host proxy_user key proxy_port ti.ip ti.man_mgmt_user key ti.man_name)
        (start-UsesKey proxy_host proxy_user proxy_port ti.ip ti.man_mgmt_user ti.man_name)

module _ (instances : Instances) where
  -- The files that hold a configuration for each sandbox, in their order.
  abbrev pub Configs : SshPool → List SshSandbox → Archive → Type 0
  Configs pool [] files = files ≡ []
  Configs pool (sandbox ∷ sandboxes) files =
      (hosts : List SshHost) × (rest : Archive) × UsesKey
        (str_append "~/.ssh/" (management_key_name instances pool)) hosts
      × (files ≡ (management_config_name instances pool sandbox, instances.serialize hosts) ∷ rest)
      × Configs pool sandboxes rest

  -- The archive of a trainee has the two keys of the sandbox, and its configuration names in every
  -- entry, also of the proxy and of containers, the file of the archive that holds the private key.
  pub get_user_ssh_access-UsesKey :
      (sandbox : SshSandbox) (s : InstanceCache) (archive : Archive)
      → (get_user_ssh_access instances sandbox s).0 ≡ ok archive
      → (hosts : List SshHost) × let name = user_access_name instances sandbox in
          let key_name = str_append name "-key" in
          (UsesKey (str_append "~/.ssh/" key_name) hosts
            × (archive
                ≡ (str_append name "-config", instances.serialize hosts)
                  ∷ (key_name, sandbox.private_user_key)
                  ∷ (str_append key_name ".pub", sandbox.public_user_key)
                  ∷ []))
  unfolding get_user_ssh_access get_user_sshconfig
  get_user_ssh_access-UsesKey sandbox s archive h =
      elim (Result-cases (get_topology_instance instances sandbox s).0) [
        | inl (ti, found) ↦ (
          user_config ti instances.proxy_jump_host (get_stack_name instances sandbox) _
              instances.proxy_jump_port,
          (user_config-UsesKey _ ti _ _ _, ground (arith, found)),
        )
        | inr (e, failed) ↦ absurd (ground (arith, failed))
      ]

  add_configs-Configs :
      (pool : SshPool) (sandboxes : List SshSandbox) (s : InstanceCache) (files : Archive)
      → (add_configs instances pool sandboxes s).0 ≡ ok files
      → Configs pool sandboxes files
  unfolding add_configs get_management_sshconfig
  add_configs-Configs pool [] s files h = ground arith
  add_configs-Configs pool (sandbox ∷ sandboxes) s files h =
      elim (Result-cases (get_topology_instance instances sandbox s).0) [
        | inr (e, failed) ↦ absurd (ground (arith, failed))
        | inl (ti, found) ↦
            let t = (get_topology_instance instances sandbox s).1 in
            elim (Result-cases (add_configs instances pool sandboxes t).0) [
              | inr (e, failed) ↦ absurd (ground (arith, found, failed))
              | inl (rest, made) ↦ (
                mgmt_config ti instances.proxy_jump_host (get_pool_prefix instances sandbox.pool_id)
                    instances.proxy_jump_port _ _,
                rest,
                mgmt_config-UsesKey _ ti _ _ _,
                ground (arith, found, made),
                add_configs-Configs pool sandboxes t rest made,
              )
            ]
      ]

  -- The archive of the organizers has a configuration for each sandbox of the pool, in their order,
  -- and at its end the two keys of the pool; every entry of the configurations names the file of
  -- the archive that holds the private key.
  pub get_management_ssh_access-Configs :
      (pool : SshPool) (s : InstanceCache) (archive : Archive)
      → (get_management_ssh_access instances pool s).0 ≡ ok archive
      → (files : Archive) × Configs pool pool.sandboxes files
        × (archive
            ≡ files
              ++ (management_key_name instances pool, pool.private_management_key)
                ∷ (
                  str_append (management_key_name instances pool) ".pub",
                  pool.public_management_key,
                )
                ∷ [])
  unfolding get_management_ssh_access
  get_management_ssh_access-Configs pool s archive h =
      elim (Result-cases (add_configs instances pool pool.sandboxes s).0) [
        | inl (files, made) ↦
            (files, add_configs-Configs pool pool.sandboxes s files made, ground (arith, made))
        | inr (e, failed) ↦ absurd (ground (arith, failed))
      ]
