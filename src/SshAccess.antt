-- ===== src/SshAccess.antt =====
-- The SSH access files of a sandbox and of a pool, with the cache of topology instances:
-- crczp/sandbox_instance_app/lib/sandboxes.py, `get_management_ssh_access` of lib/pools.py, and the
-- names of models.py. An archive is the list of its files, with their texts.
use backend_sandbox_service.Prelude.{
  ℕ, zero, suc, ◌-◌, ◌==◌, Bool, true, false, not, Option, none, some, List, [], ◌∷◌, ◌++◌, String,
  str, str_append, filter, if◌then◌else◌,
}
use backend_sandbox_service.Errors.{Done, Result, ok, err, Exec, pure, lift, modify, ◌>>=◌, ◌>>◌}
use backend_sandbox_service.SshConfig.{
  SshHost, SshTopology, user_config, mgmt_config, ansible_config,
}
use backend_sandbox_service.Runners.Launch.{text_length}
pub mod Keys

pub record SshSandbox : Type 0 where
  pub id : ℕ
  pub allocation_unit_id : ℕ
  pub pool_id : ℕ
  pub private_user_key : String
  pub public_user_key : String

pub record SshPool : Type 0 where
  pub id : ℕ
  pub private_management_key : String
  pub public_management_key : String
  pub sandboxes : List SshSandbox

-- The settings, what the definitions and Terraform answer, and the text of a configuration.
pub record Instances : Type 0 where
  pub stack_name_prefix : String
  pub proxy_jump_host : String
  pub proxy_jump_user : String
  pub proxy_jump_port : ℕ
  pub get_topology_definition_and_containers : SshSandbox → Result Done
  pub get_enriched_topology_instance : String → Result SshTopology
  pub serialize : List SshHost → String

-- The cache of topology instances, by sandbox.
abbrev pub InstanceCache : Type 0
InstanceCache = List (ℕ × SshTopology)

abbrev pub Archive : Type 0
Archive = List (String × String)

-- `{number:010d}`
zeros : ℕ → String
zeros zero = ""
zeros (suc n) = str_append "0" (zeros n)

unfoldable pub padded : ℕ → String
unfolding zeros text_length
padded number = str_append (zeros (10 - text_length (str number))) (str number)

unfoldable pub cached_instance : ℕ → InstanceCache → Option SshTopology
cached_instance id [] = none
cached_instance id ((other, ti) ∷ entries) =
    let rest = cached_instance id entries in if other == id then some ti else rest

-- `clear_cache`
unfoldable pub clear_cache : SshSandbox → InstanceCache → InstanceCache
clear_cache sandbox entries = filter (λ entry. not (entry.0 == sandbox.id)) entries

module _ (instances : Instances) where
  unfoldable pub get_pool_prefix : ℕ → String
  unfolding padded
  get_pool_prefix pool_id =
      str_append instances.stack_name_prefix (str_append "-p" (padded pool_id))

  unfoldable pub get_stack_name : SshSandbox → String
  unfolding get_pool_prefix
  get_stack_name sandbox =
      str_append (get_pool_prefix sandbox.pool_id)
        (str_append "-s" (padded sandbox.allocation_unit_id))

  -- `cache.get_or_set`, which asks for an instance that is missing and keeps it.
  unfoldable pub get_or_set : SshSandbox → Exec InstanceCache SshTopology
  unfolding get_stack_name cached_instance
  get_or_set sandbox s = elim (cached_instance sandbox.id s) [
    | some ti ↦ (ok ti, s)
    | none ↦ elim (instances.get_enriched_topology_instance (get_stack_name sandbox)) [
      | err e ↦ (err e, s)
      | ok ti ↦ (ok ti, (sandbox.id, ti) ∷ s)
    ]
  ]

  unfoldable pub get_topology_instance : SshSandbox → Exec InstanceCache SshTopology
  unfolding get_or_set
  get_topology_instance sandbox = do
    lift (instances.get_topology_definition_and_containers sandbox)
    get_or_set sandbox

  unfoldable pub get_user_sshconfig : SshSandbox → String → Exec InstanceCache (List SshHost)
  unfolding get_topology_instance user_config
  get_user_sshconfig sandbox sandbox_private_key_path = do
    ti ← get_topology_instance sandbox
    pure (
        user_config ti instances.proxy_jump_host (get_stack_name sandbox) sandbox_private_key_path
          instances.proxy_jump_port)

  unfoldable pub get_management_sshconfig : SshSandbox → String → Exec InstanceCache (List SshHost)
  unfolding get_topology_instance mgmt_config
  get_management_sshconfig sandbox pool_private_key_path = do
    ti ← get_topology_instance sandbox
    pure (
        mgmt_config ti instances.proxy_jump_host (get_pool_prefix sandbox.pool_id)
          instances.proxy_jump_port pool_private_key_path pool_private_key_path)

  unfoldable pub get_ansible_sshconfig :
      SshSandbox → String → Option String → Exec InstanceCache (List SshHost)
  unfolding get_topology_instance ansible_config
  get_ansible_sshconfig sandbox mng_key proxy_key = do
    ti ← get_topology_instance sandbox
    pure (
        ansible_config ti mng_key instances.proxy_jump_host instances.proxy_jump_user proxy_key
          instances.proxy_jump_port)

  -- The names of the files for trainees, and of those for organizers.
  abbrev pub user_access_name : SshSandbox → String
  user_access_name sandbox = str_append "pool-id-" (
      str_append (str sandbox.pool_id)
        (str_append "-sandbox-id-" (str_append (str sandbox.id) "-user")))

  abbrev pub management_key_name : SshPool → String
  management_key_name pool = str_append "pool-id-" (str_append (str pool.id) "-management-key")

  abbrev pub management_config_name : SshPool → SshSandbox → String
  management_config_name pool sandbox = str_append "pool-id-" (
      str_append (str pool.id)
        (str_append "-sandbox-id-" (str_append (str sandbox.id) "-management-config")))

  unfoldable pub get_user_ssh_access : SshSandbox → Exec InstanceCache Archive
  unfolding get_user_sshconfig
  get_user_ssh_access sandbox = do
    let key_name = str_append (user_access_name sandbox) "-key"
    ssh_config ← get_user_sshconfig sandbox (str_append "~/.ssh/" key_name)
    pure (
        (str_append (user_access_name sandbox) "-config", instances.serialize ssh_config)
        ∷ (key_name, sandbox.private_user_key)
        ∷ (str_append key_name ".pub", sandbox.public_user_key)
        ∷ [])

  -- The loop over the sandboxes of the pool.
  unfoldable pub add_configs : SshPool → List SshSandbox → Exec InstanceCache Archive
  unfolding get_management_sshconfig
  add_configs pool [] = pure []
  add_configs pool (sandbox ∷ sandboxes) = do
    ssh_config ← get_management_sshconfig sandbox (str_append "~/.ssh/" (management_key_name pool))
    files ← add_configs pool sandboxes
    pure ((management_config_name pool sandbox, instances.serialize ssh_config) ∷ files)

  unfoldable pub get_management_ssh_access : SshPool → Exec InstanceCache Archive
  unfolding add_configs
  get_management_ssh_access pool = do
    files ← add_configs pool pool.sandboxes
    pure (
        files
        ++ (management_key_name pool, pool.private_management_key)
          ∷ (str_append (management_key_name pool) ".pub", pool.public_management_key)
          ∷ [])
