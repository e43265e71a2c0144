-- ===== src/Examples/SshRuns.antt =====
-- The trainees' configuration of a sandbox with one server and one container.
use backend_sandbox_service.Prelude.{ℕ, ◌≡◌, refl, none, some, [], ◌∷◌, ◌++◌, map, str, str_append}
use backend_sandbox_service.Errors.{ok}
use backend_sandbox_service.Runners.Launch.{text_length}
use backend_sandbox_service.SshAccess.{
  SshSandbox, SshPool, Instances, Archive, management_key_name, padded, get_pool_prefix,
  get_stack_name, get_or_set, cached_instance, get_topology_instance, get_management_sshconfig,
  add_configs, get_management_ssh_access,
}
use backend_sandbox_service.SshAccess.Keys.{Configs, get_management_ssh_access-Configs}
use backend_sandbox_service.SshConfig.{SshHost, SshTopology, user_config, option_of}
use backend_sandbox_service.SshConfig.Jumps.{Led}
use backend_sandbox_service.SshConfig.Trainees.{user_config-Led}

abbrev top_ins : SshTopology
top_ins = record {
  ip = "10.1.1.1";
  man_name = "man";
  man_mgmt_user = "debian";
  user_accessible_nodes = record { ip = "192.168.1.5"; name = "server"; mgmt_user = "debian" } ∷ [];
  management_nodes = [];
  containers = record { container = "nginx"; host = "server"; port = 2222 } ∷ [];
}

user_config-Led_example : Led [] (user_config top_ins "proxy" "stack" "~/.ssh/key" 2222)
user_config-Led_example = user_config-Led top_ins "proxy" "stack" 2222 "~/.ssh/key" refl refl

names :
    map (λ (h : SshHost). h.names) (user_config top_ins "proxy" "stack" "~/.ssh/key" 2222)
    ≡ ("proxy" ∷ [])
      ∷ ("man" ∷ "10.1.1.1" ∷ [])
      ∷ ("server" ∷ "192.168.1.5" ∷ [])
      ∷ ("server-nginx" ∷ "127.0.0.1" ∷ [])
      ∷ []
unfolding user_config
names = refl

jumps :
    map
      (λ (h : SshHost). option_of "ProxyJump" h.attributes)
      (user_config top_ins "proxy" "stack" "~/.ssh/key" 2222)
    ≡ none ∷ some "stack@proxy:2222" ∷ some "user@man" ∷ some "server" ∷ []
unfolding user_config option_of str
jumps = refl

-- Two sandboxes of one pool, and what Terraform tells of both.
abbrev instances : Instances
instances = record {
  stack_name_prefix = "st";
  proxy_jump_host = "proxy";
  proxy_jump_user = "crczp";
  proxy_jump_port = 2222;
  get_topology_definition_and_containers = λ _. ok tt;
  get_enriched_topology_instance = λ _. ok top_ins;
  serialize = λ _. "config";
}

abbrev sandbox : ℕ → SshSandbox
sandbox id = record {
  id = id;
  allocation_unit_id = id;
  pool_id = 7;
  private_user_key = "private";
  public_user_key = "public";
}

abbrev pool : SshPool
pool = record {
  id = 7;
  private_management_key = "management";
  public_management_key = "management.pub";
  sandboxes = sandbox 12 ∷ sandbox 13 ∷ [];
}

stack_name : get_stack_name instances (sandbox 12) ≡ "st-p0000000007-s0000000012"
unfolding get_stack_name get_pool_prefix padded text_length str
stack_name = refl

abbrev archive : Archive
archive =
    ("pool-id-7-sandbox-id-12-management-config", "config")
    ∷ ("pool-id-7-sandbox-id-13-management-config", "config")
    ∷ ("pool-id-7-management-key", "management")
    ∷ ("pool-id-7-management-key.pub", "management.pub")
    ∷ []

get_management_ssh_access-Configs_example :
    (files : Archive) × Configs instances pool pool.sandboxes files
    × (archive
        ≡ files
          ++ (management_key_name instances pool, pool.private_management_key)
            ∷ (str_append (management_key_name instances pool) ".pub", pool.public_management_key)
            ∷ [])
unfolding get_management_ssh_access add_configs get_management_sshconfig get_topology_instance
    get_or_set cached_instance str
get_management_ssh_access-Configs_example =
    get_management_ssh_access-Configs instances pool [] archive refl
