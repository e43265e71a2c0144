-- ===== src/SshConfig.antt =====
-- The SSH configurations of a sandbox: crczp/sandbox_instance_app/lib/sshconfig.py.
use backend_sandbox_service.Prelude.{
  ℕ, ◌==◌, Bool, true, false, not, Option, none, some, List, [], ◌∷◌, ◌++◌, String, str, str_eq,
  str_append, if◌then◌else◌, map,
}
use backend_sandbox_service.Errors.{Result, ok, err, value_error}
pub mod Jumps
pub mod Chains
pub mod Trainees

-- A `Host` of the configuration with its names and its options.
pub record SshHost : Type 0 where
  pub names : List String
  pub attributes : List (String × String)

-- `opts[key] = value`
unfoldable pub put_option : String → String → List (String × String) → List (String × String)
put_option key value [] = (key, value) ∷ []
put_option key value ((other, old) ∷ opts) =
    let rest = put_option key value opts in
    if str_eq other key then (key, value) ∷ opts else (other, old) ∷ rest

unfoldable pub option_of : String → List (String × String) → Option String
option_of key [] = none
option_of key ((other, value) ∷ opts) =
    let rest = option_of key opts in if str_eq other key then some value else rest

-- `opts.update(kwargs)`
unfoldable pub update_options :
    List (String × String) → List (String × String) → List (String × String)
unfolding put_option
update_options opts [] = opts
update_options opts ((key, value) ∷ kwargs) = update_options (put_option key value opts) kwargs

-- `if proxy_jump: opts['ProxyJump'] = proxy_jump`
unfoldable pub with_jump : Option String → List (String × String) → List (String × String)
unfolding put_option
with_jump none opts = opts
with_jump (some proxy_jump) opts =
    if str_eq proxy_jump "" then opts else put_option "ProxyJump" proxy_jump opts

unfoldable pub with_port : Option ℕ → List (String × String) → List (String × String)
unfolding put_option
with_port none opts = opts
with_port (some port) opts = put_option "Port" (str port) opts

-- The alias first, if it is not empty.
unfoldable pub names_with : Option String → String → List String
names_with none host_name = host_name ∷ []
names_with (some alias) host_name =
    if str_eq alias "" then host_name ∷ [] else alias ∷ host_name ∷ []

-- `add_host`
unfoldable pub add_host :
    (host_name user identity_file : String)
    → (proxy_jump alias : Option String) → Option ℕ
    → List (String × String)
    → List SshHost
    → List SshHost
unfolding with_jump with_port update_options names_with
add_host host_name user identity_file proxy_jump alias port kwargs hosts =
    let opts : List (String × String) =
      ("HostName", host_name)
      ∷ ("User", user)
      ∷ ("IdentityFile", identity_file)
      ∷ ("UserKnownHostsFile", "/dev/null")
      ∷ ("StrictHostKeyChecking", "no")
      ∷ ("IdentitiesOnly", "yes")
      ∷ [] in
    hosts
    ++ record {
      names = names_with alias host_name;
      attributes = update_options (with_jump proxy_jump (with_port port opts)) kwargs;
    }
      ∷ []

-- `add_docker_host`
unfoldable pub add_docker_host :
    (host_name user identity_file : String)
    → (port : ℕ) → (proxy_jump alias : Option String) → List (String × String)
    → List SshHost
    → List SshHost
unfolding with_jump update_options names_with
add_docker_host host_name user identity_file port proxy_jump alias kwargs hosts =
    let opts : List (String × String) =
      ("HostName", host_name)
      ∷ ("User", user)
      ∷ ("IdentityFile", identity_file)
      ∷ ("Port", str port)
      ∷ ("UserKnownHostsFile", "/dev/null")
      ∷ ("StrictHostKeyChecking", "no")
      ∷ ("IdentitiesOnly", "yes")
      ∷ [] in
    hosts
    ++ record {
      names = names_with alias host_name;
      attributes = update_options (with_jump proxy_jump opts) kwargs;
    }
      ∷ []

-- A node behind MAN, with the address of its link.
pub record SshNode : Type 0 where
  pub ip : String
  pub name : String
  pub mgmt_user : String

-- A container with the port of its host that leads to it.
pub record SshContainer : Type 0 where
  pub container : String
  pub host : String
  pub port : ℕ

-- What the topology instance tells of the ways into a sandbox.
pub record SshTopology : Type 0 where
  pub ip : String
  pub man_name : String
  pub man_mgmt_user : String
  pub user_accessible_nodes : List SshNode
  pub management_nodes : List SshNode
  pub containers : List SshContainer

-- `user@host` or `user@host:port`
unfoldable pub destination : String → String → ℕ → String
destination user host port =
    if port == 22
    then str_append user (str_append "@" host)
    else str_append user (str_append "@" (str_append host (str_append ":" (str port))))

abbrev pub ssh_proxy_username : String
ssh_proxy_username = "user"

-- The loop over the nodes that the user may access.
unfoldable pub add_user_nodes : String → String → List SshNode → List SshHost → List SshHost
unfolding add_host
add_user_nodes key man_proxy_jump [] hosts = hosts
add_user_nodes key man_proxy_jump (node ∷ nodes) hosts =
    add_user_nodes key man_proxy_jump nodes
      (add_host node.ip ssh_proxy_username key (some man_proxy_jump) (some node.name) none [] hosts)

-- The loop over the containers.
unfoldable pub add_containers : String → List SshContainer → List SshHost → List SshHost
unfolding add_docker_host
add_containers key [] hosts = hosts
add_containers key (mapping ∷ containers) hosts = add_containers key containers (
    add_docker_host "127.0.0.1" "root" key mapping.port (some mapping.host)
      (some (str_append mapping.host (str_append "-" mapping.container))) [] hosts)

-- `CrczpUserSSHConfig`
unfoldable pub user_config : SshTopology → String → String → String → ℕ → List SshHost
unfolding add_host destination add_user_nodes add_containers
user_config top_ins proxy_host proxy_user sandbox_private_key_path proxy_port =
    let key = sandbox_private_key_path in
    let proxied = add_host proxy_host proxy_user key none none (some proxy_port) [] [] in
    let managed =
      add_host top_ins.ip ssh_proxy_username key
        (some (destination proxy_user proxy_host proxy_port)) (some top_ins.man_name) none []
        proxied in
    let man_proxy_jump = str_append ssh_proxy_username (str_append "@" top_ins.man_name) in
    add_containers key top_ins.containers
      (add_user_nodes key man_proxy_jump top_ins.user_accessible_nodes managed)

-- The loop over the nodes on the management network.
unfoldable pub add_management_nodes : String → String → List SshNode → List SshHost → List SshHost
unfolding add_host
add_management_nodes key man_proxy_jump [] hosts = hosts
add_management_nodes key man_proxy_jump (node ∷ nodes) hosts =
    add_management_nodes key man_proxy_jump nodes
      (add_host node.ip node.mgmt_user key (some man_proxy_jump) (some node.name) none [] hosts)

-- `CrczpMgmtSSHConfig`
unfoldable pub mgmt_config : SshTopology → String → String → ℕ → String → String → List SshHost
unfolding add_host destination add_management_nodes
mgmt_config top_ins proxy_host proxy_user proxy_port pool_private_key_path proxy_private_key_path =
    let proxied =
      add_host proxy_host proxy_user proxy_private_key_path none none (some proxy_port) [] [] in
    let managed =
      add_host top_ins.ip top_ins.man_mgmt_user pool_private_key_path
        (some (destination proxy_user proxy_host proxy_port)) (some top_ins.man_name) none []
        proxied in
    let man_proxy_jump = str_append top_ins.man_mgmt_user (str_append "@" top_ins.man_name) in
    add_management_nodes pool_private_key_path man_proxy_jump top_ins.management_nodes managed

-- `CrczpAnsibleSSHConfig`, whose key of the proxy may be missing or empty
unfoldable pub ansible_config :
    SshTopology → String → String → String → Option String → ℕ → List SshHost
unfolding mgmt_config
ansible_config top_ins pool_private_key_path proxy_host proxy_user proxy_private_key_path
      proxy_port =
    let proxy_key : String = elim proxy_private_key_path [
      | none ↦ "<path_to_pool_private_key>"
      | some path ↦ if str_eq path "" then "<path_to_pool_private_key>" else path
    ] in
    mgmt_config top_ins proxy_host proxy_user proxy_port pool_private_key_path proxy_key

-- `CrczpAnsibleCleanupSSHConfig`
unfoldable pub cleanup_config : String → String → String → ℕ → List SshHost
unfolding add_host
cleanup_config proxy_jump_host proxy_jump_user pool_private_key_path proxy_port =
    add_host proxy_jump_host proxy_jump_user pool_private_key_path none none (some proxy_port) [] []
