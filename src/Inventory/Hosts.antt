-- ===== src/Inventory/Hosts.antt =====
-- Hosts, groups and the dictionaries that hold them: Host, Group and BaseInventory of
-- crczp/sandbox_ansible_app/lib/inventory.py.
use backend_sandbox_service.Prelude.{
  Bool, false, Option, none, some, List, [], ◌∷◌, ◌++◌, String, str_eq, contains, if◌then◌else◌,
}
use backend_sandbox_service.Errors.{
  Done, key_error, Result, ok, err, Exec, lift, gets, modify, ◌>>=◌,
}
use backend_sandbox_service.Inventory.Routing.{Route}

-- The variables of a host that this code sets, beside its address and user.
pub record Host : Type 0 where
  pub name : String
  pub ansible_host : String
  pub ansible_user : String
  pub ip_forward : Bool
  pub user_network_ip : Option String
  pub containers_path : Option String

-- A group names its hosts; `hosts_vars` has the setup key of NetBird of a host.
pub record Group : Type 0 where
  pub name : String
  pub hosts : List String
  pub hosts_vars : List (String × String)

-- `routes` are those of the management node, of the routing.
pub record InventoryState : Type 0 where
  pub hosts : List Host
  pub groups : List Group
  pub docker_hosts : Option (List String)
  pub routes : List Route

abbrev pub InventoryAction : Type 0 → Type 0
InventoryAction A = Exec InventoryState A

unfoldable pub new_host : String → String → String → Host
new_host name address user = record {
  name = name;
  ansible_host = address;
  ansible_user = user;
  ip_forward = false;
  user_network_ip = none;
  containers_path = none;
}

-- `self.hosts[host.name] = host`
unfoldable pub put_host : Host → List Host → List Host
put_host host [] = host ∷ []
put_host host (other ∷ hosts) =
    let rest = put_host host hosts in
    if str_eq other.name host.name then host ∷ hosts else other ∷ rest

unfoldable pub find_host : String → List Host → Option Host
find_host name [] = none
find_host name (host ∷ hosts) =
    let rest = find_host name hosts in if str_eq host.name name then some host else rest

unfoldable pub put_group : Group → List Group → List Group
put_group group [] = group ∷ []
put_group group (other ∷ groups) =
    let rest = put_group group groups in
    if str_eq other.name group.name then group ∷ groups else other ∷ rest

unfoldable pub find_group : String → List Group → Option Group
find_group name [] = none
find_group name (group ∷ groups) =
    let rest = find_group name groups in if str_eq group.name name then some group else rest

-- `{host.name: host for host in hosts}`: the names without their repetitions.
unfoldable pub put_name : String → List String → List String
put_name name names = if contains name names then names else names ++ name ∷ []

unfoldable pub put_names : List String → List String → List String
unfolding put_name
put_names [] names = names
put_names (name ∷ more) names = put_names more (put_name name names)

unfoldable pub add_host : Host → InventoryAction Done
unfolding put_host
add_host host = modify (λ s. record s { hosts = put_host host s.hosts })

unfoldable pub add_group : String → List String → InventoryAction Done
unfolding put_group put_names
add_group name hosts = modify (λ s. record s {
  groups = put_group (record { name = name; hosts = put_names hosts []; hosts_vars = [] }) s.groups;
})

-- `[inventory.hosts[name] for name in names]`: a KeyError where there is no such host.
unfoldable pub pick_hosts : List Host → List String → Result (List String)
unfolding find_host
pick_hosts hosts [] = ok []
pick_hosts hosts (name ∷ names) =
    let rest = pick_hosts hosts names in
    elim (find_host name hosts) [
      | none ↦ err key_error
      | some host ↦ elim rest [ ok picked ↦ ok (host.name ∷ picked) | err e ↦ err e ]
    ]

unfoldable pub add_picked : String → List String → InventoryAction Done
unfolding pick_hosts add_group
add_picked name names =
    gets (λ s. s.hosts) >>= λ hosts. lift (pick_hosts hosts names) >>= add_group name

-- `host.add_variables(...)` on the entry of the dictionary.
unfoldable pub change_host : (Host → Host) → String → List Host → List Host
change_host change name [] = []
change_host change name (host ∷ hosts) =
    let rest = change_host change name hosts in
    if str_eq host.name name then change host ∷ hosts else host ∷ rest
