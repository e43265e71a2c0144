-- ===== src/Inventory/Known.antt =====
-- Which hosts an inventory has, and actions that return where it has those that they ask for.
use backend_sandbox_service.Prelude.{
  ◌≡◌, refl, Bool, true, not, List, [], ◌∷◌, String, str_eq, eq_iff, contains, is_some, ◌&&◌, ◌||◌,
  all, arith, inl, inr,
}
use backend_sandbox_service.Errors.{Done, ok, is_ok, Result-cases, ◌>>◌}
use backend_sandbox_service.Inventory.{
  Host, Group, InventoryState, InventoryAction, put_host, find_host, put_group, find_group,
  add_group, pick_hosts, add_picked, change_host, put_names,
}

abbrev pub known : List Host → String → Bool
known hosts name = is_some (find_host name hosts)

-- Every name has a host.
abbrev pub knows : List String → List Host → Bool
knows names hosts = all (known hosts) names

pub put_host-known :
    (host : Host) (name : String) (hosts : List Host)
    → known (put_host host hosts) name ≡ (str_eq host.name name || known hosts name)
unfolding put_host find_host
put_host-known host name [] = ground arith
put_host-known host name (other ∷ hosts) = ground (
  arith,
  put_host-known host name hosts,
  eq_iff other.name host.name,
  eq_iff other.name name,
  eq_iff host.name name,
)

pub change_host-known :
    (change : Host → Host) (name other : String) (hosts : List Host)
    → ((host : Host) → (change host).name ≡ host.name)
    → known (change_host change name hosts) other ≡ known hosts other
unfolding change_host find_host
change_host-known change name other [] h = refl
change_host-known change name other (host ∷ hosts) h =
    ground (arith, change_host-known change name other hosts h, h host)

pub knows-same :
    (names : List String) (hosts hosts' : List Host)
    → ((name : String) → known hosts' name ≡ known hosts name)
    → knows names hosts' ≡ knows names hosts
knows-same [] hosts hosts' h = refl
knows-same (name ∷ names) hosts hosts' h = ground (arith, h name, knows-same names hosts hosts' h)

pub pick_hosts-knows :
    (hosts : List Host) (names : List String)
    → knows names hosts ≡ true
    → is_ok (pick_hosts hosts names) ≡ true
unfolding pick_hosts
pick_hosts-knows hosts [] h = refl
pick_hosts-knows hosts (name ∷ names) h = ground (arith, pick_hosts-knows hosts names)

-- Every one of the second names is among the first, so it is known where those are.
abbrev pub among : List String → List String → Bool
among names some_names = all (λ name. contains name names) some_names

pub contains-known :
    (names : List String) (name : String) (hosts : List Host)
    → knows names hosts ≡ true
    → contains name names ≡ true
    → known hosts name ≡ true
contains-known [] name hosts h e = ground arith
contains-known (first ∷ names) name hosts h e =
    ground (arith, contains-known names name hosts, eq_iff first name)

pub among-knows :
    (names some_names : List String) (hosts : List Host)
    → knows names hosts ≡ true
    → among names some_names ≡ true
    → knows some_names hosts ≡ true
among-knows names [] hosts h e = refl
among-knows names (name ∷ some_names) hosts h e =
    ground (arith, contains-known names name hosts, among-knows names some_names hosts)

pub put_group-found :
    (group : Group) (name : String) (groups : List Group)
    → is_some (find_group name (put_group group groups))
      ≡ (str_eq group.name name || is_some (find_group name groups))
unfolding put_group find_group
put_group-found group name [] = ground arith
put_group-found group name (other ∷ groups) = ground (
  arith,
  put_group-found group name groups,
  eq_iff other.name group.name,
  eq_iff other.name name,
  eq_iff group.name name,
)

-- How far the inventory is: there is the group for WinRM, and where there are containers their hosts
-- have been found.
pub data Phase : Type 0 where
  begun grouped : Phase
  dockered : (has_containers : Bool) → Phase

unfoldable pub holds : Phase → InventoryState → Bool
holds begun s = true
holds grouped s = is_some (find_group "winrm_nodes" s.groups)
holds (dockered has_containers) s =
    is_some (find_group "winrm_nodes" s.groups) && (not has_containers || is_some s.docker_hosts)

-- The action returns where the names are known, and leaves them known.
unfoldable pub Safe : List String → Phase → Phase → InventoryAction Done → Type 0
Safe names before after m =
    (s : InventoryState)
    → knows names s.hosts ≡ true
    → holds before s ≡ true
    → ((m s).0 ≡ ok tt) × (knows names (m s).1.hosts ≡ true) × (holds after (m s).1 ≡ true)

pub pure-Safe : (names : List String) (a : Phase) → Safe names a a (λ s. (ok tt, s))
unfolding Safe
pure-Safe names a s h g = (refl, h, g)

pub then-Safe :
    (names : List String) (a b c : Phase) (m k : InventoryAction Done)
    → Safe names a b m
    → Safe names b c k
    → Safe names a c (m >> k)
unfolding Safe
then-Safe names a b c m k hm hk s h g =
    let (done, knows', holds') = hm s h g in
    let (done', knows'', holds'') = hk (m s).1 knows' holds' in
    (ground (arith, done, done'), ground (arith, done, knows''), ground (arith, done, holds''))

pub add_group-Safe :
    (names : List String) (a : Phase) (name : String) (hosts : List String)
    → Safe names a a (add_group name hosts)
unfolding Safe add_group holds
add_group-Safe names begun name hosts s h g = (refl, h, refl)
add_group-Safe names grouped name hosts s h g = (
  refl,
  h,
  ground (
    arith,
    put_group-found (record { name = name; hosts = put_names hosts []; hosts_vars = [] })
        "winrm_nodes" s.groups,
  ),
)
add_group-Safe names (dockered has_containers) name hosts s h g = (
  refl,
  h,
  ground (
    arith,
    put_group-found (record { name = name; hosts = put_names hosts []; hosts_vars = [] })
        "winrm_nodes" s.groups,
  ),
)

pub add_group-winrm :
    (names : List String) (a : Phase) (hosts : List String)
    → Safe names a grouped (add_group "winrm_nodes" hosts)
unfolding Safe add_group holds
add_group-winrm names a hosts s h g = (
  refl,
  h,
  ground (
    arith,
    put_group-found (record { name = "winrm_nodes"; hosts = put_names hosts []; hosts_vars = [] })
        "winrm_nodes" s.groups,
  ),
)

pub add_picked-Safe :
    (names : List String) (a b : Phase) (name : String) (members : List String)
    → ((hosts : List String) → Safe names a b (add_group name hosts))
    → among names members ≡ true
    → Safe names a b (add_picked name members)
unfolding Safe add_picked
add_picked-Safe names a b name members added fit s h g =
    let picked_ok = pick_hosts-knows s.hosts members (among-knows names members s.hosts h fit) in
    elim (Result-cases (pick_hosts s.hosts members)) [
      | inr (e, failed) ↦ (
        ground (arith, failed, picked_ok),
        ground (arith, failed, picked_ok),
        ground (arith, failed, picked_ok),
      )
      | inl (picked, found) ↦
          let (done, knows', holds') = added picked s h g in
          (
            ground (arith, found, done),
            ground (arith, found, knows'),
            ground (arith, found, holds'),
          )
    ]
