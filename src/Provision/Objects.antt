-- ===== src/Provision/Objects.antt =====
-- The objects of one sandbox and of one entrypoint: `_provision_access`, `_provision_dns` and
-- `_provision_single_entrypoint` of crczp/sandbox_instance_app/lib/netbird.py.
use backend_sandbox_service.Prelude.{
  ℕ, true, false, not, none, some, List, [], ◌∷◌, ◌++◌, String, str_append, str_eq, ◌&&◌,
}
use backend_sandbox_service.Errors.{Done, integrity_error, ok, err, pure, when, ◌>>=◌, ◌>>◌}
use backend_sandbox_service.Provision.Rows.{Resource, AccessRow, put_row, find_row, new_row, join}
use backend_sandbox_service.Provision.Names.{dashed, make_network_id}
use backend_sandbox_service.Provision.Calls.{
  VpnEntrypoint, VpnDns, create_group, create_setup_key, create_route, create_policy,
  create_nameserver_group, made_group, made_route, made_policy, made_nameserver_group, Provision,
  Service, is_nil, created_id, created_key, key_of, query, save, save_access, create,
}

-- The name of the stack without the padding of its numbers, and the time that keys last.
module _ (service : Service) (stack_name : String) (key_expiry_seconds : ℕ) where
  -- `_provision_access`
  unfoldable pub provision_access : AccessRow → Provision Done
  unfolding create created_id created_key save_access dashed key_of
  provision_access access = do
    access_group_id ←
        create service created_id made_group (create_group (dashed stack_name "access"))
    save_access service (record access { access_group_id = some access_group_id })
    (access_key_id, access_key_value) ←
        create service created_key key_of
          (create_setup_key (dashed stack_name "access") (access_group_id ∷ []) key_expiry_seconds)
    save_access service (record access {
      access_group_id = some access_group_id;
      access_setup_key_id = some access_key_id;
      access_setup_key_value = some access_key_value;
    })

  -- `_provision_dns`
  unfoldable pub provision_dns : AccessRow → VpnDns → Provision Done
  unfolding create created_id save_access dashed
  provision_dns access dns = elim access.access_group_id [
    | none ↦ pure tt
    | some access_group_id ↦ when (not (str_eq access_group_id "") && not (is_nil dns.servers)) (do
      nameserver_group_id ← create service created_id made_nameserver_group (
          create_nameserver_group (dashed stack_name "dns") dns.servers (access_group_id ∷ [])
            (is_nil dns.search_domains) dns.search_domains)
      save_access service (record access { dns_nameserver_group_id = some nameserver_group_id }))
  ]

  -- `SandboxNetbirdResources.objects.get_or_create(...)`
  unfoldable pub get_or_create_row : String → Provision Resource
  unfolding query find_row new_row put_row
  get_or_create_row host_name = query service >>= λ there. λ s. elim there [
    | false ↦ (err integrity_error, s)
    | true ↦ elim (find_row host_name s.rows) [
      | some nbr ↦ (ok nbr, s)
      | none ↦ (ok (new_row host_name), record s { rows = s.rows ++ new_row host_name ∷ [] })
    ]
  ]

  unfoldable pub attach_group : Resource → Provision (String × Resource)
  unfolding create created_id save dashed
  attach_group nbr = do
    host_group_id ←
        create service created_id made_group
          (create_group (dashed stack_name nbr.entrypoint_host_name))
    save service (record nbr { host_group_id = some host_group_id })
    pure (host_group_id, record nbr { host_group_id = some host_group_id })

  unfoldable pub attach_key : String → Resource → Provision Resource
  unfolding create created_key key_of save dashed
  attach_key host_group_id nbr = do
    (host_key_id, host_key_value) ← create service created_key key_of (
        create_setup_key (dashed stack_name (str_append nbr.entrypoint_host_name "-host"))
          (host_group_id ∷ []) key_expiry_seconds)
    let nbr' = record nbr {
      host_setup_key_id = some host_key_id;
      host_setup_key_value = some host_key_value;
    }
    save service nbr'
    pure nbr'

  -- The loop over the routes.
  unfoldable pub create_routes : String → String → String → List String → Provision (List String)
  unfolding create created_id make_network_id
  create_routes host_name host_group_id access_group_id [] = pure []
  create_routes host_name host_group_id access_group_id (cidr ∷ routes) = do
    route_id ← create service created_id made_route (
        create_route (make_network_id stack_name host_name cidr) cidr (host_group_id ∷ [])
          (access_group_id ∷ []))
    route_ids ← create_routes host_name host_group_id access_group_id routes
    pure (route_id ∷ route_ids)

  unfoldable pub attach_routes : String → String → List String → Resource → Provision Resource
  unfolding create_routes join save
  attach_routes host_group_id access_group_id routes nbr = do
    route_ids ← create_routes nbr.entrypoint_host_name host_group_id access_group_id routes
    let nbr' = record nbr { route_ids = some (join route_ids); route_cidrs = some (join routes) }
    save service nbr'
    pure nbr'

  unfoldable pub attach_policy : String → String → Resource → Provision Resource
  unfolding create created_id save dashed
  attach_policy host_group_id access_group_id nbr = do
    policy_id ← create service created_id made_policy (
        create_policy (dashed stack_name (str_append nbr.entrypoint_host_name "-policy"))
          (access_group_id ∷ []) (host_group_id ∷ []))
    save service (record nbr { policy_id = some policy_id })
    pure (record nbr { policy_id = some policy_id })

  -- `_provision_single_entrypoint`
  unfoldable pub provision_single_entrypoint : String → VpnEntrypoint → Provision Resource
  provision_single_entrypoint access_group_id ep = do
    nbr ← get_or_create_row ep.name
    (host_group_id, nbr_with_group) ← attach_group nbr
    nbr_with_key ← attach_key host_group_id nbr_with_group
    nbr_with_routes ← attach_routes host_group_id access_group_id ep.routes nbr_with_key
    attach_policy host_group_id access_group_id nbr_with_routes
