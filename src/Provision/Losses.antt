-- ===== src/Provision/Losses.antt =====
-- What a provisioning leaves without a record when the sandbox goes or a route fails.
use backend_sandbox_service.Prelude.{
  ℕ, ◌≡◌, true, false, List, [], ◌∷◌, ◌++◌, append_assoc, String, arith,
}
use backend_sandbox_service.Errors.{Exc, ok, err}
use backend_sandbox_service.Provision.{
  Resource, VpnEntrypoint, Service, ProvisionState, Step, CreateCall, create, created_id, unread_of,
  made_route, made_group, queried, called, query, find_row, save, provision_single_entrypoint,
  pick_partial, provision_entrypoint, create_routes, attach_routes, attach_group, create_group,
  create_route, dashed, make_network_id, get_or_create_row, new_row, write_row, cascade,
}
use backend_sandbox_service.Provision.Writes.{others, find_row-others}

module _ (service : Service) (stack_name : String) (key_expiry_seconds : ℕ) where
  -- Where the sandbox is deleted while the group of an entrypoint's host is being made, the group
  -- was made and the entrypoint is passed over without an exception, but nothing is kept for the
  -- teardown at the end: neither a row nor an object in memory names the group.
  pub provision_entrypoint-orphan :
      (access_group_id group : String) (ep : VpnEntrypoint) (s : ProvisionState)
      → others ep.name s.rows ≡ true
      → service.exists s.steps ≡ ok true
      → created_id
          (service.reply (s.steps ++ queried ∷ []) (create_group (dashed stack_name ep.name)))
        ≡ ok group
      → ((calls : List Step)
          → service.exists
              (s.steps ++ queried ∷ [] ++ called (create_group (dashed stack_name ep.name)) ∷ calls)
            ≡ ok false)
      → let r = provision_entrypoint service stack_name key_expiry_seconds access_group_id ep s in
        (r.0 ≡ ok tt)
        × (r.1.made ≡ s.made ++ made_group group ∷ [])
        × (r.1.rows ≡ [])
        × (r.1.created ≡ s.created)
  unfolding provision_entrypoint provision_single_entrypoint get_or_create_row attach_group create
      save write_row query cascade pick_partial new_row find_row
  provision_entrypoint-orphan access_group_id group ep s h at_first made gone = ground (
    arith,
    at_first,
    made,
    gone [],
    gone (queried ∷ []),
    append_assoc (s.steps ++ queried ∷ []) (called (create_group (dashed stack_name ep.name)) ∷ [])
        (queried ∷ []),
    find_row-others ep.name s.rows h,
  )

  -- The call that makes a route.
  unfoldable pub route_call : Resource → String → String → String → CreateCall
  route_call nbr host_group_id access_group_id cidr =
      create_route (make_network_id stack_name nbr.entrypoint_host_name cidr) cidr
        (host_group_id ∷ []) (access_group_id ∷ [])

  -- Where the first route of an entrypoint is made and the second cannot be made, the exception
  -- leaves the rows as they were before any route: none of them names the first route.
  pub attach_routes-lost :
      (host_group_id access_group_id cidr next route_id : String) (routes : List String) (e : Exc)
      (nbr : Resource) (s : ProvisionState)
      → created_id (service.reply s.steps (route_call nbr host_group_id access_group_id cidr))
        ≡ ok route_id
      → created_id (
          service.reply
            (s.steps ++ called (route_call nbr host_group_id access_group_id cidr) ∷ [])
            (route_call nbr host_group_id access_group_id next))
        ≡ err e
      → ((attach_routes service stack_name key_expiry_seconds host_group_id access_group_id
            (cidr ∷ next ∷ routes)
            nbr
            s).0
          ≡ err e)
        × ((attach_routes service stack_name key_expiry_seconds host_group_id access_group_id
              (cidr ∷ next ∷ routes)
              nbr
              s).1.rows
            ≡ s.rows)
        × ((attach_routes service stack_name key_expiry_seconds host_group_id access_group_id
              (cidr ∷ next ∷ routes)
              nbr
              s).1.made
            ≡ s.made
              ++ made_route route_id
                ∷ unread_of
                    (service.reply
                      (s.steps ++ called (route_call nbr host_group_id access_group_id cidr) ∷ [])
                      (route_call nbr host_group_id access_group_id next))
                    (route_call nbr host_group_id access_group_id next))
  unfolding attach_routes create_routes create route_call
  attach_routes-lost host_group_id access_group_id cidr next route_id routes e nbr s made failed =
      let after =
        service.reply (s.steps ++ called (route_call nbr host_group_id access_group_id cidr) ∷ [])
          (route_call nbr host_group_id access_group_id next) in
      ground (
        arith,
        made,
        failed,
        append_assoc s.made (made_route route_id ∷ [])
            (unread_of after (route_call nbr host_group_id access_group_id next)),
      )
