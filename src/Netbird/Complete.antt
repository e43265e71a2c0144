-- ===== src/Netbird/Complete.antt =====
-- The teardown that is not cut short.
use backend_sandbox_service.Prelude.{
  ◌≡◌, refl, ◌∙◌, true, false, Option, none, some, List, [], ◌∷◌, ◌++◌, String, arith,
}
use backend_sandbox_service.Prelude.Int.{ℤ, pos, ◌+ℤ◌, ltb_ℤ}
use backend_sandbox_service.Errors.{Done, ok, pure, catch, is_netbird_api, ◌>>=◌, ◌>>◌}
use backend_sandbox_service.Netbird.{
  Service, Teardown, TeardownState, Step, checked, NetbirdCall, Entrypoint, Access, send, request,
  attempt, expired, unless_expired, if_set, guarded, list_peers, peers_of, delete_peers,
  delete_group_peers, delete_routes, destroy_host_group, destroy_host_key, remove_row, delete_row,
  delete_access_row, destroy_single_entrypoint, destroy_access_group, destroy_access_key,
  destroy_access, destroy_last, destroy_rows, start_teardown, teardown_budget_seconds,
  destroy_netbird_for_sandbox, delete_peer, delete_route, delete_group, delete_policy,
  delete_setup_key, delete_nameserver_group, list_group_peer_ids,
}
use backend_sandbox_service.Netbird.Effects.{
  Returns, is_readable, Does, pure-Does, then-Does, bind-Does, attempt-Does, if_set-Does,
  attempt_set-Does,
}

-- The rows without those listed, and what stays of the access row that was looked at.
remove_rows : List Entrypoint → List Entrypoint → List Entrypoint
remove_rows [] r = r
remove_rows (nbr ∷ rows) r = remove_rows rows (remove_row nbr.id r)

left : Option Access → Option Access → Option Access
left none a = a
left (some _) a = none

remove_rows-same : (rows : List Entrypoint) → remove_rows rows rows ≡ []
unfolding remove_rows remove_row
remove_rows-same [] = refl
remove_rows-same (nbr ∷ rows) = ground (arith, remove_rows-same rows)

left-same : (access : Option Access) → left access access ≡ none
unfolding left
left-same none = refl
left-same (some _) = refl

module _ (service : Service) where
  module _ (deadline : ℤ)
      (prompt : (steps : List Step) → ltb_ℤ deadline (pos (service.monotonic steps)) ≡ false)
      (readable : (steps : List Step) (call : NetbirdCall)
        → is_readable (service.reply steps call) ≡ true) where
    unless_expired-Does :
        (f : List Entrypoint → List Entrypoint) (g : Option Access → Option Access)
        (m : Teardown Done)
        → Does f g m
        → Does f g (unless_expired service (some deadline) m)
    unfolding Does unless_expired expired
    unless_expired-Does f g m hm s =
        ground (arith, prompt s.steps, hm (record s { steps = s.steps ++ checked ∷ [] }))

    found-Does :
        (id : String) → Returns (catch is_netbird_api (list_peers service id) (λ _. pure []))
    unfolding Does list_peers send request peers_of
    found-Does id s = ground (arith, readable s.steps (list_group_peer_ids id))

    -- A part that leaves the rows, before one that may change them.
    part-Does :
        (f : List Entrypoint → List Entrypoint) (g : Option Access → Option Access)
        (m rest : Teardown Done)
        → Returns m
        → Does f g rest
        → Does f g (unless_expired service (some deadline) (m >> rest))
    part-Does f g m rest hm hr =
        unless_expired-Does f g (m >> rest) (bind-Does f g m (λ _. rest) hm (λ _. hr))

    delete_peers-Does : (ids : List String) → Returns (delete_peers service (some deadline) ids)
    unfolding delete_peers
    delete_peers-Does [] = pure-Does
    delete_peers-Does (id ∷ ids) =
        part-Does (λ r. r) (λ a. a) (attempt service (delete_peer id))
          (delete_peers service (some deadline) ids) (attempt-Does service (delete_peer id))
          (delete_peers-Does ids)

    delete_group_peers-Does :
        (group : Option String) → Returns (delete_group_peers service (some deadline) group)
    unfolding delete_group_peers
    delete_group_peers-Does group =
        if_set-Does service group
          (λ id.
            catch is_netbird_api (list_peers service id) (λ _. pure [])
            >>= delete_peers service (some deadline))
          (λ id.
            bind-Does (λ r. r) (λ a. a)
              (catch is_netbird_api (list_peers service id) (λ _. pure []))
              (delete_peers service (some deadline)) (found-Does id) delete_peers-Does)

    delete_routes-Does :
        (f : List Entrypoint → List Entrypoint) (ids : List String) (k : Teardown Done)
        → Does f (λ a. a) k
        → Does f (λ a. a) (delete_routes service (some deadline) ids k)
    unfolding delete_routes
    delete_routes-Does f [] k hk = hk
    delete_routes-Does f (id ∷ ids) k hk =
        part-Does f (λ a. a) (attempt service (delete_route id))
          (delete_routes service (some deadline) ids k) (attempt-Does service (delete_route id))
          (delete_routes-Does f ids k hk)

    -- The key, the peers of the group, and the group.
    key_part-Does :
        (f : List Entrypoint → List Entrypoint) (g : Option Access → Option Access)
        (key group : Option String) (rest : Teardown Done)
        → Does f g rest
        → Does f g (
            unless_expired service (some deadline) (
              if_set key (λ id. attempt service (delete_setup_key id))
              >> (delete_group_peers service (some deadline) group >> rest)))
    key_part-Does f g key group rest h =
        part-Does f g (if_set key (λ id. attempt service (delete_setup_key id)))
          (delete_group_peers service (some deadline) group >> rest)
          (attempt_set-Does service key delete_setup_key)
          (bind-Does f g (delete_group_peers service (some deadline) group) (λ _. rest)
            (delete_group_peers-Does group) (λ _. h))

    delete_row-Does : (nbr : Entrypoint) → Does (remove_row nbr.id) (λ a. a) (delete_row nbr)
    unfolding Does delete_row
    delete_row-Does nbr s = (refl, refl, refl)

    delete_access_row-Does : Does (λ r. r) (λ _. none) delete_access_row
    unfolding Does delete_access_row
    delete_access_row-Does s = (refl, refl, refl)

    destroy_single_entrypoint-Does :
        (nbr : Entrypoint)
        → Does (remove_row nbr.id) (λ a. a) (destroy_single_entrypoint service (some deadline) nbr)
    unfolding destroy_single_entrypoint destroy_host_key destroy_host_group
    destroy_single_entrypoint-Does nbr =
        part-Does (remove_row nbr.id) (λ a. a)
          (if_set nbr.policy_id (λ id. attempt service (delete_policy id)))
          (delete_routes service (some deadline) nbr.route_id_list
            (destroy_host_key service (some deadline) nbr))
          (attempt_set-Does service nbr.policy_id delete_policy)
          (delete_routes-Does (remove_row nbr.id) nbr.route_id_list
            (destroy_host_key service (some deadline) nbr)
            (key_part-Does (remove_row nbr.id) (λ a. a) nbr.host_setup_key_id nbr.host_group_id
              (destroy_host_group service (some deadline) nbr)
              (part-Does (remove_row nbr.id) (λ a. a)
                (if_set nbr.host_group_id (λ id. attempt service (delete_group id)))
                (delete_row nbr) (attempt_set-Does service nbr.host_group_id delete_group)
                (delete_row-Does nbr))))

    destroy_access-Does :
        (access : Access)
        → Does (λ r. r) (λ _. none) (destroy_access service (some deadline) access)
    unfolding destroy_access destroy_access_key destroy_access_group
    destroy_access-Does access =
        part-Does (λ r. r) (λ _. none)
          (if_set access.dns_nameserver_group_id
            (λ id. attempt service (delete_nameserver_group id)))
          (destroy_access_key service (some deadline) access)
          (attempt_set-Does service access.dns_nameserver_group_id delete_nameserver_group)
          (key_part-Does (λ r. r) (λ _. none) access.access_setup_key_id access.access_group_id
            (destroy_access_group service (some deadline) access)
            (part-Does (λ r. r) (λ _. none)
              (if_set access.access_group_id (λ id. attempt service (delete_group id)))
              delete_access_row (attempt_set-Does service access.access_group_id delete_group)
              delete_access_row-Does))

    guarded-Does :
        (f : List Entrypoint → List Entrypoint) (g : Option Access → Option Access)
        (m : Teardown Done)
        → Does f g m
        → Does f g (guarded m)
    unfolding guarded Does
    guarded-Does f g m hm s = ground (arith, hm s)

    destroy_last-Does :
        (access : Option Access)
        → Does (λ r. r) (left access) (destroy_last service (some deadline) access)
    unfolding destroy_last left
    destroy_last-Does none = pure-Does
    destroy_last-Does (some access) =
        unless_expired-Does (λ r. r) (λ _. none)
          (guarded (destroy_access service (some deadline) access))
          (guarded-Does (λ r. r) (λ _. none) (destroy_access service (some deadline) access)
            (destroy_access-Does access))

    destroy_rows-Does :
        (rows : List Entrypoint) (access : Option Access)
        → Does (remove_rows rows) (left access) (destroy_rows service (some deadline) rows access)
    unfolding destroy_rows remove_rows
    destroy_rows-Does [] access = destroy_last-Does access
    destroy_rows-Does (nbr ∷ rows) access =
        unless_expired-Does (λ r. remove_rows rows (remove_row nbr.id r)) (left access)
          (guarded (destroy_single_entrypoint service (some deadline) nbr)
            >> destroy_rows service (some deadline) rows access)
          (then-Does (remove_row nbr.id) (remove_rows rows) (λ a. a) (left access)
            (guarded (destroy_single_entrypoint service (some deadline) nbr))
            (destroy_rows service (some deadline) rows access)
            (guarded-Does (remove_row nbr.id) (λ a. a)
              (destroy_single_entrypoint service (some deadline) nbr)
              (destroy_single_entrypoint-Does nbr))
            (destroy_rows-Does rows access))

module _ (service : Service) where
  -- Where the clock never passes the deadline that the budget sets, and every answered listing is
  -- JSON, a teardown with a client leaves no row of the sandbox, although any call may have failed.
  pub destroy_netbird_for_sandbox-rows :
      (budget : Option ℤ) (s : TeardownState)
      → ((steps : List Step)
          → ltb_ℤ
              (pos (service.monotonic s.steps) +ℤ teardown_budget_seconds budget)
              (pos (service.monotonic steps))
            ≡ false)
      → ((steps : List Step) (call : NetbirdCall) → is_readable (service.reply steps call) ≡ true)
      → ((destroy_netbird_for_sandbox service (ok true) budget s).1.rows ≡ [])
        × ((destroy_netbird_for_sandbox service (ok true) budget s).1.access ≡ none)
  unfolding destroy_netbird_for_sandbox start_teardown Does
  destroy_netbird_for_sandbox-rows budget s prompt readable =
      let (_, rows, access) =
        destroy_rows-Does service
          (pos (service.monotonic s.steps) +ℤ teardown_budget_seconds budget) prompt readable s.rows
          s.access s in
      (rows ∙ remove_rows-same s.rows, access ∙ left-same s.access)
