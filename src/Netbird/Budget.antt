-- ===== src/Netbird/Budget.antt =====
-- The rules of pace, applied to the teardown.
use backend_sandbox_service.Prelude.{
  ℕ, suc, ◌≤◌, ◌≡◌, Bool, true, false, Option, none, some, List, [], ◌∷◌, String, arith,
}
use backend_sandbox_service.Prelude.Int.{ℤ, pos, ◌+ℤ◌}
use backend_sandbox_service.Errors.{Done, Result, ok, err, pure, lift, catch, is_netbird_api, ◌>>◌}
use backend_sandbox_service.Netbird.{
  Service, Teardown, TeardownState, Entrypoint, Access, send, attempt, unless_expired, if_set,
  guarded, list_group_peer_ids, peers_of, delete_peer, delete_route, delete_group, delete_policy,
  delete_setup_key, delete_nameserver_group, list_peers, delete_peers, delete_group_peers,
  delete_routes, destroy_host_group, destroy_host_key, delete_row, delete_access_row,
  destroy_single_entrypoint, destroy_access_group, destroy_access_key, destroy_access, destroy_last,
  destroy_rows, start_teardown, teardown_budget_seconds, destroy_netbird_for_sandbox,
}
use backend_sandbox_service.Netbird.Pace.{
  IsPaced, Paces, bind-Paces, pure-Paces, lift-Paces, weaken-Paces, caught-Paces, send-Paces,
  attempt-Paces, if_set-Paces, attempt_set-Paces, unless_expired-Paces, guarded-Paces,
}

module _ (service : Service) where
  list_peers-Paces : (n : ℕ) (id : String) → suc n ≤ 2 → Paces n (suc n) (list_peers service id)
  unfolding list_peers
  list_peers-Paces n id le =
      bind-Paces n (suc n) (suc n) (send service (list_group_peer_ids id))
        (λ found. lift (peers_of found)) (omega arith)
        (send-Paces service n (list_group_peer_ids id) le)
        (λ found. lift-Paces (suc n) (peers_of found))

  module _ (deadline : ℤ) where
    -- A reading of the clock, at most two calls, and more of the like.
    paced_part :
        (k : ℕ) (m rest : Teardown Done)
        → k ≤ 2
        → Paces 0 k m
        → Paces 2 2 rest
        → Paces 2 2 (unless_expired service (some deadline) (m >> rest))
    paced_part k m rest le hm hr =
        unless_expired-Paces service deadline 2 (m >> rest) (
          bind-Paces 0 k 2 m (λ _. rest) le hm (λ _. weaken-Paces 2 k 2 2 rest le (omega arith) hr))

    delete_peers-Paces : (ids : List String) → Paces 2 2 (delete_peers service (some deadline) ids)
    unfolding delete_peers
    delete_peers-Paces [] = pure-Paces 2 tt
    delete_peers-Paces (id ∷ ids) =
        paced_part 1 (attempt service (delete_peer id)) (delete_peers service (some deadline) ids)
          (omega arith) (attempt-Paces service 0 (delete_peer id) (omega arith))
          (delete_peers-Paces ids)

    delete_group_peers-Paces :
        (id : Option String) → Paces 1 2 (delete_group_peers service (some deadline) id)
    unfolding delete_group_peers
    delete_group_peers-Paces id = if_set-Paces service 1 2 id _ (omega arith) (λ i.
        bind-Paces 1 2 2 (catch is_netbird_api (list_peers service i) (λ _. pure []))
          (delete_peers service (some deadline)) (omega arith)
          (caught-Paces 1 2 is_netbird_api (list_peers service i) []
            (list_peers-Paces 1 i (omega arith)))
          (λ ids. delete_peers-Paces ids))

    delete_routes-Paces :
        (ids : List String) (k : Teardown Done)
        → Paces 2 2 k
        → Paces 2 2 (delete_routes service (some deadline) ids k)
    unfolding delete_routes
    delete_routes-Paces [] k hk = hk
    delete_routes-Paces (id ∷ ids) k hk =
        paced_part 1 (attempt service (delete_route id))
          (delete_routes service (some deadline) ids k) (omega arith)
          (attempt-Paces service 0 (delete_route id) (omega arith)) (delete_routes-Paces ids k hk)

    delete_row-Paces : (nbr : Entrypoint) → Paces 2 2 (delete_row nbr)
    unfolding Paces delete_row
    delete_row-Paces nbr s h = h

    delete_access_row-Paces : Paces 2 2 delete_access_row
    unfolding Paces delete_access_row
    delete_access_row-Paces s h = h

    destroy_host_group-Paces :
        (nbr : Entrypoint) → Paces 2 2 (destroy_host_group service (some deadline) nbr)
    unfolding destroy_host_group
    destroy_host_group-Paces nbr =
        paced_part 1 (if_set nbr.host_group_id (λ id. attempt service (delete_group id)))
          (delete_row nbr) (omega arith)
          (attempt_set-Paces service 0 nbr.host_group_id delete_group (omega arith))
          (delete_row-Paces nbr)

    -- A key and the peers of its group: the only two calls without a reading between them.
    key_part :
        (key group : Option String) (rest : Teardown Done)
        → Paces 2 2 rest
        → Paces 2 2 (
            unless_expired service (some deadline) (
              if_set key (λ id. attempt service (delete_setup_key id))
              >> (delete_group_peers service (some deadline) group >> rest)))
    key_part key group rest h = unless_expired-Paces service deadline 2 _ (
        bind-Paces 0 1 2 (if_set key (λ id. attempt service (delete_setup_key id)))
          (λ _. delete_group_peers service (some deadline) group >> rest) (omega arith)
          (attempt_set-Paces service 0 key delete_setup_key (omega arith))
          (λ _.
            bind-Paces 1 2 2 (delete_group_peers service (some deadline) group) (λ _. rest)
              (omega arith) (delete_group_peers-Paces group) (λ _. h)))

    destroy_host_key-Paces :
        (nbr : Entrypoint) → Paces 2 2 (destroy_host_key service (some deadline) nbr)
    unfolding destroy_host_key
    destroy_host_key-Paces nbr =
        key_part nbr.host_setup_key_id nbr.host_group_id
          (destroy_host_group service (some deadline) nbr) (destroy_host_group-Paces nbr)

    destroy_single_entrypoint-Paces :
        (nbr : Entrypoint) → Paces 2 2 (destroy_single_entrypoint service (some deadline) nbr)
    unfolding destroy_single_entrypoint
    destroy_single_entrypoint-Paces nbr =
        paced_part 1 (if_set nbr.policy_id (λ id. attempt service (delete_policy id)))
          (delete_routes service (some deadline) nbr.route_id_list
            (destroy_host_key service (some deadline) nbr))
          (omega arith) (attempt_set-Paces service 0 nbr.policy_id delete_policy (omega arith))
          (delete_routes-Paces nbr.route_id_list (destroy_host_key service (some deadline) nbr)
            (destroy_host_key-Paces nbr))

    destroy_access_group-Paces :
        (access : Access) → Paces 2 2 (destroy_access_group service (some deadline) access)
    unfolding destroy_access_group
    destroy_access_group-Paces access =
        paced_part 1 (if_set access.access_group_id (λ id. attempt service (delete_group id)))
          delete_access_row (omega arith)
          (attempt_set-Paces service 0 access.access_group_id delete_group (omega arith))
          delete_access_row-Paces

    destroy_access-Paces :
        (access : Access) → Paces 2 2 (destroy_access service (some deadline) access)
    unfolding destroy_access destroy_access_key
    destroy_access-Paces access =
        paced_part 1
          (if_set access.dns_nameserver_group_id
            (λ id. attempt service (delete_nameserver_group id)))
          (destroy_access_key service (some deadline) access) (omega arith)
          (attempt_set-Paces service 0 access.dns_nameserver_group_id delete_nameserver_group
            (omega arith))
          (key_part access.access_setup_key_id access.access_group_id
            (destroy_access_group service (some deadline) access)
            (destroy_access_group-Paces access))

    destroy_last-Paces :
        (access : Option Access) → Paces 2 2 (destroy_last service (some deadline) access)
    unfolding destroy_last
    destroy_last-Paces none = pure-Paces 2 tt
    destroy_last-Paces (some access) =
        unless_expired-Paces service deadline 2
          (guarded (destroy_access service (some deadline) access))
          (guarded-Paces service 0 2 (destroy_access service (some deadline) access) (
            weaken-Paces 2 0 2 2 (destroy_access service (some deadline) access) (omega arith)
              (omega arith) (destroy_access-Paces access)))

    destroy_rows-Paces :
        (rows : List Entrypoint) (access : Option Access)
        → Paces 2 2 (destroy_rows service (some deadline) rows access)
    unfolding destroy_rows
    destroy_rows-Paces [] access = destroy_last-Paces access
    destroy_rows-Paces (nbr ∷ rows) access =
        paced_part 2 (guarded (destroy_single_entrypoint service (some deadline) nbr))
          (destroy_rows service (some deadline) rows access) (omega arith)
          (guarded-Paces service 0 2 (destroy_single_entrypoint service (some deadline) nbr) (
            weaken-Paces 2 0 2 2 (destroy_single_entrypoint service (some deadline) nbr)
              (omega arith) (omega arith) (destroy_single_entrypoint-Paces nbr)))
          (destroy_rows-Paces rows access)

  -- Whatever the service answers, the teardown never makes more than two calls without a look at the
  -- clock between them.
  pub destroy_netbird_for_sandbox-IsPaced :
      (client : Result Bool) (budget : Option ℤ) (s : TeardownState)
      → s.steps ≡ []
      → IsPaced 0 (destroy_netbird_for_sandbox service client budget s).1.steps
  unfolding destroy_netbird_for_sandbox start_teardown Paces
  destroy_netbird_for_sandbox-IsPaced (ok true) budget s h =
      (destroy_rows-Paces (pos (service.monotonic s.steps) +ℤ teardown_budget_seconds budget) s.rows
        s.access s (rw (h) (omega arith, omega arith))).0
  destroy_netbird_for_sandbox-IsPaced (ok false) budget s h = rw (h) (omega arith)
  destroy_netbird_for_sandbox-IsPaced (err e) budget s h = rw (h) (omega arith)
