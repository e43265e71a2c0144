-- ===== src/Netbird.antt =====
-- The teardown of a sandbox's NetBird objects, `destroy_netbird_for_sandbox` of
-- crczp/sandbox_instance_app/lib/netbird.py, over the client's requests of
-- crczp/sandbox_common_lib/netbird_client.py.
mod Client
pub mod Total
pub mod Pace
pub mod Budget
pub mod Effects
pub mod Complete
unfoldable pub use Client.*
use backend_sandbox_service.Prelude.{
  ℕ, suc, Bool, true, false, not, Option, none, some, List, [], ◌∷◌, ◌++◌, String, str_eq, leb,
  ◌==◌, ◌&&◌, is_none, if◌then◌else◌,
}
use backend_sandbox_service.Prelude.Int.{ℤ, pos, ◌+ℤ◌, ltb_ℤ}
use backend_sandbox_service.Errors.{
  Done, Exc, value_error, netbird_api_error, is_netbird_config, is_netbird_api, Result, ok, err,
  Exec, pure, raise, gets, lift, modify, when, catch, ◌>>=◌, ◌>>◌,
}

-- What happened so far: readings of the clock against the deadline, and calls.
pub data Step : Type 0 where
  checked : Step
  called : NetbirdCall → Step

-- A row of SandboxNetbirdResources; `route_id_list` is what `get_route_id_list` gives for it.
pub record Entrypoint : Type 0 where
  pub id : ℕ
  pub policy_id : Option String
  pub route_id_list : List String
  pub host_setup_key_id : Option String
  pub host_group_id : Option String

-- A row of SandboxNetbirdAccess.
pub record Access : Type 0 where
  pub dns_nameserver_group_id : Option String
  pub access_setup_key_id : Option String
  pub access_group_id : Option String

-- The rows of the sandbox, and the steps.
pub record TeardownState : Type 0 where
  pub rows : List Entrypoint
  pub access : Option Access
  pub steps : List Step

abbrev pub Teardown : Type 0 → Type 0
Teardown A = Exec TeardownState A

-- The monotonic clock and the service, which may answer after all that has happened.
pub record Service : Type 0 where
  pub monotonic : List Step → ℕ
  pub reply : List Step → NetbirdCall → Reply

-- `if value:`, for a text that may be missing.
unfoldable pub if_set : Option String → (String → Teardown Done) → Teardown Done
unfolding is_empty
if_set none k s = (ok tt, s)
if_set (some id) k s = elim (is_empty id) [ true ↦ (ok tt, s) | false ↦ k id s ]

unfoldable pub remove_row : ℕ → List Entrypoint → List Entrypoint
remove_row id [] = []
remove_row id (row ∷ rows) =
    let rest = remove_row id rows in if row.id == id then rows else row ∷ rest

-- `nbr.delete()` and `access.delete()`
unfoldable pub delete_row : Entrypoint → Teardown Done
unfolding remove_row
delete_row nbr = modify (λ s. record s { rows = remove_row nbr.id s.rows })

unfoldable pub delete_access_row : Teardown Done
delete_access_row = modify (λ s. record s { access = none })

-- Whatever is raised is logged.
unfoldable pub guarded : Teardown Done → Teardown Done
guarded m = catch (λ _. true) m (λ _. pure tt)

-- `_teardown_budget_seconds`, of the value that is set.
unfoldable pub teardown_budget_seconds : Option ℤ → ℤ
teardown_budget_seconds none = pos 60
teardown_budget_seconds (some budget) = budget

module _ (service : Service) where
  unfoldable pub send : NetbirdCall → Teardown (ℕ × Option (List Peer))
  unfolding request
  send call s = (
    request not_found (service.reply s.steps call),
    record s { steps = s.steps ++ called call ∷ [] },
  )

  -- A delete whose error is logged.
  unfoldable pub attempt : NetbirdCall → Teardown Done
  unfolding send
  attempt call = catch is_netbird_api (send call >> pure tt) (λ _. pure tt)

  -- `_expired`: without deadline the clock is not read.
  unfoldable pub expired : Option ℤ → Teardown Bool
  expired none s = (ok false, s)
  expired (some deadline) s = (
    ok (ltb_ℤ deadline (pos (service.monotonic s.steps))),
    record s { steps = s.steps ++ checked ∷ [] },
  )

  -- `if _expired(deadline): return`, before what follows.
  unfoldable pub unless_expired : Option ℤ → Teardown Done → Teardown Done
  unfolding expired
  unless_expired deadline k =
      expired deadline >>= λ late. λ s. elim late [ true ↦ (ok tt, s) | false ↦ k s ]

  unfoldable pub delete_peers : Option ℤ → List String → Teardown Done
  unfolding unless_expired attempt
  delete_peers deadline [] = pure tt
  delete_peers deadline (peer_id ∷ ids) =
      unless_expired deadline (attempt (delete_peer peer_id) >> delete_peers deadline ids)

  unfoldable pub list_peers : String → Teardown (List String)
  unfolding send peers_of
  list_peers group_id = send (list_group_peer_ids group_id) >>= λ found. lift (peers_of found)

  -- `_delete_group_peers`: with an error of the listing, no peer is deleted.
  unfoldable pub delete_group_peers : Option ℤ → Option String → Teardown Done
  unfolding delete_peers list_peers if_set
  delete_group_peers deadline group_id =
      if_set group_id
        (λ id. catch is_netbird_api (list_peers id) (λ _. pure []) >>= delete_peers deadline)

  unfoldable pub delete_routes : Option ℤ → List String → Teardown Done → Teardown Done
  unfolding unless_expired attempt
  delete_routes deadline [] k = k
  delete_routes deadline (route_id ∷ ids) k =
      unless_expired deadline (attempt (delete_route route_id) >> delete_routes deadline ids k)

  -- `_destroy_single_entrypoint`
  unfoldable pub destroy_host_group : Option ℤ → Entrypoint → Teardown Done
  unfolding unless_expired if_set attempt delete_row
  destroy_host_group deadline nbr =
      unless_expired deadline
        (do if_set nbr.host_group_id (λ id. attempt (delete_group id)); delete_row nbr)

  unfoldable pub destroy_host_key : Option ℤ → Entrypoint → Teardown Done
  unfolding unless_expired if_set attempt delete_group_peers destroy_host_group
  destroy_host_key deadline nbr = unless_expired deadline (do
    if_set nbr.host_setup_key_id (λ id. attempt (delete_setup_key id))
    delete_group_peers deadline nbr.host_group_id
    destroy_host_group deadline nbr)

  unfoldable pub destroy_single_entrypoint : Option ℤ → Entrypoint → Teardown Done
  unfolding unless_expired if_set attempt delete_routes destroy_host_key
  destroy_single_entrypoint deadline nbr = unless_expired deadline (do
    if_set nbr.policy_id (λ id. attempt (delete_policy id))
    delete_routes deadline nbr.route_id_list (destroy_host_key deadline nbr))

  -- `_destroy_access`
  unfoldable pub destroy_access_group : Option ℤ → Access → Teardown Done
  unfolding unless_expired if_set attempt delete_access_row
  destroy_access_group deadline access =
      unless_expired deadline
        (do if_set access.access_group_id (λ id. attempt (delete_group id)); delete_access_row)

  unfoldable pub destroy_access_key : Option ℤ → Access → Teardown Done
  unfolding unless_expired if_set attempt delete_group_peers destroy_access_group
  destroy_access_key deadline access = unless_expired deadline (do
    if_set access.access_setup_key_id (λ id. attempt (delete_setup_key id))
    delete_group_peers deadline access.access_group_id
    destroy_access_group deadline access)

  unfoldable pub destroy_access : Option ℤ → Access → Teardown Done
  unfolding unless_expired if_set attempt destroy_access_key
  destroy_access deadline access = unless_expired deadline (do
    if_set access.dns_nameserver_group_id (λ id. attempt (delete_nameserver_group id))
    destroy_access_key deadline access)

  unfoldable pub destroy_last : Option ℤ → Option Access → Teardown Done
  unfolding unless_expired guarded destroy_access
  destroy_last deadline none = pure tt
  destroy_last deadline (some access) =
      unless_expired deadline (guarded (destroy_access deadline access))

  unfoldable pub destroy_rows : Option ℤ → List Entrypoint → Option Access → Teardown Done
  unfolding unless_expired guarded destroy_single_entrypoint destroy_last
  destroy_rows deadline [] access = destroy_last deadline access
  destroy_rows deadline (nbr ∷ rows) access =
      unless_expired deadline
        (guarded (destroy_single_entrypoint deadline nbr) >> destroy_rows deadline rows access)

  unfoldable pub start_teardown : Option ℤ → Teardown Done
  unfolding destroy_rows teardown_budget_seconds
  start_teardown budget s =
      let deadline = pos (service.monotonic s.steps) +ℤ teardown_budget_seconds budget in
      destroy_rows (some deadline) s.rows s.access s

  -- The client is built from the settings: there is none without NetBird, and the access token may
  -- be unreadable.
  unfoldable pub destroy_netbird_for_sandbox : Result Bool → Option ℤ → Teardown Done
  unfolding start_teardown
  destroy_netbird_for_sandbox (err e) budget s =
      (elim (is_netbird_config e) [ true ↦ ok tt | false ↦ err e ], s)
  destroy_netbird_for_sandbox (ok false) budget s = (ok tt, s)
  destroy_netbird_for_sandbox (ok true) budget s = start_teardown budget s
