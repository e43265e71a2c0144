-- ===== src/Provision.antt =====
-- The provisioning of a sandbox's NetBird objects, `provision_netbird_for_sandbox` of
-- crczp/sandbox_instance_app/lib/netbird.py, over the creating requests of
-- crczp/sandbox_common_lib/netbird_client.py and the rows of the sandbox.
mod Rows
pub mod RouteLists
mod Names
mod Calls
pub mod Writes
pub mod Recorded
pub mod Ledger
pub mod Guards
pub mod Losses
pub mod Limits
mod Objects
unfoldable pub use Rows.*
unfoldable pub use Names.*
unfoldable pub use Calls.*
unfoldable pub use Objects.*
use backend_sandbox_service.Prelude.{
  ℕ, Bool, true, false, not, Option, none, some, List, [], ◌∷◌, ◌++◌, String, str_append, is_none,
  is_some, str_eq, leb, ◌&&◌, if◌then◌else◌, map,
}
use backend_sandbox_service.Netbird
use backend_sandbox_service.Errors.{
  Done, Exc, value_error, key_error, netbird_api_error, is_netbird_config, integrity_error, Result,
  ok, err, Exec, pure, raise, lift, gets, modify, when, catch, ◌>>=◌, ◌>>◌,
}

-- The name of the stack without the padding of its numbers, and the time that keys last.
module _ (service : Service) (stack_name : String) (key_expiry_seconds : ℕ) where
  -- `created.append(nbr)`
  unfoldable pub append_created : Resource → Provision Done
  append_created nbr = modify (λ s. record s { created = s.created ++ nbr ∷ [] })

  -- The row that a failed entrypoint has left, where there is one.
  unfoldable pub pick_partial : String → Provision Done
  pick_partial host_name = query service >>= λ _. λ s. elim (find_row host_name s.rows) [
    | none ↦ (ok tt, s)
    | some partial_nbr ↦ append_created partial_nbr s
  ]

  -- The body of the loop over the entrypoints.
  unfoldable pub provision_entrypoint : String → VpnEntrypoint → Provision Done
  provision_entrypoint access_group_id ep =
      catch (λ _. true)
        (provision_single_entrypoint service stack_name key_expiry_seconds access_group_id ep
          >>= append_created)
        (λ _. pick_partial ep.name)

  unfoldable pub provision_entrypoints : String → List VpnEntrypoint → Provision Done
  provision_entrypoints access_group_id [] = pure tt
  provision_entrypoints access_group_id (ep ∷ entrypoints) =
      provision_entrypoint access_group_id ep >> provision_entrypoints access_group_id entrypoints

  -- `SandboxNetbirdAccess.objects.get_or_create(sandbox=sandbox)`
  unfoldable pub get_or_create_access : Provision AccessRow
  get_or_create_access = query service >>= λ there. λ s. elim there [
    | false ↦ (err integrity_error, s)
    | true ↦ elim s.access_row [
      | some access ↦ (ok access, record s { access = some access })
      | none ↦ (ok new_access, record s { access_row = some new_access; access = some new_access })
    ]
  ]

  unfoldable pub provision_dns_if_set : AccessRow → Option VpnDns → Provision Done
  provision_dns_if_set access none = pure tt
  provision_dns_if_set access (some dns) =
      contained (provision_dns service stack_name key_expiry_seconds access dns)

  unfoldable pub provision_with_access :
      List VpnEntrypoint → Option VpnDns → Option AccessRow → Provision Done
  provision_with_access entrypoints dns none = pure tt
  provision_with_access entrypoints dns (some access) = elim access.access_group_id [
    | none ↦ pure tt
    | some access_group_id ↦
        when (not (str_eq access_group_id ""))
          (do provision_dns_if_set access dns; provision_entrypoints access_group_id entrypoints)
  ]

  module _ (teardown : Netbird.Service) where
    -- A part of the teardown, without a deadline, on the objects in memory.
    unfoldable pub tear_down : Netbird.Teardown Done → Provision Done
    tear_down m = modify (λ s. record s {
      teardown_steps =
          (Netbird.guarded m
            (record { rows = []; access = none; steps = s.teardown_steps })).1.steps;
    })

    -- `_teardown_provisioned_resources`
    unfoldable pub tear_down_rows : List Resource → Provision Done
    tear_down_rows [] = pure tt
    tear_down_rows (nbr ∷ created) =
        tear_down (Netbird.destroy_single_entrypoint teardown none (entrypoint_of nbr))
        >> tear_down_rows created

    unfoldable pub tear_down_access : Option AccessRow → Provision Done
    tear_down_access none = pure tt
    tear_down_access (some access) =
        tear_down (Netbird.destroy_access teardown none (access_of access))

    unfoldable pub teardown_provisioned_resources : Provision Done
    teardown_provisioned_resources s = (tear_down_rows s.created >> tear_down_access s.access) s

    unfoldable pub end_guard : Provision Done
    end_guard = query service >>= λ there. when (not there) teardown_provisioned_resources

    -- From the start guard on.
    unfoldable pub provision_found : List VpnEntrypoint → Option VpnDns → Provision Done
    provision_found entrypoints dns = do
      modify (λ s. record s { access = none; created = [] })
      there ← query service
      when there (do
        contained (get_or_create_access >>= provision_access service stack_name key_expiry_seconds)
        λ s. provision_with_access entrypoints dns s.access s
        end_guard)

    -- `_provision_netbird_for_sandbox`, of the client and the VPN settings of the definition.
    unfoldable pub provision_unguarded :
        Result Bool → Result (List VpnEntrypoint × Option VpnDns) → Provision Done
    provision_unguarded (err e) vpn_settings =
        λ s. (elim (is_netbird_config e) [ true ↦ ok tt | false ↦ err e ], s)
    provision_unguarded (ok false) vpn_settings = pure tt
    provision_unguarded (ok true) (err _) = pure tt
    provision_unguarded (ok true) (ok ([], none)) = pure tt
    provision_unguarded (ok true) (ok ([], some dns)) = provision_found [] (some dns)
    provision_unguarded (ok true) (ok (ep ∷ entrypoints, dns)) =
        provision_found (ep ∷ entrypoints) dns

    -- `provision_netbird_for_sandbox`
    unfoldable pub provision_netbird_for_sandbox :
        Result Bool → Result (List VpnEntrypoint × Option VpnDns) → Provision Done
    provision_netbird_for_sandbox client vpn_settings =
        contained (provision_unguarded client vpn_settings)
