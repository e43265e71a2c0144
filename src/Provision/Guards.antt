-- ===== src/Provision/Guards.antt =====
-- The guards of a provisioning: what it contains, and that it starts for no deleted sandbox.
use backend_sandbox_service.Prelude.{
  ℕ, ◌≡◌, refl, Bool, true, false, Option, none, some, List, [], ◌∷◌, ◌++◌, String, arith, ◌⊎◌, inl,
  inr, Option-cases,
}
use backend_sandbox_service.Errors.{netbird_config_error, Result, ok, err, is_ok, Done, ◌>>=◌, ◌>>◌}
use backend_sandbox_service.Netbird
use backend_sandbox_service.Provision.{
  Resource, VpnEntrypoint, VpnDns, AccessRow, Provision, Service, ProvisionState, Step, queried,
  query, provision_single_entrypoint, append_created, pick_partial, provision_entrypoint,
  provision_entrypoints, contained, provision_dns_if_set, provision_with_access,
  get_or_create_access, provision_access, tear_down, tear_down_rows, tear_down_access,
  teardown_provisioned_resources, end_guard, provision_found, provision_unguarded, cascade,
  provision_dns,
}

Quiet : Provision Done → Type 0
Quiet m = (s : ProvisionState) → (m s).0 ≡ ok tt

contained-Quiet : (m : Provision Done) → Quiet (contained m)
unfolding Quiet contained
contained-Quiet m s = ground arith

then-Quiet : (m k : Provision Done) → Quiet m → Quiet k → Quiet (m >> k)
unfolding Quiet
then-Quiet m k hm hk s = ground (arith, hm s, hk (m s).1)

module _ (service : Service) (stack_name : String) (key_expiry_seconds : ℕ) where
  module _ (asked : (steps : List Step) → is_ok (service.exists steps) ≡ true) where
    provision_entrypoint-Quiet :
        (access_group_id : String) (ep : VpnEntrypoint)
        → Quiet (provision_entrypoint service stack_name key_expiry_seconds access_group_id ep)
    unfolding Quiet provision_entrypoint append_created pick_partial query
    provision_entrypoint-Quiet access_group_id ep s = ground (
      arith,
      asked
          (provision_single_entrypoint service stack_name key_expiry_seconds access_group_id ep
            s).1.steps,
    )

    provision_entrypoints-Quiet :
        (access_group_id : String) (eps : List VpnEntrypoint)
        → Quiet (provision_entrypoints service stack_name key_expiry_seconds access_group_id eps)
    unfolding Quiet provision_entrypoints
    provision_entrypoints-Quiet access_group_id [] s = refl
    provision_entrypoints-Quiet access_group_id (ep ∷ eps) s = ground (
      arith,
      provision_entrypoint-Quiet access_group_id ep s,
      provision_entrypoints-Quiet access_group_id eps
          (provision_entrypoint service stack_name key_expiry_seconds access_group_id ep s).1,
    )

    provision_with_access-Quiet :
        (eps : List VpnEntrypoint) (dns : Option VpnDns) (access : Option AccessRow)
        → Quiet (provision_with_access service stack_name key_expiry_seconds eps dns access)
    unfolding Quiet provision_with_access provision_dns_if_set contained
    provision_with_access-Quiet eps dns none s = refl
    provision_with_access-Quiet eps none (some access) s =
        elim (Option-cases access.access_group_id) [
          | inl e ↦ ground (arith, e)
          | inr (group, e) ↦ ground (arith, e, provision_entrypoints-Quiet group eps s)
        ]
    provision_with_access-Quiet eps (some dns) (some access) s =
        elim (Option-cases access.access_group_id) [
          | inl e ↦ ground (arith, e)
          | inr (group, e) ↦ ground (
            arith,
            e,
            provision_entrypoints-Quiet group eps
                (provision_dns service stack_name key_expiry_seconds access dns s).1,
          )
        ]

    module _ (teardown : Netbird.Service) where
      tear_down_rows-Quiet :
          (created : List Resource)
          → Quiet (tear_down_rows service stack_name key_expiry_seconds teardown created)
      unfolding Quiet tear_down_rows tear_down
      tear_down_rows-Quiet [] s = refl
      tear_down_rows-Quiet (nbr ∷ created) s = tear_down_rows-Quiet created _

      tear_down_access-Quiet :
          (access : Option AccessRow)
          → Quiet (tear_down_access service stack_name key_expiry_seconds teardown access)
      unfolding Quiet tear_down_access tear_down
      tear_down_access-Quiet none s = refl
      tear_down_access-Quiet (some access) s = refl

      teardown_provisioned_resources-Quiet :
          Quiet (teardown_provisioned_resources service stack_name key_expiry_seconds teardown)
      unfolding Quiet teardown_provisioned_resources
      teardown_provisioned_resources-Quiet s =
          then-Quiet (tear_down_rows service stack_name key_expiry_seconds teardown s.created)
            (tear_down_access service stack_name key_expiry_seconds teardown s.access)
            (tear_down_rows-Quiet s.created) (tear_down_access-Quiet s.access) s

      end_guard-Quiet : Quiet (end_guard service stack_name key_expiry_seconds teardown)
      unfolding Quiet end_guard query
      end_guard-Quiet s = ground (
        arith,
        asked s.steps,
        teardown_provisioned_resources-Quiet (record s { steps = s.steps ++ queried ∷ [] }),
        teardown_provisioned_resources-Quiet
            (cascade (record s { steps = s.steps ++ queried ∷ [] })),
      )

      provision_found-Quiet :
          (eps : List VpnEntrypoint) (dns : Option VpnDns)
          → Quiet (provision_found service stack_name key_expiry_seconds teardown eps dns)
      unfolding Quiet provision_found query
      provision_found-Quiet eps dns s =
          let start : ProvisionState = record s {
            access = none;
            created = [];
            steps = s.steps ++ queried ∷ [];
          } in
          let with_access : Provision Done =
            λ t. provision_with_access service stack_name key_expiry_seconds eps dns t.access t in
          let access : Provision Done = contained (
            get_or_create_access service stack_name key_expiry_seconds
            >>= provision_access service stack_name key_expiry_seconds) in
          ground (
            arith,
            asked s.steps,
            then-Quiet (access >> with_access)
                (end_guard service stack_name key_expiry_seconds teardown)
                (then-Quiet access with_access (contained-Quiet _)
                  (λ t. provision_with_access-Quiet eps dns t.access t))
                end_guard-Quiet start,
          )

      -- Where the database answers whenever it is asked, and the client can be built or its token
      -- cannot be read, the provisioning itself ends without an exception, whatever the service
      -- answers, whenever the sandbox is deleted, and also where the definition cannot be read.
      pub provision_unguarded-ok :
          (client : Result Bool) (vpn_settings : Result (List VpnEntrypoint × Option VpnDns))
          (s : ProvisionState)
          → (is_ok client ≡ true) ⊎ (client ≡ err netbird_config_error)
          → (provision_unguarded service stack_name key_expiry_seconds teardown client vpn_settings
              s).0
            ≡ ok tt
      unfolding provision_unguarded Quiet
      provision_unguarded-ok (err e) vpn_settings s h = ground arith
      provision_unguarded-ok (ok false) vpn_settings s h = refl
      provision_unguarded-ok (ok true) (err _) s h = refl
      provision_unguarded-ok (ok true) (ok ([], none)) s h = refl
      provision_unguarded-ok (ok true) (ok ([], some dns)) s h =
          provision_found-Quiet [] (some dns) s
      provision_unguarded-ok (ok true) (ok (ep ∷ eps, dns)) s h =
          provision_found-Quiet (ep ∷ eps) dns s

  -- A provisioning that starts after the sandbox was deleted calls nothing and makes nothing.
  pub provision_unguarded-gone :
      (teardown : Netbird.Service) (vpn_settings : Result (List VpnEntrypoint × Option VpnDns))
      (s : ProvisionState)
      → service.exists s.steps ≡ ok false
      → ((provision_unguarded service stack_name key_expiry_seconds teardown
            (ok true)
            vpn_settings
            s).1.made
          ≡ s.made)
        × (((provision_unguarded service stack_name key_expiry_seconds teardown
                (ok true)
                vpn_settings
                s).1.steps
              ≡ s.steps)
            ⊎ ((provision_unguarded service stack_name key_expiry_seconds teardown
                  (ok true)
                  vpn_settings
                  s).1.steps
                ≡ s.steps ++ queried ∷ []))
        × ((provision_unguarded service stack_name key_expiry_seconds teardown
              (ok true)
              vpn_settings
              s).1.teardown_steps
            ≡ s.teardown_steps)
  unfolding provision_unguarded provision_found query
  provision_unguarded-gone teardown (err _) s h = (refl, inl refl, refl)
  provision_unguarded-gone teardown (ok ([], none)) s h = (refl, inl refl, refl)
  provision_unguarded-gone teardown (ok ([], some dns)) s h =
      (ground (arith, h), inr (ground (arith, h)), ground (arith, h))
  provision_unguarded-gone teardown (ok (ep ∷ eps, dns)) s h =
      (ground (arith, h), inr (ground (arith, h)), ground (arith, h))
