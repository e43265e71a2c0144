-- ===== src/Netbird/Total.antt =====
-- The teardown raises nothing.
use backend_sandbox_service.Prelude.{
  ◌≡◌, refl, Bool, true, false, Option, none, some, List, [], ◌∷◌, ◌⊎◌, arith,
}
use backend_sandbox_service.Prelude.Int.{ℤ, pos, ◌+ℤ◌}
use backend_sandbox_service.Errors.{Done, netbird_config_error, Result, ok, err, is_ok, ◌>>◌}
use backend_sandbox_service.Netbird.{
  Service, Teardown, TeardownState, Entrypoint, Access, expired, unless_expired, guarded,
  destroy_single_entrypoint, destroy_access, destroy_last, destroy_rows, start_teardown,
  teardown_budget_seconds, destroy_netbird_for_sandbox,
}

Quiet : Teardown Done → Type 0
Quiet m = (s : TeardownState) → (m s).0 ≡ ok tt

pure-Quiet : Quiet (λ s. (ok tt, s))
unfolding Quiet
pure-Quiet s = refl

module _ (service : Service) where
  unless_expired-Quiet :
      (deadline : Option ℤ) (m : Teardown Done)
      → Quiet m
      → Quiet (unless_expired service deadline m)
  unfolding unless_expired expired Quiet
  unless_expired-Quiet none m h s = h s
  unless_expired-Quiet (some deadline) m h s =
      ground (arith, h (expired service (some deadline) s).1)

  guarded-Quiet : (m : Teardown Done) → Quiet (guarded m)
  unfolding guarded Quiet
  guarded-Quiet m s = ground arith

  then-Quiet : (m k : Teardown Done) → Quiet m → Quiet k → Quiet (m >> k)
  unfolding Quiet
  then-Quiet m k hm hk s = ground (arith, hm s, hk (m s).1)

  destroy_last-Quiet :
      (deadline : Option ℤ) (access : Option Access) → Quiet (destroy_last service deadline access)
  unfolding destroy_last
  destroy_last-Quiet deadline none = pure-Quiet
  destroy_last-Quiet deadline (some access) =
      unless_expired-Quiet deadline (guarded (destroy_access service deadline access))
        (guarded-Quiet (destroy_access service deadline access))

  destroy_rows-Quiet :
      (deadline : Option ℤ) (rows : List Entrypoint) (access : Option Access)
      → Quiet (destroy_rows service deadline rows access)
  unfolding destroy_rows
  destroy_rows-Quiet deadline [] access = destroy_last-Quiet deadline access
  destroy_rows-Quiet deadline (nbr ∷ rows) access =
      unless_expired-Quiet deadline
        (guarded (destroy_single_entrypoint service deadline nbr)
          >> destroy_rows service deadline rows access)
        (then-Quiet (guarded (destroy_single_entrypoint service deadline nbr))
          (destroy_rows service deadline rows access)
          (guarded-Quiet (destroy_single_entrypoint service deadline nbr))
          (destroy_rows-Quiet deadline rows access))

  -- Where the client can be built, or its token cannot be read, the teardown ends without an
  -- exception, whatever the service answers and whatever the clock says.
  pub destroy_netbird_for_sandbox-ok :
      (client : Result Bool) (budget : Option ℤ) (s : TeardownState)
      → (is_ok client ≡ true) ⊎ (client ≡ err netbird_config_error)
      → (destroy_netbird_for_sandbox service client budget s).0 ≡ ok tt
  unfolding destroy_netbird_for_sandbox start_teardown Quiet
  destroy_netbird_for_sandbox-ok (ok false) budget s h = refl
  destroy_netbird_for_sandbox-ok (ok true) budget s h =
      destroy_rows-Quiet (some (pos (service.monotonic s.steps) +ℤ teardown_budget_seconds budget))
        s.rows s.access s
  destroy_netbird_for_sandbox-ok (err e) budget s h = ground arith
