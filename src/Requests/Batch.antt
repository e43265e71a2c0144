-- ===== src/Requests/Batch.antt =====
-- Cleanups of several units at once.
use backend_sandbox_service.Prelude.{
  ◌≡◌, refl, Bool, true, false, List, [], ◌∷◌, ◌++◌, map, All, arith,
}
use backend_sandbox_service.Errors.{ok, is_ok}
use backend_sandbox_service.StageHandler.{World}
use backend_sandbox_service.Requests.{UnitState, cleanup_unit, create_cleanup_requests}
use backend_sandbox_service.Requests.Cleanup.{may_clean_up, cleaned_up, create_cleanup_request_lem}

module _ (world : World) where
  -- Where all the units may be cleaned up, a plain cleanup of them returns, and each is cleaned up.
  pub create_cleanup_requests-ok :
      (delete_pool : Bool) (units : List UnitState)
      → All (λ s. may_clean_up s.unit ≡ true) units
      → create_cleanup_requests world false delete_pool units
        ≡ (ok tt, map (cleaned_up false) units)
  unfolding create_cleanup_requests cleanup_unit
  create_cleanup_requests-ok delete_pool [] h = refl
  create_cleanup_requests-ok delete_pool (s ∷ units) h =
      ground (arith, create_cleanup_request_lem s, create_cleanup_requests-ok delete_pool units h.1)

  -- A plain cleanup of several units raises at the first one that may not be cleaned up: the units
  -- before it are cleaned up by then, and it and those after it are as they were.
  pub create_cleanup_requests-refused :
      (delete_pool : Bool) (before after : List UnitState) (s : UnitState)
      → All (λ t. may_clean_up t.unit ≡ true) before
      → may_clean_up s.unit ≡ false
      → (is_ok (create_cleanup_requests world false delete_pool (before ++ s ∷ after)).0 ≡ false)
        × ((create_cleanup_requests world false delete_pool (before ++ s ∷ after)).1
            ≡ map (cleaned_up false) before ++ s ∷ after)
  unfolding create_cleanup_requests cleanup_unit
  create_cleanup_requests-refused delete_pool [] after s h refused =
      ground (arith, create_cleanup_request_lem s)
  create_cleanup_requests-refused delete_pool (t ∷ before) after s h refused = ground (
    arith,
    create_cleanup_request_lem t,
    create_cleanup_requests-refused delete_pool before after s h.1 refused,
  )
