-- ===== src/Pools/Deletion.antt =====
-- When a pool can be deleted.
use backend_sandbox_service.Prelude.{
  ◌≡◌, ◌⊎◌, Bool, true, false, ◌||◌, List, [], ◌∷◌, ◌++◌, arith, append_assoc, is_some, length, ltb,
}
use backend_sandbox_service.Errors.{Result, ok, err, validation_error, is_crczp}
use backend_sandbox_service.Pools.{
  PoolState, Cloud, PoolEvent, clear_pool_cache, delete_ssh_keypair, delete_cert_keypair,
  delete_pool, delete_row, emit,
}

-- A call that succeeds or fails with an error of the cloud library.
abbrev pub is_tolerated : Result Unit → Bool
is_tolerated (ok _) = true
is_tolerated (err e) = is_crczp e

append_three :
    (es : List PoolEvent) (a b c : PoolEvent)
    → ((es ++ a ∷ []) ++ b ∷ []) ++ c ∷ [] ≡ es ++ a ∷ b ∷ c ∷ []
append_three es a b c = simp append_assoc

module _ (cloud : Cloud) where
  -- Where the deletions of key pairs fail at most with errors of the cloud library, the deletion of a
  -- pool succeeds just where the pool is not locked and has no unit. Then the row is gone, and the
  -- cache entry and both key pairs were dealt with after it; otherwise nothing has changed.
  pub delete_pool_lem :
      (s : PoolState)
      → is_tolerated cloud.delete_ssh_keypair ≡ true
      → is_tolerated cloud.delete_cert_keypair ≡ true
      → (((is_some s.pool.lock || ltb 0 (length s.units)) ≡ true)
          × (delete_pool cloud s ≡ (err validation_error, s)))
        ⊎ (((is_some s.pool.lock || ltb 0 (length s.units)) ≡ false)
            × (delete_pool cloud s ≡ (
              ok tt,
              record s {
                is_deleted = true;
                events =
                    s.events ++ clear_pool_cache ∷ delete_ssh_keypair ∷ delete_cert_keypair ∷ [];
              },
            )))
  unfolding delete_pool delete_row emit
  delete_pool_lem s ssh cert =
      ground (arith, append_three s.events clear_pool_cache delete_ssh_keypair delete_cert_keypair)
