-- ===== src/Pools/Creation/Outcome.antt =====
-- What the creation of a pool leaves behind, also where it fails.
use backend_sandbox_service.Prelude.{
  ◌≡◌, ◌⊎◌, refl, sym, ◌∙◌, subst, true, false, Option, none, some, List, String, str_eq, eq_iff,
  eq_refl, contains, arith, inl, inr, Bool-cases,
}
use backend_sandbox_service.Errors.{
  Exc, Result, ok, err, is_crczp, rest_validation_error, Result-cases,
}
use backend_sandbox_service.Definitions.{
  Platform, Definition, GitType, get_def_provider, get_rev_sha,
}
use backend_sandbox_service.Pools.Creation.{
  NewPool, CreationState, Creation, is_rolled_back, ssh_keypair_name, certificate_keypair_name,
  validate_pool, with_keys, certificate, make_keypair, drop_keypair, discard_pool, make_keypairs,
  finish_pool, complete_pool, create_pool,
}

module _ (platform : Platform) (creation : Creation) where
  drop_keypair-pool :
      (name : String) (s : CreationState) → (drop_keypair platform creation name s).1.pool ≡ s.pool
  unfolding drop_keypair
  drop_keypair-pool name s = ground arith

  discard_pool-none : (s : CreationState) → (discard_pool platform creation s).1.pool ≡ none
  unfolding discard_pool drop_keypair
  discard_pool-none s = ground arith

  make_keypairs-pool : (s : CreationState) → (make_keypairs platform creation s).1.pool ≡ s.pool
  unfolding make_keypairs make_keypair
  make_keypairs-pool s = ground arith

  -- The key pairs that a pool has in the cloud: a certificate only where it has one.
  abbrev pub HasKeyPairs : List String → Type 0
  HasKeyPairs key_pairs =
      (contains (ssh_keypair_name platform creation) key_pairs ≡ true)
      × ((certificate platform creation ≡ "")
          ⊎ (contains (certificate_keypair_name platform creation) key_pairs ≡ true))

  make_keypairs-HasKeyPairs :
      (s : CreationState)
      → (make_keypairs platform creation s).0 ≡ ok tt
      → HasKeyPairs (make_keypairs platform creation s).1.key_pairs
  unfolding make_keypairs make_keypair
  make_keypairs-HasKeyPairs s h =
      let ssh = eq_refl (ssh_keypair_name platform creation) in
      let cert = eq_refl (certificate_keypair_name platform creation) in
      elim (Bool-cases (str_eq (certificate platform creation) "")) [
        | inl blank ↦
            (ground (arith, blank, ssh), inl ((eq_iff (certificate platform creation) "").0 blank))
        | inr there ↦ (ground (arith, there, ssh), inr (ground (arith, there, cert)))
      ]

  -- A row that has no keys.
  abbrev pub IsKeyless : Option NewPool → Type 0
  IsKeyless none = ⊥
  IsKeyless (some pool) = (pool.private_management_key ≡ "") × (pool.public_management_key ≡ "")

  abbrev pub HasKeys : CreationState → NewPool → Type 0
  HasKeys s pool =
      (s.pool ≡ some pool)
      × (pool.private_management_key ≡ creation.private_key)
      × (pool.public_management_key ≡ creation.public_key)
      × HasKeyPairs s.key_pairs

  -- A row that has the keys that were made.
  abbrev pub IsKeyed : Option NewPool → Type 0
  IsKeyed none = ⊥
  IsKeyed (some pool) =
      (pool.private_management_key ≡ creation.private_key)
      × (pool.public_management_key ≡ creation.public_key)

  -- A pool that is returned, or how the creation failed.
  abbrev pub Outcome : Result NewPool → CreationState → Type 0
  Outcome (ok pool) s = HasKeys s pool
  Outcome (err e) s =
      (s.pool ≡ none)
      ⊎ (IsKeyless s.pool × (is_rolled_back e ≡ false))
      ⊎ (IsKeyed s.pool × (is_crczp e ≡ false))

  from_eq :
      (p : Result NewPool × CreationState) (r : Result NewPool) (t : CreationState)
      → p ≡ (r, t)
      → Outcome r t
      → Outcome p.0 p.1
  from_eq p r t e h = subst (λ (q : Result NewPool × CreationState). Outcome q.0 q.1) (sym e) h

  finish_pool-discarded :
      (pool : NewPool) (e : Exc) (s : CreationState)
      → (make_keypairs platform creation s).0 ≡ err e
      → is_crczp e ≡ true
      → (e' : Exc) × (t : CreationState) × (finish_pool platform creation pool s ≡ (err e', t))
        × (t.pool ≡ none)
  unfolding finish_pool
  finish_pool-discarded pool e s failed cloud =
      let s' = (make_keypairs platform creation s).1 in
      let gone = discard_pool-none s' in
      elim (Result-cases (discard_pool platform creation s').0) [
        | inl (tt, done) ↦
            (e, (discard_pool platform creation s').1, ground (arith, failed, cloud, done), gone)
        | inr (e', raised) ↦ elim (Bool-cases (is_crczp e')) [
          | inl named ↦ (
            e,
            (discard_pool platform creation s').1,
            ground (arith, failed, cloud, raised, named),
            gone,
          )
          | inr other ↦ (
            e',
            (discard_pool platform creation s').1,
            ground (arith, failed, cloud, raised, other),
            gone,
          )
        ]
      ]

  kept :
      {row : Option NewPool} {pool : NewPool}
      → row ≡ some pool
      → pool.private_management_key ≡ creation.private_key
      → pool.public_management_key ≡ creation.public_key
      → IsKeyed row
  kept e private public = subst IsKeyed (sym e) (private, public)

  finish_pool-Outcome :
      (pool : NewPool) (s : CreationState)
      → s.pool ≡ some pool
      → pool.private_management_key ≡ creation.private_key
      → pool.public_management_key ≡ creation.public_key
      → Outcome (finish_pool platform creation pool s).0 (finish_pool platform creation pool s).1
  unfolding finish_pool
  finish_pool-Outcome pool s row private public =
      let s' = (make_keypairs platform creation s).1 in
      elim (Result-cases (make_keypairs platform creation s).0) [
        | inl (tt, made) ↦
            from_eq _ (ok pool) s' (ground (arith, made))
              (make_keypairs-pool s ∙ row, private, public, make_keypairs-HasKeyPairs s made)
        | inr (e, failed) ↦ elim (Bool-cases (is_crczp e)) [
          | inl cloud ↦
              let (e', t, result, gone) = finish_pool-discarded pool e s failed cloud in
              from_eq _ (err e') t result (inl gone)
          | inr other ↦
              from_eq _ (err e) s' (ground (arith, failed, other))
                (inr (inr (kept (make_keypairs-pool s ∙ row) private public, other)))
        ]
      ]

  complete_pool-Outcome :
      (url : String) (pool : NewPool) (s : CreationState)
      → pool.private_management_key ≡ ""
      → pool.public_management_key ≡ ""
      → Outcome
          (complete_pool platform creation url pool s).0
          (complete_pool platform creation url pool s).1
  unfolding complete_pool with_keys
  complete_pool-Outcome url pool s private public =
      let d = (validate_pool platform creation url pool.rev_sha s.definitions).1 in
      let keyed = with_keys platform creation pool in
      let s' = record s { pool = some keyed; definitions = d } in
      elim (Result-cases (validate_pool platform creation url pool.rev_sha s.definitions).0) [
        | inr (e, invalid) ↦ elim (Bool-cases (is_rolled_back e)) [
          | inl back ↦
              from_eq _ (err e) (record s { pool = none; definitions = d })
                (ground (arith, invalid, back)) (inl refl)
          | inr left ↦
              from_eq _ (err e) (record s { pool = some pool; definitions = d })
                (ground (arith, invalid, left)) (inr (inl ((private, public), left)))
        ]
        | inl (tt, valid) ↦
            from_eq _ (finish_pool platform creation keyed s').0
              (finish_pool platform creation keyed s').1 (ground (arith, valid))
              (finish_pool-Outcome keyed s' refl refl refl)
      ]

  -- The row that a new pool begins with.
  abbrev pub first_row : Definition → String → NewPool
  first_row definition rev_sha = record {
    rev = definition.rev;
    rev_sha = rev_sha;
    private_management_key = "";
    public_management_key = "";
    management_certificate = "";
  }

  module _ (definition : Definition) (git_type : GitType)
      (found : creation.definition ≡ ok definition)
      (given : get_def_provider (platform.git definition.url) definition.url ≡ ok git_type) where
    -- The rest of the creation, once the definition and its provider are there.
    create_pool-resolved :
        (rev_sha : String) (s : CreationState)
        → get_rev_sha git_type platform.topology_cache_mode
            (platform.git definition.url)
            definition.rev
          ≡ ok rev_sha
        → creation.is_valid ≡ true
        → create_pool platform creation s
          ≡ complete_pool platform creation definition.url (first_row definition rev_sha) s
    unfolding create_pool
    create_pool-resolved rev_sha s resolved valid = ground (arith, found, given, valid, resolved)

    resolved-Outcome :
        (s : CreationState)
        → s.pool ≡ none
        → Outcome (create_pool platform creation s).0 (create_pool platform creation s).1
    unfolding create_pool
    resolved-Outcome s absent =
        elim (Result-cases (
          get_rev_sha git_type platform.topology_cache_mode (platform.git definition.url)
            definition.rev)) [
              | inr (e, failed) ↦
                  from_eq _ (err e) s (ground (arith, found, given, failed)) (inl absent)
              | inl (rev_sha, resolved) ↦ elim (Bool-cases creation.is_valid) [
                | inr invalid ↦
                    from_eq _ (err rest_validation_error) s
                      (ground (arith, found, given, resolved, invalid)) (inl absent)
                | inl valid ↦
                    let row = first_row definition rev_sha in
                    from_eq _ (complete_pool platform creation definition.url row s).0
                      (complete_pool platform creation definition.url row s).1
                      (create_pool-resolved rev_sha s resolved valid)
                      (complete_pool-Outcome definition.url row s refl refl)
              ]
            ]

    -- Where the validation of the new pool raises an exception that is none of git, of validation or
    -- of an invalid topology, the pool is not returned, and its row stays, without keys.
    pub create_pool-keyless :
        (rev_sha : String) (e : Exc) (s : CreationState)
        → get_rev_sha git_type platform.topology_cache_mode
            (platform.git definition.url)
            definition.rev
          ≡ ok rev_sha
        → creation.is_valid ≡ true
        → (validate_pool platform creation definition.url rev_sha s.definitions).0 ≡ err e
        → is_rolled_back e ≡ false
        → ((create_pool platform creation s).0 ≡ err e)
          × ((create_pool platform creation s).1.pool ≡ some (first_row definition rev_sha))
    unfolding complete_pool
    create_pool-keyless rev_sha e s resolved valid invalid left =
        ground (arith, create_pool-resolved rev_sha s resolved valid, invalid, left)

  -- A pool that the creation returns is in its row with the keys that were made, and its key pairs
  -- are in the cloud, that of the certificate where there is one. A creation that fails leaves no
  -- row, or, after an error that is none of git, of validation or of an invalid topology, a row without
  -- keys, or, after an error that is not the cloud's, a row with the keys that were made.
  pub create_pool-Outcome :
      (s : CreationState)
      → s.pool ≡ none
      → Outcome (create_pool platform creation s).0 (create_pool platform creation s).1
  unfolding create_pool
  create_pool-Outcome s absent = elim (Result-cases creation.definition) [
    | inr (e, unknown) ↦ from_eq _ (err e) s (ground (arith, unknown)) (inl absent)
    | inl (definition, found) ↦
        elim (Result-cases (get_def_provider (platform.git definition.url) definition.url)) [
          | inr (e, failed) ↦ from_eq _ (err e) s (ground (arith, found, failed)) (inl absent)
          | inl (git_type, given) ↦ resolved-Outcome definition git_type found given s absent
        ]
  ]
