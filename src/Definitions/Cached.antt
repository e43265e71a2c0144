-- ===== src/Definitions/Cached.antt =====
-- The cache of definitions, and the definitions that are created.
use backend_sandbox_service.Prelude.{
  ◌≡◌, refl, Bool, true, false, Option, none, some, List, [], ◌∷◌, String, eq_refl, all, arith, inl,
  inr, Bool-cases,
}
use backend_sandbox_service.Errors.{Result, ok, err, is_ok, Result-cases}
use backend_sandbox_service.Definitions.{
  Platform, TopologyDefinition, DefinitionState, get_file, load_definition, cached, cache_key,
  look_up, get_def_provider, get_rev_sha, fetch_definition, get_definition,
  validate_topology_definition, GitType, gitlab, github, TopologyCacheMode, fresh, aggressive,
  fresh_import, make_provider, gitlab_rev_sha, github_rev_sha, get_refs, ref_or_commit,
}

module _ (platform : Platform) where
  -- Every topology in the cache is valid.
  abbrev pub cache_valid : List (String × TopologyDefinition) → Bool
  cache_valid cache = all (λ entry. is_ok (validate_topology_definition platform entry.1)) cache

  abbrev entry_valid : Option TopologyDefinition → Bool
  entry_valid none = true
  entry_valid (some top_def) = is_ok (validate_topology_definition platform top_def)

  abbrev pub result_valid : Result TopologyDefinition → Bool
  result_valid (ok top_def) = is_ok (validate_topology_definition platform top_def)
  result_valid (err _) = true

  cached-valid :
      (key : String) (cache : List (String × TopologyDefinition))
      → cache_valid cache ≡ true
      → entry_valid (cached key cache) ≡ true
  unfolding cached
  cached-valid key [] h = refl
  cached-valid key ((other, top_def) ∷ cache) h = ground (arith, cached-valid key cache)

  fetch_definition-valid :
      (url rev_sha : String) (s : DefinitionState)
      → cache_valid s.cache ≡ true
      → (result_valid (fetch_definition platform url rev_sha s).0 ≡ true)
        × (cache_valid (fetch_definition platform url rev_sha s).1.cache ≡ true)
  unfolding fetch_definition
  fetch_definition-valid url rev_sha s h =
      elim (Result-cases (get_file (platform.git url) "topology.yml" rev_sha)) [
        | inr (e, failed) ↦ ground (arith, failed)
        | inl (text, read) ↦ elim (Result-cases (load_definition platform text)) [
          | inr (e, failed) ↦ ground (arith, read, failed)
          | inl (top_def, loaded) ↦ ground (arith, read, loaded)
        ]
      ]

  -- Where every topology in the cache is valid, a definition that is given is valid, from the cache
  -- or from its repository, and the cache stays so.
  pub get_definition-valid :
      (url rev : String) (force_refresh : Bool) (s : DefinitionState)
      → cache_valid s.cache ≡ true
      → (result_valid (get_definition platform url rev force_refresh s).0 ≡ true)
        × (cache_valid (get_definition platform url rev force_refresh s).1.cache ≡ true)
  unfolding get_definition look_up
  get_definition-valid url rev force_refresh s h =
      elim (Result-cases (get_def_provider (platform.git url) url)) [
        | inr (e, failed) ↦ ground (arith, failed)
        | inl (git_type, provided) ↦
            elim (Result-cases
              (get_rev_sha git_type platform.topology_cache_mode (platform.git url) rev)) [
                | inr (e, failed) ↦ ground (arith, provided, failed)
                | inl (rev_sha, resolved) ↦ ground (
                  arith,
                  provided,
                  resolved,
                  cached-valid (cache_key url rev_sha) s.cache h,
                  fetch_definition-valid url rev_sha s h,
                  Bool-cases force_refresh,
                )
              ]
      ]

  -- The platform, when the files of the repositories have changed.
  unfoldable pub with_contents : (String → String → String → Option String) → Platform
  with_contents contents = record platform {
    git = λ url. record (platform.git url) { contents = contents url };
  }

  provider-contents :
      (contents : String → String → String → Option String) (url : String)
      → get_def_provider ((with_contents contents).git url) url
        ≡ get_def_provider (platform.git url) url
  unfolding with_contents get_def_provider make_provider
  provider-contents contents url = ground arith

  sha-contents :
      (contents : String → String → String → Option String) (url rev : String) (git_type : GitType)
      (mode : TopologyCacheMode)
      → get_rev_sha git_type mode ((with_contents contents).git url) rev
        ≡ get_rev_sha git_type mode (platform.git url) rev
  unfolding with_contents get_rev_sha gitlab_rev_sha github_rev_sha get_refs ref_or_commit
  sha-contents contents url rev gitlab mode = ground arith
  sha-contents contents url rev github fresh = refl
  sha-contents contents url rev github aggressive = refl
  sha-contents contents url rev github fresh_import = refl

  fetch_definition-cached :
      (url rev_sha : String) (top_def : TopologyDefinition) (s : DefinitionState)
      → (fetch_definition platform url rev_sha s).0 ≡ ok top_def
      → cached (cache_key url rev_sha) (fetch_definition platform url rev_sha s).1.cache
        ≡ some top_def
  unfolding fetch_definition cached
  fetch_definition-cached url rev_sha top_def s h =
      elim (Result-cases (get_file (platform.git url) "topology.yml" rev_sha)) [
        | inr (e, failed) ↦ ground (arith, failed)
        | inl (text, read) ↦ elim (Result-cases (load_definition platform text)) [
          | inr (e, failed) ↦ ground (arith, read, failed)
          | inl (loaded, e) ↦ ground (arith, read, e, eq_refl (cache_key url rev_sha))
        ]
      ]

  -- Once a definition was given, by force or not, the same revision gives it again from the cache
  -- and changes nothing, also where the files of the repositories have changed, as long as no
  -- branch, tag or commit has.
  pub get_definition-get_definition :
      (url rev : String) (force_refresh : Bool) (top_def : TopologyDefinition) (s : DefinitionState)
      (contents : String → String → String → Option String)
      → (get_definition platform url rev force_refresh s).0 ≡ ok top_def
      → get_definition
          (with_contents contents)
          url
          rev
          false
          (get_definition platform url rev force_refresh s).1
        ≡ (ok top_def, (get_definition platform url rev force_refresh s).1)
  unfolding get_definition look_up with_contents
  get_definition-get_definition url rev force_refresh top_def s contents h =
      elim (Result-cases (get_def_provider (platform.git url) url)) [
        | inr (e, failed) ↦ ground (arith, failed)
        | inl (git_type, provided) ↦
            elim (Result-cases
              (get_rev_sha git_type platform.topology_cache_mode (platform.git url) rev)) [
                | inr (e, failed) ↦ ground (arith, provided, failed)
                | inl (rev_sha, resolved) ↦ ground (
                  arith,
                  provided,
                  resolved,
                  provider-contents contents url,
                  sha-contents contents url rev git_type platform.topology_cache_mode,
                  fetch_definition-cached url rev_sha top_def s,
                  Bool-cases force_refresh,
                )
              ]
      ]
