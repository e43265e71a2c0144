-- ===== src/Definitions/Created.antt =====
-- What the creation of a definition has checked.
use backend_sandbox_service.Prelude.{
  ◌≡◌, Bool, false, none, some, [], ◌∷◌, ◌++◌, String, str_eq, any, ◌&&◌, arith, ◌⊎◌, inl, inr,
  Bool-cases,
}
use backend_sandbox_service.Errors.{ok, is_ok, Result-cases}
use backend_sandbox_service.Definitions.{
  Platform, TopologyDefinition, DockerContainers, Definition, DefinitionState, get_file,
  load_definition, look_up, get_def_provider, get_rev_sha, fetch_definition, get_definition,
  validate_topology_definition, validate_docker_containers, validate_containers, create_definition,
  save_definition, is_unique, is_github, is_fresh_import, get_git_type, get_containers,
}
use backend_sandbox_service.Definitions.Cached.{get_definition-get_definition, with_contents}

module _ (platform : Platform) (url rev : String) where
  fetch_definition-definitions :
      (rev_sha : String) (s : DefinitionState)
      → (fetch_definition platform url rev_sha s).1.definitions ≡ s.definitions
  unfolding fetch_definition
  fetch_definition-definitions rev_sha s =
      elim (Result-cases (get_file (platform.git url) "topology.yml" rev_sha)) [
        | inr (e, failed) ↦ ground (arith, failed)
        | inl (text, read) ↦ elim (Result-cases (load_definition platform text)) [
          | inr (e, failed) ↦ ground (arith, read, failed)
          | inl (top_def, loaded) ↦ ground (arith, read, loaded)
        ]
      ]

  get_definition-definitions :
      (force_refresh : Bool) (s : DefinitionState)
      → (get_definition platform url rev force_refresh s).1.definitions ≡ s.definitions
  unfolding get_definition look_up
  get_definition-definitions force_refresh s =
      elim (Result-cases (get_def_provider (platform.git url) url)) [
        | inr (e, failed) ↦ ground (arith, failed)
        | inl (git_type, provided) ↦
            elim (Result-cases
              (get_rev_sha git_type platform.topology_cache_mode (platform.git url) rev)) [
                | inr (e, failed) ↦ ground (arith, provided, failed)
                | inl (rev_sha, resolved) ↦ ground (
                  arith,
                  provided,
                  resolved,
                  fetch_definition-definitions rev_sha s,
                  Bool-cases force_refresh,
                )
              ]
      ]

  -- The containers of the repository fit the topology, or it has none.
  abbrev pub ContainersFit : TopologyDefinition → Type 0
  ContainersFit top_def =
      (get_containers platform url rev ≡ ok none)
      ⊎ ((containers : DockerContainers) × (get_containers platform url rev ≡ ok (some containers))
          × (validate_containers platform url rev top_def containers ≡ ok tt))

  validate_docker_containers-fit :
      (force_refresh : Bool) (top_def : TopologyDefinition) (s : DefinitionState)
      → (get_definition platform url rev force_refresh s).0 ≡ ok top_def
      → let t = (get_definition platform url rev force_refresh s).1 in
        ((validate_docker_containers platform url rev t).1 ≡ t)
        × ((is_ok (validate_docker_containers platform url rev t).0 ≡ false)
            ⊎ (((validate_docker_containers platform url rev t).0 ≡ ok tt) × ContainersFit top_def))
  unfolding validate_docker_containers with_contents
  validate_docker_containers-fit force_refresh top_def s given =
      let again =
        get_definition-get_definition platform url rev force_refresh top_def s
          (λ u. (platform.git u).contents) given in
      elim (Result-cases (get_containers platform url rev)) [
        | inr (e, failed) ↦ (ground (arith, again, failed), inl (ground (arith, again, failed)))
        | inl (none, found) ↦
            (ground (arith, again, found), inr (ground (arith, again, found), inl found))
        | inl (some containers, found) ↦
            elim (Result-cases (validate_containers platform url rev top_def containers)) [
              | inr (e, failed) ↦
                  (ground (arith, again, found), inl (ground (arith, again, found, failed)))
              | inl (tt, accepted) ↦ (
                ground (arith, again, found),
                inr (ground (arith, again, found, accepted), inr (containers, found, accepted)),
              )
            ]
      ]

  abbrev pub named : TopologyDefinition → Definition
  named top_def = record { name = top_def.name; url = url; rev = rev }

  -- A definition is created, with the name of its topology, only if no other has its repository and
  -- revision, the topology is valid here and for the cloud, and the containers of the repository, if
  -- it has any, fit this same topology; a creation that raises leaves the definitions as they were.
  pub create_definition-created :
      (s : DefinitionState)
      → ((is_ok (create_definition platform url rev s).0 ≡ false)
          × ((create_definition platform url rev s).1.definitions ≡ s.definitions))
        ⊎ ((top_def : TopologyDefinition) × ((create_definition platform url rev s).0
              ≡ ok (named top_def))
            × ((create_definition platform url rev s).1.definitions
                ≡ s.definitions ++ named top_def ∷ [])
            × (any (λ (d : Definition). str_eq d.url url && str_eq d.rev rev) s.definitions ≡ false)
            × (validate_topology_definition platform top_def ≡ ok tt)
            × (platform.validate_in_cloud top_def ≡ ok tt)
            × ContainersFit top_def)
  unfolding create_definition save_definition is_unique
  create_definition-created s =
      let force =
        is_github platform (get_git_type url)
        && is_fresh_import platform platform.topology_cache_mode in
      let t = (get_definition platform url rev force s).1 in
      let same = get_definition-definitions force s in
      elim (Result-cases (get_definition platform url rev force s).0) [
        | inr (e, failed) ↦ inl (ground (arith, failed), ground (arith, failed, same))
        | inl (top_def, given) ↦
            elim (Result-cases (validate_topology_definition platform top_def)) [
              | inr (e, failed) ↦
                  inl (ground (arith, given, failed), ground (arith, given, failed, same))
              | inl (tt, valid) ↦
                  let (kept, fit) = validate_docker_containers-fit force top_def s given in
                  elim fit [
                    | inl failed ↦ inl (
                      ground (arith, given, valid, failed),
                      ground (arith, given, valid, failed, kept, same),
                    )
                    | inr (passed, fits) ↦
                        elim (Result-cases (platform.validate_in_cloud top_def)) [
                          | inr (e, failed) ↦ inl (
                            ground (arith, given, valid, passed, failed),
                            ground (arith, given, valid, passed, failed, kept, same),
                          )
                          | inl (tt, built) ↦
                              elim (Bool-cases (
                                platform.fields_valid (named top_def)
                                && is_unique platform (named top_def) s.definitions)) [
                                  | inr refused ↦ inl (
                                    ground
                                        (arith, given, valid, passed, built, kept, same, refused),
                                    ground
                                        (arith, given, valid, passed, built, kept, same, refused),
                                  )
                                  | inl accepted ↦ inr (
                                    top_def,
                                    ground
                                        (arith, given, valid, passed, built, kept, same, accepted),
                                    ground
                                        (arith, given, valid, passed, built, kept, same, accepted),
                                    ground (arith, accepted),
                                    valid,
                                    built,
                                    fits,
                                  )
                                ]
                        ]
                  ]
            ]
      ]
