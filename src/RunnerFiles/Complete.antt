-- ===== src/RunnerFiles/Complete.antt =====
-- Every file that validated containers need is written: that of a host once, that of a mapping once
-- for each time that the mapping is listed.
use backend_sandbox_service.Prelude.{
  ◌≡◌, refl, true, List, [], ◌∷◌, ◌++◌, append-nil, append_assoc, String, contains, all, arith,
  Bool-cases, inl, inr, ◌&&◌, some, none, str_eq,
}
use backend_sandbox_service.Errors.{Result, ok, err, is_ok, Result-cases}
use backend_sandbox_service.Definitions.{
  Platform, Container, ContainerMapping, DockerContainers, TopologyDefinition, is_set,
  container_names, names_of, validate_containers,
}
use backend_sandbox_service.Definitions.Validation.{readable, well_built, is_ok-validate_containers}
use backend_sandbox_service.RunnerFiles.{
  FileOperation, made, saved, Disk, find_container, mappings_of, make_dir, save_file, compose_path,
  dockerfile_dir, generate_compose, generate_docker_composes, dockerfile_of, generate_dockerfile,
  generate_dockerfiles, prepare_containers_directory,
}
use backend_sandbox_service.RunnerFiles.Once.{
  once, hosts_of, fresh_of, fresh_of-seen, fresh_of-append, fresh_of-nil,
}

abbrev pub text_of : Result String → String
text_of (ok text) = text
text_of (err _) = ""

abbrev pub flat : {A : Type 0} → (A → List FileOperation) → List A → List FileOperation
flat f [] = []
flat f (x ∷ xs) = f x ++ flat f xs

-- A disk that takes every directory and file, and templates that can be filled in.
pub record Works (disk : Disk) : Type 0 where
  pub makes : (dir_path : String) → disk.make dir_path ≡ ok tt
  pub writes : (file_path : String) → disk.write file_path ≡ ok tt
  pub composes :
      (ms : List ContainerMapping) (cs : List Container) → is_ok (disk.render_compose ms cs) ≡ true
  pub dockerfiles : (container : Container) → is_ok (disk.render_dockerfile container) ≡ true

append_two :
    (s : List FileOperation) (a b : FileOperation) → (s ++ a ∷ []) ++ b ∷ [] ≡ s ++ a ∷ b ∷ []
append_two s a b = append_assoc s (a ∷ []) (b ∷ [])

module _ (platform : Platform) (disk : Disk) (containers_path url rev : String)
    (containers : DockerContainers) where
  -- What is written for a host: its directory, and the docker-compose file of its own mappings.
  abbrev pub compose_of : String → List FileOperation
  compose_of host =
      made (platform.join_path containers_path host)
      ∷ saved (compose_path platform disk containers_path host) (
          text_of (
            disk.render_compose (mappings_of host containers.container_mappings)
              containers.containers))
      ∷ []

  abbrev pub dockerfile_text : ContainerMapping → String
  dockerfile_text mapping = elim (find_container mapping.container containers.containers) [
    | none ↦ ""
    | some container ↦ text_of (dockerfile_of platform disk containers_path url rev container)
  ]

  -- What is written for a mapping: its directory, and the Dockerfile of its container.
  abbrev pub built_of : ContainerMapping → List FileOperation
  built_of mapping =
      made (dockerfile_dir platform disk containers_path mapping)
      ∷ saved
          (platform.join_path (dockerfile_dir platform disk containers_path mapping) "Dockerfile")
          (dockerfile_text mapping)
      ∷ []

  module _ (works : Works disk) where
    generate_compose_lem :
        (host : String) (s : List FileOperation)
        → generate_compose platform disk containers_path containers host s
          ≡ (ok tt, s ++ compose_of host)
    unfolding generate_compose make_dir save_file
    generate_compose_lem host s =
        elim (Result-cases (
          disk.render_compose (mappings_of host containers.container_mappings)
            containers.containers)) [
              | inl (text, rendered) ↦ ground (
                arith,
                rendered,
                works.makes (platform.join_path containers_path host),
                works.writes (compose_path platform disk containers_path host),
                append_two s (made (platform.join_path containers_path host))
                    (saved (compose_path platform disk containers_path host) text),
              )
              | inr (e, failed) ↦ ground (
                arith,
                failed,
                works.composes (mappings_of host containers.container_mappings)
                    containers.containers,
              )
            ]

    generate_docker_composes_lem :
        (ms : List ContainerMapping) (seen : List String) (s : List FileOperation)
        → generate_docker_composes platform disk containers_path containers ms seen s
          ≡ (ok tt, s ++ flat compose_of (fresh_of seen (once (hosts_of ms))))
    unfolding generate_docker_composes
    generate_docker_composes_lem [] seen s = rw (append-nil s) refl
    generate_docker_composes_lem (m ∷ ms) seen s = elim (Bool-cases (contains m.host seen)) [
      | inl old ↦ ground (
        arith,
        fresh_of-seen seen m.host (once (hosts_of ms)) old,
        generate_docker_composes_lem ms seen s,
      )
      | inr new ↦ ground (
        arith,
        fresh_of-append seen m.host (once (hosts_of ms)),
        generate_compose_lem m.host s,
        generate_docker_composes_lem ms (seen ++ m.host ∷ []) (s ++ compose_of m.host),
        append_assoc s (compose_of m.host)
            (flat compose_of (fresh_of (seen ++ m.host ∷ []) (once (hosts_of ms)))),
      )
    ]

    module _ (top_def : TopologyDefinition) where
      find-built :
          (name : String) (cs : List Container)
          → all (well_built (readable platform url rev)) cs ≡ true
          → contains name (container_names cs) ≡ true
          → (container : Container) × (find_container name cs ≡ some container)
            × (well_built (readable platform url rev) container ≡ true)
      unfolding find_container container_names
      find-built name [] built known = ground arith
      find-built name (c ∷ cs) built known = elim (Bool-cases (str_eq c.name name)) [
        | inl same ↦ (c, ground arith, ground arith)
        | inr other ↦
            let (found, e, h) = find-built name cs (ground arith) (ground arith) in
            (found, ground (arith, e), h)
      ]

      dockerfile_of-built :
          (container : Container)
          → well_built (readable platform url rev) container ≡ true
          → is_ok (dockerfile_of platform disk containers_path url rev container) ≡ true
      unfolding dockerfile_of readable is_set
      dockerfile_of-built container h = ground (arith, works.dockerfiles container)

      generate_dockerfile_lem :
          (m : ContainerMapping) (s : List FileOperation)
          → all (well_built (readable platform url rev)) containers.containers ≡ true
          → contains m.container (container_names containers.containers) ≡ true
          → generate_dockerfile platform disk containers_path url rev containers.containers m s
            ≡ (ok tt, s ++ built_of m)
      unfolding generate_dockerfile make_dir save_file
      generate_dockerfile_lem m s built known =
          let (c, found, well) = find-built m.container containers.containers built known in
          elim (Result-cases (dockerfile_of platform disk containers_path url rev c)) [
            | inl (text, e) ↦ ground (
              arith,
              found,
              e,
              works.makes (dockerfile_dir platform disk containers_path m),
              works.writes (
                  platform.join_path (dockerfile_dir platform disk containers_path m) "Dockerfile"),
              append_two s (made (dockerfile_dir platform disk containers_path m)) (
                  saved
                    (platform.join_path (dockerfile_dir platform disk containers_path m)
                      "Dockerfile")
                    text),
            )
            | inr (e, failed) ↦ ground (arith, failed, dockerfile_of-built c well)
          ]

      generate_dockerfiles_lem :
          (ms : List ContainerMapping) (s : List FileOperation)
          → all (well_built (readable platform url rev)) containers.containers ≡ true
          → all
              (λ (m : ContainerMapping).
                contains m.container (container_names containers.containers)
                && contains m.host (names_of top_def.hosts))
              ms
            ≡ true
          → generate_dockerfiles platform disk containers_path url rev containers.containers ms s
            ≡ (ok tt, s ++ flat built_of ms)
      unfolding generate_dockerfiles
      generate_dockerfiles_lem [] s built known = rw (append-nil s) refl
      generate_dockerfiles_lem (m ∷ ms) s built known = ground (
        arith,
        generate_dockerfile_lem m s,
        generate_dockerfiles_lem ms (s ++ built_of m),
        append_assoc s (built_of m) (flat built_of ms),
      )

      -- Containers that their validation accepts always get their files, on a disk that works: after
      -- the directory of all come, for each host of a container once, where it is first named, its
      -- directory and the docker-compose file of its own containers, and then, for each mapping, its
      -- directory and the Dockerfile of its container, again for a mapping that is listed again.
      -- Nothing else is written.
      pub prepare_containers_directory-validated :
          (s : List FileOperation)
          → validate_containers platform url rev top_def containers ≡ ok tt
          → prepare_containers_directory platform disk containers_path url rev (some containers) s
            ≡ (
              ok tt,
              s
                  ++ made containers_path
                    ∷ flat compose_of (once (hosts_of containers.container_mappings))
                  ++ flat built_of containers.container_mappings,
            )
      unfolding prepare_containers_directory make_dir
      prepare_containers_directory-validated s valid =
          let ms = containers.container_mappings in
          let composed = flat compose_of (once (hosts_of ms)) in
          ground (
            arith,
            valid,
            is_ok-validate_containers platform url rev top_def containers,
            works.makes containers_path,
            generate_docker_composes_lem ms [] (s ++ made containers_path ∷ []),
            fresh_of-nil (once (hosts_of ms)),
            append_assoc s (made containers_path ∷ []) composed,
            generate_dockerfiles_lem ms (s ++ made containers_path ∷ composed),
          )
