-- ===== src/Examples/FileRuns.antt =====
-- The files of one container on one server.
use backend_sandbox_service.Prelude.{◌≡◌, refl, some, [], ◌∷◌, ◌++◌}
use backend_sandbox_service.Errors.{ok}
use backend_sandbox_service.Definitions.{validate_containers}
use backend_sandbox_service.RunnerFiles.{
  made, saved, Disk, prepare_containers_directory, generate_docker_composes, generate_compose,
  generate_dockerfiles, generate_dockerfile,
}
use backend_sandbox_service.RunnerFiles.Once.{once, hosts_of}
use backend_sandbox_service.RunnerFiles.Complete.{
  Works, flat, compose_of, built_of, prepare_containers_directory-validated,
}
use backend_sandbox_service.Examples.DefinitionRuns.{url, topology, containers, platform}

abbrev disk : Disk
disk = record {
  make = λ _. ok tt;
  write = λ _. ok tt;
  render_compose = λ _ _. ok "services";
  render_dockerfile = λ container. ok container.name;
}

works : Works disk
works = record {
  makes = λ _. refl;
  writes = λ _. refl;
  composes = λ _ _. refl;
  dockerfiles = λ _. refl;
}

prepare_containers_directory-validated_example :
    prepare_containers_directory platform disk "containers" url "main" (some containers) [] ≡ (
      ok tt,
      []
          ++ made "containers"
            ∷ flat
                (compose_of platform disk "containers" url "main" containers)
                (once (hosts_of containers.container_mappings))
          ++ flat
              (built_of platform disk "containers" url "main" containers)
              containers.container_mappings,
    )
unfolding validate_containers
prepare_containers_directory-validated_example =
    prepare_containers_directory-validated platform disk "containers" url "main" containers works
      topology [] refl

written :
    prepare_containers_directory platform disk "containers" url "main" (some containers) [] ≡ (
      ok tt,
      made "containers"
          ∷ made "containers/server"
          ∷ saved "containers/server/docker-compose.yml" "services"
          ∷ made "containers/server/nginx"
          ∷ saved "containers/server/nginx/Dockerfile" "nginx"
          ∷ [],
    )
unfolding prepare_containers_directory generate_docker_composes generate_compose
    generate_dockerfiles generate_dockerfile
written = refl
