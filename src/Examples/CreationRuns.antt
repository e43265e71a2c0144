-- ===== src/Examples/CreationRuns.antt =====
-- Pools of a definition with one server.
use backend_sandbox_service.Prelude.{◌≡◌, refl, true, false, none, [], ◌∷◌, str_eq}
use backend_sandbox_service.Errors.{ok, err, crczp_exception}
use backend_sandbox_service.Definitions.{
  get_definition, get_def_provider, get_rev_sha, look_up, fetch_definition, get_file,
  load_definition, validate_topology_definition, validate_docker_containers, get_containers,
  validate_containers,
}
use backend_sandbox_service.Pools.Creation.{Creation, CreationState, create_pool, validate_pool}
use backend_sandbox_service.Pools.Creation.Outcome.{Outcome, create_pool-Outcome}
use backend_sandbox_service.Examples.DefinitionRuns.{url, platform, empty}

abbrev creation : Creation
creation = record {
  definition = ok (record { name = "small"; url = url; rev = "main" });
  is_valid = true;
  private_key = "private";
  public_key = "public";
  self_signed = "certificate";
  aws_provider_configured = false;
  keypair_name = "crczp-p1";
  create_keypair = λ _. ok tt;
  delete_keypair = λ _. ok tt;
}

abbrev nothing : CreationState
nothing = record { pool = none; key_pairs = []; definitions = empty }

create_pool-Outcome_example :
    Outcome platform creation
      (create_pool platform creation nothing).0
      (create_pool platform creation nothing).1
create_pool-Outcome_example = create_pool-Outcome platform creation nothing refl

made_pairs :
    (create_pool platform creation nothing).1.key_pairs ≡ "crczp-p1-cert" ∷ "crczp-p1-ssh" ∷ []
unfolding create_pool validate_pool get_definition get_def_provider get_rev_sha look_up
    fetch_definition get_file load_definition validate_topology_definition
    validate_docker_containers get_containers validate_containers
made_pairs = refl

-- The cloud refuses the certificate.
abbrev refusing : Creation
refusing = record creation {
  create_keypair =
      λ name. elim (str_eq name "crczp-p1-ssh") [ true ↦ ok tt | false ↦ err crczp_exception ];
}

taken_back : create_pool platform refusing nothing ≡ (
  err crczp_exception,
  record nothing { definitions = (create_pool platform refusing nothing).1.definitions },
)
unfolding create_pool validate_pool get_definition get_def_provider get_rev_sha look_up
    fetch_definition get_file load_definition validate_topology_definition
    validate_docker_containers get_containers validate_containers
taken_back = refl
