-- ===== src/Pools/Creation.antt =====
-- The creation of a pool: `create_pool` of crczp/sandbox_instance_app/lib/pools.py, over the
-- definitions that it checks and the key pairs that it makes in the cloud.
use backend_sandbox_service.Prelude.{
  Bool, true, false, not, Option, none, some, List, [], ◌∷◌, ◌++◌, String, str_append, str_eq,
  filter,
}
use backend_sandbox_service.Errors.{
  Done, Exc, git_error, validation_error, invalid_topology, rest_validation_error, Result, ok, err,
  Exec, pure, raise, lift, gets, modify, raise_if, when, catch, is_crczp, ◌>>=◌, ◌>>◌,
}
use backend_sandbox_service.Definitions.{
  Platform, Definition, DefinitionState, DockerContainers, get_def_provider, get_rev_sha,
  get_definition, get_containers, validate_topology_definition, validate_docker_containers,
}
pub mod Outcome

-- The row of a pool with its management keys, which are empty texts at first.
pub record NewPool : Type 0 where
  pub rev : String
  pub rev_sha : String
  pub private_management_key : String
  pub public_management_key : String
  pub management_certificate : String

-- The pool that is created, if its row is there, the names of the key pairs in the cloud, and the
-- definitions with their cache.
pub record CreationState : Type 0 where
  pub pool : Option NewPool
  pub key_pairs : List String
  pub definitions : DefinitionState

abbrev pub CreationAction : Type 0 → Type 0
CreationAction A = Exec CreationState A

-- The definition that is asked for, whether the serializer takes the rest of the data, the keys and
-- the certificate that are made, whether the cloud is AWS, the name of the pool's key pairs, and
-- what the cloud answers.
pub record Creation : Type 0 where
  pub definition : Result Definition
  pub is_valid : Bool
  pub private_key : String
  pub public_key : String
  pub self_signed : String
  pub aws_provider_configured : Bool
  pub keypair_name : String
  pub create_keypair : String → Result Done
  pub delete_keypair : String → Result Done

-- An action on the definitions.
abbrev pub on_definitions : {A : Type 0} → Exec DefinitionState A → CreationAction A
on_definitions m s = let (r, d) = m s.definitions in (r, record s { definitions = d })

-- The exceptions that take a pool back.
abbrev pub is_rolled_back : Exc → Bool
is_rolled_back git_error = true
is_rolled_back validation_error = true
is_rolled_back invalid_topology = true
is_rolled_back _ = false

module _ (platform : Platform) (creation : Creation) where
  abbrev pub ssh_keypair_name : String
  ssh_keypair_name = str_append creation.keypair_name "-ssh"

  abbrev pub certificate_keypair_name : String
  certificate_keypair_name = str_append creation.keypair_name "-cert"

  -- `if containers`
  unfoldable pub validate_found :
      String → String → Option DockerContainers → Exec DefinitionState Done
  validate_found url rev_sha none = pure tt
  validate_found url rev_sha (some _) = validate_docker_containers platform url rev_sha

  -- The definition and the containers of the new pool, at its revision.
  unfoldable pub validate_pool : String → String → Exec DefinitionState Done
  unfolding validate_found
  validate_pool url rev_sha = do
    top_def ← get_definition platform url rev_sha false
    lift (validate_topology_definition platform top_def)
    containers ← lift (get_containers platform url rev_sha)
    validate_found url rev_sha containers
    lift (platform.validate_in_cloud top_def)

  unfoldable pub certificate : String
  certificate = elim creation.aws_provider_configured [ true ↦ "" | false ↦ creation.self_signed ]

  unfoldable pub with_keys : NewPool → NewPool
  unfolding certificate
  with_keys pool = record pool {
    private_management_key = creation.private_key;
    public_management_key = creation.public_key;
    management_certificate = certificate;
  }

  unfoldable pub make_keypair : String → CreationAction Done
  make_keypair name =
      lift (creation.create_keypair name)
      >> modify (λ s. record s { key_pairs = name ∷ s.key_pairs })

  -- A key pair that cannot be deleted is only logged.
  unfoldable pub drop_keypair : String → CreationAction Done
  drop_keypair name =
      catch is_crczp
        (lift (creation.delete_keypair name)
          >> modify
              (λ s. record s { key_pairs = filter (λ other. not (str_eq other name)) s.key_pairs }))
        (λ _. pure tt)

  -- `delete_pool`, of a pool that has neither a lock nor a unit.
  unfoldable pub discard_pool : CreationAction Done
  unfolding drop_keypair
  discard_pool = do
    modify (λ s. record s { pool = none })
    drop_keypair ssh_keypair_name
    drop_keypair certificate_keypair_name

  unfoldable pub make_keypairs : CreationAction Done
  unfolding make_keypair certificate
  make_keypairs = do
    make_keypair ssh_keypair_name
    when (not (str_eq certificate "")) (make_keypair certificate_keypair_name)

  -- The key pairs of a row that has its keys.
  unfoldable pub finish_pool : NewPool → CreationAction NewPool
  unfolding make_keypairs discard_pool
  finish_pool pool =
      catch is_crczp make_keypairs (λ e. catch is_crczp discard_pool (λ _. pure tt) >> raise e)
      >> pure pool

  -- From the new row on.
  unfoldable pub complete_pool : String → NewPool → CreationAction NewPool
  unfolding validate_pool with_keys finish_pool
  complete_pool url pool = do
    modify (λ s. record s { pool = some pool })
    catch is_rolled_back (on_definitions (validate_pool url pool.rev_sha))
        (λ e. modify (λ s. record s { pool = none }) >> raise e)
    modify (λ s. record s { pool = some (with_keys pool) })
    finish_pool (with_keys pool)

  -- `create_pool`
  unfoldable pub create_pool : CreationAction NewPool
  unfolding complete_pool
  create_pool = do
    definition ← lift creation.definition
    git_type ← lift (get_def_provider (platform.git definition.url) definition.url)
    rev_sha ← lift (
        get_rev_sha git_type platform.topology_cache_mode (platform.git definition.url)
          definition.rev)
    raise_if (not creation.is_valid) rest_validation_error
    complete_pool definition.url (record {
      rev = definition.rev;
      rev_sha = rev_sha;
      private_management_key = "";
      public_management_key = "";
      management_certificate = "";
    })
