-- ===== src/Provision/Calls.antt =====
-- The state of a provisioning, what the service and the database answer, and how the rows are
-- written: crczp/sandbox_instance_app/lib/netbird.py and the creating requests of
-- crczp/sandbox_common_lib/netbird_client.py.
use backend_sandbox_service.Prelude.{
  ℕ, Bool, true, false, Option, none, some, List, [], ◌∷◌, ◌++◌, String, leb, ltb, ◌&&◌,
}
use backend_sandbox_service.Netbird
use backend_sandbox_service.Errors.{
  Done, value_error, key_error, netbird_api_error, integrity_error, Result, ok, err, Exec, pure,
  modify, catch, ◌>>=◌, ◌>>◌,
}
use backend_sandbox_service.Provision.Rows.{Resource, AccessRow, put_row, get_list}

-- An entrypoint of the topology's VPN settings, and its settings for name servers.
pub record VpnEntrypoint : Type 0 where
  pub name : String
  pub routes : List String

pub record VpnDns : Type 0 where
  pub servers : List String
  pub search_domains : List String

pub data CreateCall : Type 0 where
  create_group : (name : String) → CreateCall
  create_setup_key : (name : String) (auto_group_ids : List String) (expires_in : ℕ) → CreateCall
  create_route :
      (network_id cidr : String) (peer_group_ids client_group_ids : List String) → CreateCall
  create_policy : (name : String) (sources destinations : List String) → CreateCall
  create_nameserver_group :
      (name : String) (servers groups : List String) (primary : Bool) (domains : List String)
      → CreateCall

-- What the service answers: the body may be no JSON, and `id` or `key` may be missing in it.
pub data CreateReply : Type 0 where
  no_response : CreateReply
  response : (status_code : ℕ) → (json : Option (Option String × Option String)) → CreateReply

-- An object that the service has made; `unread` is that of a call whose reply did not come, or could
-- not be read although it was no error: the service may have made it, and nobody has its identifier.
pub data Made : Type 0 where
  made_group made_setup_key made_route made_policy made_nameserver_group : String → Made
  unread : CreateCall → Made

pub data Step : Type 0 where
  queried : Step
  called : CreateCall → Step

-- The rows of the sandbox, its `access` object and the list `created` in memory, the objects that
-- were made and what was done so far.
pub record ProvisionState : Type 0 where
  pub rows : List Resource
  pub access_row : Option AccessRow
  pub access : Option AccessRow
  pub created : List Resource
  pub made : List Made
  pub steps : List Step
  pub teardown_steps : List Netbird.Step

abbrev pub Provision : Type 0 → Type 0
Provision A = Exec ProvisionState A

-- The service, and the database: whether the sandbox is there, where it can be asked.
pub record Service : Type 0 where
  pub reply : List Step → CreateCall → CreateReply
  pub exists : List Step → Result Bool

unfoldable pub is_nil : List String → Bool
is_nil [] = true
is_nil (_ ∷ _) = false

-- `_request`, and what `_create_and_get_id` and `create_setup_key` read of the body.
unfoldable pub created_id : CreateReply → Result String
created_id no_response = err netbird_api_error
created_id (response status_code json) = elim (leb 400 status_code) [
  | true ↦ err netbird_api_error
  | false ↦ elim json [
    | none ↦ err value_error
    | some (none, _) ↦ err key_error
    | some (some id, _) ↦ ok id
  ]
]

unfoldable pub created_key : CreateReply → Result (String × String)
created_key no_response = err netbird_api_error
created_key (response status_code json) = elim (leb 400 status_code) [
  | true ↦ err netbird_api_error
  | false ↦ elim json [
    | none ↦ err value_error
    | some (none, _) ↦ err key_error
    | some (some _, none) ↦ err key_error
    | some (some id, some key) ↦ ok (id, key)
  ]
]

-- What a call that raises may have made. A request that the service refuses (4xx) makes nothing.
unfoldable pub unread_of : CreateReply → CreateCall → List Made
unread_of no_response call = unread call ∷ []
unread_of (response status_code json) call = elim (leb 400 status_code && ltb status_code 500) [
  | true ↦ []
  | false ↦ unread call ∷ []
]

-- An object that is saved after its row went with the sandbox: the row cannot be written.
unfoldable pub cascade : ProvisionState → ProvisionState
cascade s = record s { rows = []; access_row = none }

-- The rows as the teardown reads them.
unfoldable pub entrypoint_of : Resource → Netbird.Entrypoint
unfolding get_list
entrypoint_of nbr = record {
  id = 0;
  policy_id = nbr.policy_id;
  route_id_list = get_list nbr.route_ids;
  host_setup_key_id = nbr.host_setup_key_id;
  host_group_id = nbr.host_group_id;
}

unfoldable pub access_of : AccessRow → Netbird.Access
access_of access = record {
  dns_nameserver_group_id = access.dns_nameserver_group_id;
  access_setup_key_id = access.access_setup_key_id;
  access_group_id = access.access_group_id;
}

-- `try: ... except Exception` with a log line.
unfoldable pub contained : Provision Done → Provision Done
contained m = catch (λ _. true) m (λ _. pure tt)

unfoldable pub key_of : String × String → Made
key_of (id, _) = made_setup_key id

module _ (service : Service) where
  -- `Sandbox.objects.filter(pk=sandbox.pk).exists()`; with the sandbox its rows are gone.
  unfoldable pub query : Provision Bool
  unfolding cascade
  query s =
      let t = record s { steps = s.steps ++ queried ∷ [] } in
      elim (service.exists s.steps) [
        | err e ↦ (err e, t)
        | ok true ↦ (ok true, t)
        | ok false ↦ (ok false, cascade t)
      ]

  -- An insert or update of a row of the sandbox.
  unfoldable pub write_row : (ProvisionState → ProvisionState) → Provision Done
  unfolding query
  write_row write = query >>= λ there.
      λ s. elim there [ true ↦ (ok tt, write s) | false ↦ (err integrity_error, s) ]

  unfoldable pub save : Resource → Provision Done
  unfolding write_row put_row
  save nbr = write_row (λ s. record s { rows = put_row nbr s.rows })

  -- `access.save()`, after the fields were set on the object.
  unfoldable pub save_access : AccessRow → Provision Done
  unfolding write_row
  save_access access = do
    modify (λ s. record s { access = some access })
    write_row (λ s. record s { access_row = some access })

  -- `client.create_...`
  unfoldable pub create :
      {A : Type 0} → (CreateReply → Result A) → (A → Made) → CreateCall → Provision A
  unfolding unread_of
  create read named call s =
      let reply = service.reply s.steps call in
      let t = record s { steps = s.steps ++ called call ∷ [] } in
      elim (read reply) [
        | err e ↦ (err e, record t { made = t.made ++ unread_of reply call })
        | ok a ↦ (ok a, record t { made = t.made ++ named a ∷ [] })
      ]
