-- ===== src/Provision/Rows.antt =====
-- The rows of SandboxNetbirdResources and SandboxNetbirdAccess of
-- crczp/sandbox_instance_app/models.py, and the lists of routes that they hold as text.
use Prim.Native.Char.{code}
use backend_sandbox_service.Prelude.{
  true, false, Option, none, some, List, [], ◌∷◌, String, str_append, str_eq, ◌==◌, if◌then◌else◌,
}

pub record Resource : Type 0 where
  pub entrypoint_host_name : String
  pub host_group_id : Option String
  pub host_setup_key_id : Option String
  pub host_setup_key_value : Option String
  pub route_ids : Option String
  pub route_cidrs : Option String
  pub policy_id : Option String

pub record AccessRow : Type 0 where
  pub access_group_id : Option String
  pub access_setup_key_id : Option String
  pub access_setup_key_value : Option String
  pub dns_nameserver_group_id : Option String

-- `','.join(ids)`
unfoldable pub join : List String → String
join [] = String.[]
join (id ∷ []) = id
join (id ∷ next ∷ ids) = str_append id (str_append "," (join (next ∷ ids)))

-- `text.split(',')`, the first part and the others.
unfoldable pub split_parts : String → String × List String
split_parts String.[] = (String.[], [])
split_parts (String.◌∷◌ c s) =
    let (part, parts) = split_parts s in
    if code c == 44 then (String.[], part ∷ parts) else (String.◌∷◌ c part, parts)

unfoldable pub split : String → List String
unfolding split_parts
split s = let (part, parts) = split_parts s in part ∷ parts

-- `[r for r in parts if r]`
unfoldable pub set_parts : List String → List String
set_parts [] = []
set_parts (part ∷ parts) =
    let rest = set_parts parts in if str_eq part "" then rest else part ∷ rest

-- `get_route_id_list`, `get_route_cidr_list`
unfoldable pub get_list : Option String → List String
unfolding split set_parts
get_list none = []
get_list (some text) = elim (str_eq text "") [ true ↦ [] | false ↦ set_parts (split text) ]

-- The row of an entrypoint, and its first state.
unfoldable pub find_row : String → List Resource → Option Resource
find_row host_name [] = none
find_row host_name (row ∷ rows) =
    let rest = find_row host_name rows in
    if str_eq row.entrypoint_host_name host_name then some row else rest

unfoldable pub put_row : Resource → List Resource → List Resource
put_row nbr [] = nbr ∷ []
put_row nbr (row ∷ rows) =
    let rest = put_row nbr rows in
    if str_eq row.entrypoint_host_name nbr.entrypoint_host_name then nbr ∷ rows else row ∷ rest

unfoldable pub new_row : String → Resource
new_row host_name = record {
  entrypoint_host_name = host_name;
  host_group_id = none;
  host_setup_key_id = none;
  host_setup_key_value = none;
  route_ids = none;
  route_cidrs = none;
  policy_id = none;
}

unfoldable pub new_access : AccessRow
new_access = record {
  access_group_id = none;
  access_setup_key_id = none;
  access_setup_key_value = none;
  dns_nameserver_group_id = none;
}
