-- ===== src/Users.antt =====
-- Users and their groups: `get_or_create_user` of crczp/sandbox_uag/auth.py, for the request of one
-- user. The user's row has the names and the address of the token, which nothing here reads.
pub mod Roles
use backend_sandbox_service.Prelude.{
  ℕ, Bool, true, false, Option, none, some, List, [], ◌∷◌, String, str_eq, contains, ◌==◌, ◌&&◌,
  if◌then◌else◌,
}
use backend_sandbox_service.Errors.{
  Done, Exc, authentication_failed, network_error, key_error, value_error, Result, ok, err, Exec,
  raise, ◌>>=◌, ◌>>◌, modify, pure, lift, gets,
}

-- An entry of `roles` in the answer of the user-and-group service.
pub record Role : Type 0 where
  pub role_type : String
  pub name_of_microservice : String

-- An entry of the cache: the key is made of the user's name and of the hash of the token.
pub record CacheEntry : Type 0 where
  pub username : String
  pub hashed_token : ℕ
  pub groups : List String
  pub bearer_token : String

-- The groups of the user, and the cache, the latest entry first.
pub record UserState : Type 0 where
  pub user_groups : List String
  pub cache : List CacheEntry

-- The groups of the database, the service's name, the hash, and what the service answers.
pub record Uag : Type 0 where
  pub groups : List String
  pub microservice_name : String
  pub sha1 : String → ℕ
  pub roles : (bearer_token : String) → Result (List Role)

abbrev pub UserAction : Type 0 → Type 0
UserAction A = Exec UserState A

-- `CACHE.get(cache_key)`
unfoldable pub cached : String → ℕ → List CacheEntry → Option CacheEntry
cached username hashed_token [] = none
cached username hashed_token (entry ∷ cache) =
    let rest = cached username hashed_token cache in
    if str_eq entry.username username && entry.hashed_token == hashed_token
    then some entry
    else rest

unfoldable pub roles_of : String → List Role → List String
roles_of name [] = []
roles_of name (role ∷ roles) =
    let rest = roles_of name roles in
    if str_eq role.name_of_microservice name then role.role_type ∷ rest else rest

-- `get_user_roles`
unfoldable pub get_user_roles : String → Result (List Role) → Result (List String)
unfolding roles_of
get_user_roles name (ok roles) = ok (roles_of name roles)
get_user_roles name (err e) = err e

-- Any failure of the service is a failed authentication.
unfoldable pub acquired : Result (List String) → Result (List String)
acquired (ok roles) = ok roles
acquired (err _) = err authentication_failed

-- Only groups that exist are given.
unfoldable pub groups_of : List String → List String → Result (List String)
groups_of known [] = ok []
groups_of known (role ∷ roles) =
    let rest = groups_of known roles in
    elim (contains role known) [
      | false ↦ err authentication_failed
      | true ↦ elim rest [ ok groups ↦ ok (role ∷ groups) | err e ↦ err e ]
    ]

-- `user.groups.set(groups)`
unfoldable pub set_groups : List String → UserAction Done
set_groups groups = modify (λ s. record s { user_groups = groups })

module _ (uag : Uag) (username bearer_token : String) where
  unfoldable pub set_cache : List String → UserAction Done
  set_cache groups = modify (λ s. record s {
    cache =
        record {
          username = username;
          hashed_token = uag.sha1 bearer_token;
          groups = groups;
          bearer_token = bearer_token;
        }
        ∷ s.cache;
  })

  unfoldable pub ask_service : UserAction Done
  unfolding get_user_roles acquired groups_of set_groups set_cache
  ask_service = do
    user_roles ← lift (acquired (get_user_roles uag.microservice_name (uag.roles bearer_token)))
    groups ← lift (groups_of uag.groups user_roles)
    set_groups groups
    set_cache groups

  -- An entry of another token with the same hash is passed over.
  unfoldable pub from_cache : Option CacheEntry → UserAction Done
  unfolding ask_service set_groups
  from_cache none s = ask_service s
  from_cache (some entry) s = elim (str_eq entry.bearer_token bearer_token) [
    | true ↦ set_groups entry.groups s
    | false ↦ ask_service s
  ]

  unfoldable pub get_or_create_user : UserAction Done
  unfolding from_cache cached
  get_or_create_user s = from_cache (cached username (uag.sha1 bearer_token) s.cache) s
