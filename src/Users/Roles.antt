-- ===== src/Users/Roles.antt =====
-- The groups that an authenticated user has.
use backend_sandbox_service.Prelude.{
  ℕ, ◌≡◌, refl, Bool, true, false, Option, none, some, List, [], ◌∷◌, String, eq_refl, contains,
  all, arith, inl, inr,
}
use backend_sandbox_service.Errors.{authentication_failed, Result, ok, err, is_ok, Result-cases}
use backend_sandbox_service.Users.{
  Role, CacheEntry, UserState, Uag, cached, roles_of, get_user_roles, acquired, groups_of,
  set_groups, set_cache, ask_service, from_cache, get_or_create_user,
}

abbrev pub all_known : List String → List String → Bool
all_known known groups = all (λ group. contains group known) groups

-- Every entry of the cache holds groups that exist.
abbrev pub cache_known : List String → List CacheEntry → Bool
cache_known known cache = all (λ entry. all_known known entry.groups) cache

abbrev result_known : List String → Result (List String) → Bool
result_known known (ok groups) = all_known known groups
result_known known (err _) = true

abbrev entry_known : List String → Option CacheEntry → Bool
entry_known known none = true
entry_known known (some entry) = all_known known entry.groups

groups_of-known : (known roles : List String) → result_known known (groups_of known roles) ≡ true
unfolding groups_of
groups_of-known known [] = refl
groups_of-known known (role ∷ roles) = ground (arith, groups_of-known known roles)

groups_of-failed :
    (known roles : List String)
    → is_ok (groups_of known roles) ≡ false
    → groups_of known roles ≡ err authentication_failed
unfolding groups_of
groups_of-failed known [] h = ground arith
groups_of-failed known (role ∷ roles) h = ground (arith, groups_of-failed known roles)

cached-known :
    (known : List String) (username : String) (hashed_token : ℕ) (cache : List CacheEntry)
    → cache_known known cache ≡ true
    → entry_known known (cached username hashed_token cache) ≡ true
unfolding cached
cached-known known username hashed_token [] h = refl
cached-known known username hashed_token (entry ∷ cache) h =
    ground (arith, cached-known known username hashed_token cache)

module _ (uag : Uag) (username bearer_token : String) where
  -- A user who could not be authenticated keeps the groups, and the cache stays as it was.
  pub get_or_create_user-failed :
      (s : UserState)
      → is_ok (get_or_create_user uag username bearer_token s).0 ≡ false
      → get_or_create_user uag username bearer_token s ≡ (err authentication_failed, s)
  unfolding get_or_create_user from_cache ask_service acquired get_user_roles set_groups set_cache
  get_or_create_user-failed s h = elim (Result-cases (uag.roles bearer_token)) [
    | inl (roles, e) ↦
        ground (arith, e, groups_of-failed uag.groups (roles_of uag.microservice_name roles))
    | inr (x, e) ↦ ground (arith, e)
  ]

  -- Where the groups in the cache all exist, those of an authenticated user exist as well, and the
  -- cache stays so.
  pub get_or_create_user-known :
      (s : UserState)
      → cache_known uag.groups s.cache ≡ true
      → is_ok (get_or_create_user uag username bearer_token s).0 ≡ true
      → (all_known uag.groups (get_or_create_user uag username bearer_token s).1.user_groups ≡ true)
        × (cache_known uag.groups (get_or_create_user uag username bearer_token s).1.cache ≡ true)
  unfolding get_or_create_user from_cache ask_service set_groups set_cache acquired get_user_roles
  get_or_create_user-known s h e = elim (Result-cases (uag.roles bearer_token)) [
    | inl (roles, answered) ↦ ground (
      arith,
      answered,
      cached-known uag.groups username (uag.sha1 bearer_token) s.cache h,
      groups_of-known uag.groups (roles_of uag.microservice_name roles),
    )
    | inr (x, failed) ↦
        ground (arith, failed, cached-known uag.groups username (uag.sha1 bearer_token) s.cache h)
  ]

  -- Once a user was authenticated, the same token gives the same groups again and changes nothing,
  -- whatever the service would answer by then.
  pub get_or_create_user-get_or_create_user :
      (s : UserState) (later : String → Result (List Role))
      → is_ok (get_or_create_user uag username bearer_token s).0 ≡ true
      → get_or_create_user
          (record uag { roles = later })
          username
          bearer_token
          (get_or_create_user uag username bearer_token s).1
        ≡ (ok tt, (get_or_create_user uag username bearer_token s).1)
  unfolding get_or_create_user from_cache ask_service set_groups set_cache acquired cached
  get_or_create_user-get_or_create_user s later e =
      ground (arith, eq_refl username, eq_refl bearer_token)
