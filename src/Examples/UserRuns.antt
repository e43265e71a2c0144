-- ===== src/Examples/UserRuns.antt =====
-- Users who are authenticated, and one who is not.
use backend_sandbox_service.Prelude.{◌≡◌, refl, true, List, [], ◌∷◌, String, if◌then◌else◌, str_eq}
use backend_sandbox_service.Errors.{Result, ok, err, network_error}
use backend_sandbox_service.Users.{Role, UserState, Uag, get_or_create_user}
use backend_sandbox_service.Users.Roles.{all_known, cache_known, get_or_create_user-known}

-- One token is known to the service.
abbrev answer : String → Result (List Role)
answer token =
    if str_eq token "t1"
    then ok (
        record { role_type = "ADMIN"; name_of_microservice = "sandbox" }
        ∷ record { role_type = "OTHER"; name_of_microservice = "training" }
        ∷ [])
    else err network_error

abbrev uag : Uag
uag = record {
  groups = "ADMIN" ∷ "ORGANIZER" ∷ [];
  microservice_name = "sandbox";
  sha1 = λ _. 7;
  roles = answer;
}

-- The cache has an entry of another token with the same hash.
abbrev state : UserState
state = record {
  user_groups = [];
  cache =
      record { username = "u|i"; hashed_token = 7; groups = "ORGANIZER" ∷ []; bearer_token = "t0" }
      ∷ [];
}

get_or_create_user-known_example :
    (all_known ("ADMIN" ∷ "ORGANIZER" ∷ []) (get_or_create_user uag "u|i" "t1" state).1.user_groups
      ≡ true)
    × (cache_known ("ADMIN" ∷ "ORGANIZER" ∷ []) (get_or_create_user uag "u|i" "t1" state).1.cache
        ≡ true)
unfolding get_or_create_user
get_or_create_user-known_example = get_or_create_user-known uag "u|i" "t1" state refl refl
