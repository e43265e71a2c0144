-- ===== src/Examples/TokenRuns.antt =====
-- A token that the provider has accepted, and one that has only its subject.
use backend_sandbox_service.Prelude.{
  ◌≡◌, refl, true, false, none, some, [], ◌∷◌, String, str_eq, if◌then◌else◌,
}
use backend_sandbox_service.Errors.{ok, err, authentication_failed}
use backend_sandbox_service.Tokens.{
  TokenState, Oidc, sub_of, get_userinfo, admin, trainee, has_access_level, get_role_string,
}
use backend_sandbox_service.Tokens.Forged.{get_userinfo-forged}

abbrev payload : String
payload = "{\"iss\":\"https://oidc/\",\"sub\":\"joe\",\"exp\":1}"

abbrev oidc : Oidc
oidc = record {
  payload = λ _. ok payload;
  iss = λ token. if str_eq token "t1" then ok "https://oidc/" else ok "https://elsewhere/";
  providers = record { issuer = "https://oidc"; userinfo_endpoint = some "https://oidc/me" } ∷ [];
  well_known_endpoint = λ _. ok none;
  userinfo = λ _ _. ok (("preferred_username", "joe") ∷ []);
}

-- No provider is allowed, and the endpoint refuses.
abbrev closed : Oidc
closed = record oidc { providers = []; userinfo = λ _ _. err authentication_failed }

abbrev empty : TokenState
empty = record { cache = [] }

subject : sub_of (ok payload) ≡ "joe"
unfolding sub_of
subject = refl

get_userinfo-forged_example :
    get_userinfo closed "t2" (get_userinfo oidc "t1" empty).1
    ≡ (ok (("preferred_username", "joe") ∷ []), (get_userinfo oidc "t1" empty).1)
unfolding get_userinfo
get_userinfo-forged_example =
    get_userinfo-forged oidc "t1" "t2" closed ("preferred_username", "joe") [] empty refl refl refl

-- The role of administrators does not include that of trainees.
admin_is_no_trainee : has_access_level true (ok (get_role_string admin ∷ [])) trainee ≡ ok false
unfolding has_access_level
admin_is_no_trainee = refl
