-- ===== src/Tokens.antt =====
-- Who a bearer token stands for, and what its roles permit: crczp/sandbox_uag/oidc_jwt.py and
-- crczp/sandbox_uag/permissions.py.
pub mod Forged
use Prim.Native.Char.{Char, code}
use Prim.Native.String
use backend_sandbox_service.Prelude.{
  ℕ, zero, suc, Bool, true, false, not, Option, none, some, List, [], ◌∷◌, String, str_eq,
  str_append, contains, ◌==◌, if◌then◌else◌, is_some,
}
use backend_sandbox_service.Definitions.{begins_with}
use backend_sandbox_service.Errors.{
  authentication_failed, key_error, Result, ok, err, Exec, lift, gets, modify, when, pure, ◌>>=◌,
  ◌>>◌,
}

-- The claims that the provider's endpoint gives for a user.
abbrev pub Userinfo : Type 0
Userinfo = List (String × String)

-- An entry of ALLOWED_OIDC_PROVIDERS.
pub record Provider : Type 0 where
  pub issuer : String
  pub userinfo_endpoint : Option String

pub record TokenState : Type 0 where
  pub cache : List (String × Userinfo)

abbrev pub TokenAction : Type 0 → Type 0
TokenAction A = Exec TokenState A

-- The text of a token's payload and its `iss`, empty where it has none, as the libraries decode them
-- without a check of the signature; the well-known configuration of a provider; and what the endpoint gives for a token.
pub record Oidc : Type 0 where
  pub payload : (token : String) → Result String
  pub iss : (token : String) → Result String
  pub providers : List Provider
  pub well_known_endpoint : Provider → Result (Option String)
  pub userinfo : (endpoint token : String) → Result Userinfo

unfoldable pub is_text : Option String → Bool
is_text none = false
is_text (some text) = not (str_eq text "")

-- `allowed_issuers[issuer]`: of two entries with one issuer the later.
unfoldable pub find_provider : String → List Provider → Option Provider
find_provider issuer [] = none
find_provider issuer (provider ∷ providers) =
    let rest = find_provider issuer providers in
    elim rest [
      | some later ↦ some later
      | none ↦ if str_eq provider.issuer issuer then some provider else none
    ]

-- The endpoint of the provider, or else that of its well-known configuration, which is read anyway.
unfoldable pub endpoint_of : Option String → Option String → Result String
unfolding is_text
endpoint_of none none = err key_error
endpoint_of none (some endpoint) = ok endpoint
endpoint_of (some own) none = if str_eq own "" then err key_error else ok own
endpoint_of (some own) (some endpoint) = if str_eq own "" then ok endpoint else ok own

-- The text behind the first occurrence of a part.
unfoldable pub drop_chars : ℕ → String → String
drop_chars zero s = s
drop_chars (suc n) String.[] = String.[]
drop_chars (suc n) (String.◌∷◌ c s) = drop_chars n s

unfoldable pub after_part : String → ℕ → String → Option String
unfolding begins_with drop_chars
after_part part n String.[] = none
after_part part n (String.◌∷◌ c s) =
    let rest = after_part part n s in
    if begins_with part (String.◌∷◌ c s) then some (drop_chars n (String.◌∷◌ c s)) else rest

unfoldable pub has_quote : String → Bool
has_quote String.[] = false
has_quote (String.◌∷◌ c s) = if code c == 34 then true else has_quote s

unfoldable pub before_quote : String → String
before_quote String.[] = String.[]
before_quote (String.◌∷◌ c s) =
    let rest = before_quote s in if code c == 34 then String.[] else String.◌∷◌ c rest

unfoldable pub drop_last : String → String
drop_last String.[] = String.[]
drop_last (String.◌∷◌ c String.[]) = String.[]
drop_last (String.◌∷◌ c (String.◌∷◌ d s)) = String.◌∷◌ c (drop_last (String.◌∷◌ d s))

-- `trim[: trim.find('"')]`: without a quote the position is -1, which cuts the last character.
unfoldable pub up_to_quote : String → String
unfolding has_quote before_quote drop_last
up_to_quote text = if has_quote text then before_quote text else drop_last text

-- The `sub` of a payload, by a search of its text; empty where there is none.
unfoldable pub sub_of : Result String → String
unfolding after_part up_to_quote
sub_of (err _) = ""
sub_of (ok payload) = elim (after_part "\"sub\":\"" 7 payload) [
  | none ↦ ""
  | some text ↦ up_to_quote text
]

-- `CACHE.get(OIDC_SUB_PREFIX + sub)`, for the entries with this prefix; no claims count as none.
unfoldable pub cached_userinfo : String → List (String × Userinfo) → Userinfo
cached_userinfo sub [] = []
cached_userinfo sub ((other, userinfo) ∷ cache) =
    let rest = cached_userinfo sub cache in if str_eq other sub then userinfo else rest

-- `text.rstrip('/')`
unfoldable pub rstrip_slashes : String → String
rstrip_slashes String.[] = String.[]
rstrip_slashes (String.◌∷◌ c s) =
    let rest = rstrip_slashes s in
    if str_eq rest ""
    then (if code c == b'/' then String.[] else String.◌∷◌ c rest)
    else String.◌∷◌ c rest

-- `extract_issuer`
unfoldable pub extract_issuer : Result String → Result String
unfolding rstrip_slashes
extract_issuer (ok iss) = ok (rstrip_slashes iss)
extract_issuer (err e) = err e

module _ (oidc : Oidc) where
  -- `_get_userinfo`
  unfoldable pub ask_provider : String → Result Userinfo
  unfolding find_provider endpoint_of extract_issuer
  ask_provider token = elim (extract_issuer (oidc.iss token)) [
    | err e ↦ err e
    | ok issuer ↦ elim (find_provider issuer oidc.providers) [
      | none ↦ err authentication_failed
      | some provider ↦ elim (oidc.well_known_endpoint provider) [
        | err e ↦ err e
        | ok well_known ↦ elim (endpoint_of provider.userinfo_endpoint well_known) [
          | err e ↦ err e
          | ok endpoint ↦ oidc.userinfo endpoint token
        ]
      ]
    ]
  ]

  unfoldable pub set_cache : String → Userinfo → TokenState → TokenState
  set_cache sub userinfo s =
      if str_eq sub "" then s else record s { cache = (sub, userinfo) ∷ s.cache }

  unfoldable pub or_ask : String → Userinfo → TokenAction Userinfo
  unfolding ask_provider set_cache sub_of
  or_ask token (claim ∷ claims) s = (ok (claim ∷ claims), s)
  or_ask token [] s = elim (ask_provider token) [
    | err e ↦ (err e, s)
    | ok userinfo ↦ (ok userinfo, set_cache (sub_of (oidc.payload token)) userinfo s)
  ]

  unfoldable pub cached_for : String → List (String × Userinfo) → Userinfo
  unfolding cached_userinfo
  cached_for sub cache = if str_eq sub "" then [] else cached_userinfo sub cache

  -- `get_userinfo`
  unfoldable pub get_userinfo : String → TokenAction Userinfo
  unfolding or_ask cached_for sub_of
  get_userinfo token s = or_ask token (cached_for (sub_of (oidc.payload token)) s.cache) s

pub data AccessLevel : Type 0 where
  trainee designer organizer admin : AccessLevel

-- `level.name` and `get_role_string`
unfoldable pub level_name : AccessLevel → String
level_name trainee = "TRAINEE"
level_name designer = "DESIGNER"
level_name organizer = "ORGANIZER"
level_name admin = "ADMIN"

unfoldable pub get_role_string : AccessLevel → String
unfolding level_name
get_role_string level = str_append "ROLE_SANDBOX-SERVICE_" (level_name level)

-- `has_access_level`, of the setting and the roles that the user-and-group service gives.
unfoldable pub has_access_level : Bool → Result (List String) → AccessLevel → Result Bool
unfolding get_role_string
has_access_level false roles level = ok true
has_access_level true (err e) level = err e
has_access_level true (ok roles) level = ok (contains (get_role_string level) roles)
