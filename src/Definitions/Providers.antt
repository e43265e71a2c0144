-- ===== src/Definitions/Providers.antt =====
-- Where definitions come from: crczp/sandbox_common_lib/git_config.py and the providers of
-- crczp/sandbox_definition_app/lib/definition_providers.py, over the libraries for GitLab and GitHub.
use Prim.Native.Char.{code}
use backend_sandbox_service.Prelude.{
  ℕ, zero, suc, Bool, true, false, Option, none, some, List, [], ◌∷◌, ◌++◌, String, str_eq,
  str_append, ◌==◌, ◌&&◌, ◌||◌, if◌then◌else◌,
}
use backend_sandbox_service.Errors.{value_error, git_error, Result, ok, err}

pub data GitType : Type 0 where
  gitlab github : GitType

pub data TopologyCacheMode : Type 0 where
  aggressive fresh_import fresh : TopologyCacheMode

-- A branch or a tag.
pub record Ref : Type 0 where
  pub name : String
  pub commit_id : String

-- What the server of a repository answers; none where the library raises.
pub record GitServer : Type 0 where
  pub has_repo : Bool
  pub branches : Option (List Ref)
  pub tags : Option (List Ref)
  pub commit : (rev : String) → Option String
  pub contents : (path rev : String) → Option String

unfoldable pub begins_with : String → String → Bool
begins_with String.[] s = true
begins_with (String.◌∷◌ c p) String.[] = false
begins_with (String.◌∷◌ c p) (String.◌∷◌ d s) = code c == code d && begins_with p s

-- `part in text`
unfoldable pub has_part : String → String → Bool
unfolding begins_with
has_part part String.[] = begins_with part String.[]
has_part part (String.◌∷◌ c s) = begins_with part (String.◌∷◌ c s) || has_part part s

unfoldable pub get_git_type : String → GitType
unfolding has_part
get_git_type rest_server = if has_part "github." rest_server then github else gitlab

-- `ref.commit['id']` of the first reference with the name.
unfoldable pub find_ref : String → List Ref → Option String
find_ref rev [] = none
find_ref rev (ref ∷ refs) =
    let rest = find_ref rev refs in if str_eq ref.name rev then some ref.commit_id else rest

unfoldable pub or_git_error : {A : Type 0} → Option A → Result A
or_git_error none = err git_error
or_git_error (some a) = ok a

-- `get_refs`
unfoldable pub get_refs : GitServer → Result (List Ref)
get_refs server = elim server.branches [
  | none ↦ err git_error
  | some branches ↦ elim server.tags [ none ↦ err git_error | some tags ↦ ok (branches ++ tags) ]
]

unfoldable pub ref_or_commit : GitServer → String → Option String → Result String
unfolding or_git_error
ref_or_commit server rev (some sha) = ok sha
ref_or_commit server rev none = or_git_error (server.commit rev)

-- `get_rev_sha` of the two providers
unfoldable pub gitlab_rev_sha : GitServer → String → Result String
unfolding get_refs find_ref ref_or_commit
gitlab_rev_sha server rev = elim (get_refs server) [
  | err e ↦ err e
  | ok refs ↦ ref_or_commit server rev (find_ref rev refs)
]

unfoldable pub github_rev_sha : TopologyCacheMode → GitServer → String → Result String
unfolding or_git_error
github_rev_sha fresh server rev = or_git_error (server.commit rev)
github_rev_sha aggressive server rev = ok rev
github_rev_sha fresh_import server rev = ok rev

unfoldable pub get_rev_sha : GitType → TopologyCacheMode → GitServer → String → Result String
unfolding gitlab_rev_sha github_rev_sha
get_rev_sha gitlab mode server rev = gitlab_rev_sha server rev
get_rev_sha github mode server rev = github_rev_sha mode server rev

-- `get_file`
unfoldable pub get_file : GitServer → String → String → Result String
unfolding or_git_error
get_file server path rev = or_git_error (server.contents path rev)

-- `text.replace('https://', '')`
unfoldable pub remove_https : ℕ → String → String
remove_https skip String.[] = String.[]
remove_https zero (String.◌∷◌ c s) = elim (begins_with "https://" (String.◌∷◌ c s)) [
  | true ↦ remove_https 7 s
  | false ↦ String.◌∷◌ c (remove_https 0 s)
]
remove_https (suc skip) (String.◌∷◌ c s) = remove_https skip s

-- The text before the first slash, a ValueError where there is none.
unfoldable pub before_slash : String → Result String
before_slash String.[] = err value_error
before_slash (String.◌∷◌ c s) =
    let rest = before_slash s in
    if code c == b'/'
    then ok String.[]
    else elim rest [ ok part ↦ ok (String.◌∷◌ c part) | err e ↦ err e ]

unfoldable pub get_rest_server : String → Result String
unfolding remove_https before_slash begins_with
get_rest_server url = elim (before_slash (remove_https 0 url)) [
  | ok server ↦ ok (str_append "https://" (str_append server "/"))
  | err e ↦ err e
]

unfoldable pub ends_with : String → String → Bool
ends_with part String.[] = str_eq part ""
ends_with part (String.◌∷◌ c s) = str_eq part (String.◌∷◌ c s) || ends_with part s

-- `validate_https`
unfoldable pub validate_https : String → Result Unit
unfolding begins_with ends_with
validate_https url =
    if begins_with "https://" url && ends_with ".git" url then ok tt else err git_error

-- `get_def_provider`: the constructors of the two providers.
unfoldable pub make_provider : GitType → GitServer → String → Result Unit
unfolding validate_https
make_provider gitlab server url = validate_https url
make_provider github server url = if server.has_repo then ok tt else err git_error

unfoldable pub get_def_provider : GitServer → String → Result GitType
unfolding get_git_type get_rest_server make_provider
get_def_provider server url = elim (get_rest_server url) [
  | err e ↦ err e
  | ok _ ↦ elim (make_provider (get_git_type url) server url) [
    | err e ↦ err e
    | ok _ ↦ ok (get_git_type url)
  ]
]
