-- ===== src/Errors.antt =====
-- The exceptions that the modelled code raises or lets pass (crczp/sandbox_common_lib/exceptions.py
-- and those of Django, the cloud library and the standard library), and stateful code that may
-- raise: what was written before a raise stays written, so the state comes back beside the error.
use backend_sandbox_service.Prelude.{
  ◌≡◌, refl, ◌⊎◌, inl, inr, Bool, true, false, Option, none, some,
}

-- An exception stands for itself and for its text `str(exc)`.
pub data Exc : Type 0 where
  -- this project's own
  docker_error validation_error limit_exceeded network_error git_error stack_error : Exc
  ansible_error interrupt_error improperly_configured email_exception api_exception : Exc
  -- the cloud library's
  crczp_exception stack_creation_failed invalid_topology : Exc
  -- Django's and the REST framework's
  protected_error does_not_exist integrity_error value_error : Exc
  http404 permission_denied rest_validation_error authentication_failed : Exc
  -- the NetBird client's, and the container, process and list operations'
  docker_not_found process_lookup_error index_error key_error attribute_error assertion_error : Exc
  netbird_api_error netbird_config_error kube_api_error config_exception other_error : Exc

-- What a function that returns `None` returns.
abbrev pub Done : Type 0
Done = Unit

pub data Result (A : Type 0) : Type 0 where
  ok : A → Result A
  err : Exc → Result A

abbrev pub is_ok : {A : Type 0} → Result A → Bool
is_ok (ok _) = true
is_ok (err _) = false

pub Result-cases : {A : Type 0} (r : Result A) → ((a : A) × (r ≡ ok a)) ⊎ ((e : Exc) × (r ≡ err e))
Result-cases (ok a) = inl (a, refl)
Result-cases (err e) = inr (e, refl)

abbrev pub Exec : Type 0 → Type 0 → Type 0
Exec S A = S → Result A × S

module _ {S A : Type 0} where
  abbrev pub pure : A → Exec S A
  pure a s = (ok a, s)

  abbrev pub raise : Exc → Exec S A
  raise e s = (err e, s)

  abbrev pub lift : Result A → Exec S A
  lift r s = (r, s)

  abbrev pub gets : (S → A) → Exec S A
  gets f s = (ok (f s), s)

  -- A related object that is read: `RelatedObjectDoesNotExist` where there is none.
  abbrev pub require : (S → Option A) → Exec S A
  require f s = elim (f s) [ none ↦ (err does_not_exist, s) | some a ↦ (ok a, s) ]

infixl 5 ◌>>=◌ ◌>>◌
abbrev pub ◌>>=◌ : {S A B : Type 0} → Exec S A → (A → Exec S B) → Exec S B
◌>>=◌ m f s = let (r, s') = m s in elim r [ ok a ↦ f a s' | err e ↦ (err e, s') ]

abbrev pub ◌>>◌ : {S A B : Type 0} → Exec S A → Exec S B → Exec S B
m >> k = m >>= λ _. k

module _ {S : Type 0} where
  abbrev pub modify : (S → S) → Exec S Done
  modify f s = (ok tt, f s)

  abbrev pub raise_if : Bool → Exc → Exec S Done
  raise_if b e s = (elim b [ true ↦ err e | false ↦ ok tt ], s)

  abbrev pub when : Bool → Exec S Done → Exec S Done
  when b m s = elim b [ true ↦ m s | false ↦ (ok tt, s) ]

-- `except`: the handler runs on the exceptions that it names, in the state that the raise left.
module _ {S A : Type 0} where
  abbrev pub catch : (Exc → Bool) → Exec S A → (Exc → Exec S A) → Exec S A
  catch named m h s =
      let (r, s') = m s in
      elim r [ ok a ↦ (ok a, s') | err e ↦ elim (named e) [ true ↦ h e s' | false ↦ (err e, s') ] ]

  -- `finally`: an exception of the last part takes the place of what went before.
  abbrev pub finally : Exec S A → Exec S Done → Exec S A
  finally m k s =
      let (r, s') = m s in let (q, t) = k s' in elim q [ ok _ ↦ (r, t) | err e ↦ (err e, t) ]

-- `except CrczpException`: the cloud library's exceptions descend from it.
abbrev pub is_crczp : Exc → Bool
is_crczp crczp_exception = true
is_crczp stack_creation_failed = true
is_crczp invalid_topology = true
is_crczp _ = false

-- `except ApiException`: the base class of this project's exceptions.
abbrev pub is_api : Exc → Bool
is_api docker_error = true
is_api validation_error = true
is_api limit_exceeded = true
is_api network_error = true
is_api git_error = true
is_api stack_error = true
is_api ansible_error = true
is_api interrupt_error = true
is_api improperly_configured = true
is_api email_exception = true
is_api api_exception = true
is_api _ = false

abbrev pub is_process_lookup : Exc → Bool
is_process_lookup process_lookup_error = true
is_process_lookup _ = false

abbrev pub is_docker_not_found : Exc → Bool
is_docker_not_found docker_not_found = true
is_docker_not_found _ = false

abbrev pub is_netbird_api : Exc → Bool
is_netbird_api netbird_api_error = true
is_netbird_api _ = false

abbrev pub is_netbird_config : Exc → Bool
is_netbird_config netbird_config_error = true
is_netbird_config _ = false

-- `except kubernetes.client.ApiException` and `except config.ConfigException`
abbrev pub is_kube_api : Exc → Bool
is_kube_api kube_api_error = true
is_kube_api _ = false

abbrev pub is_config : Exc → Bool
is_config config_exception = true
is_config _ = false

abbrev pub is_git : Exc → Bool
is_git git_error = true
is_git _ = false
