-- ===== src/SshConfig/Jumps.antt =====
-- Every jump of a configuration leads to an entry that stands before it.
use backend_sandbox_service.Prelude.{
  ℕ, ◌≡◌, refl, sym, subst, true, false, Option, none, some, List, [], ◌∷◌, ◌++◌, append-nil,
  append_assoc, String, str, str_eq, str_append, eq_refl, contains, arith, Bool-cases, inl, inr,
  if◌then◌else◌,
}
use backend_sandbox_service.SshConfig.{
  SshHost, option_of, put_option, update_options, with_jump, with_port, names_with, add_host,
}

abbrev pub all_names : List SshHost → List String
all_names [] = []
all_names (host ∷ hosts) = host.names ++ all_names hosts

-- What a jump may be written as, for a host of this name.
pub data Destination (name jump : String) : Type 0 where
  plain : jump ≡ name → Destination name jump
  with_user : (user : String) → jump ≡ str_append user (str_append "@" name) → Destination name jump
  with_user_and_port :
      (user : String) (port : ℕ)
      → jump ≡ str_append user (str_append "@" (str_append name (str_append ":" (str port))))
      → Destination name jump

-- A jump, if there is one, leads to one of the hosts.
abbrev pub Leads : List SshHost → Option String → Type 0
Leads hosts none = Unit
Leads hosts (some jump) =
    (name : String) × (contains name (all_names hosts) ≡ true) × Destination name jump

-- Every jump leads to a host that comes before it, after the earlier ones.
abbrev pub Led : List SshHost → List SshHost → Type 0
Led earlier [] = Unit
Led earlier (host ∷ hosts) =
    Leads earlier (option_of "ProxyJump" host.attributes) × Led (earlier ++ host ∷ []) hosts

pub Led-append :
    (earlier hosts : List SshHost) (host : SshHost)
    → Led earlier hosts
    → Leads (earlier ++ hosts) (option_of "ProxyJump" host.attributes)
    → Led earlier (hosts ++ host ∷ [])
Led-append earlier [] host led leads = (
  subst (λ (xs : List SshHost). Leads xs (option_of "ProxyJump" host.attributes))
      (append-nil earlier) leads,
  tt,
)
Led-append earlier (first ∷ hosts) host led leads = (
  led.0,
  Led-append (earlier ++ first ∷ []) hosts host led.1 (
      subst (λ (xs : List SshHost). Leads xs (option_of "ProxyJump" host.attributes))
        (sym (append_assoc earlier (first ∷ []) hosts)) leads),
)

contains-append_left :
    (name : String) (xs ys : List String)
    → contains name xs ≡ true
    → contains name (xs ++ ys) ≡ true
contains-append_left name [] ys h = ground arith
contains-append_left name (x ∷ xs) ys h = ground (arith, contains-append_left name xs ys)

contains-append_right :
    (name : String) (xs ys : List String)
    → contains name ys ≡ true
    → contains name (xs ++ ys) ≡ true
contains-append_right name [] ys h = h
contains-append_right name (x ∷ xs) ys h = ground (arith, contains-append_right name xs ys)

all_names-append :
    (hosts : List SshHost) (host : SshHost)
    → all_names (hosts ++ host ∷ []) ≡ all_names hosts ++ host.names
all_names-append [] host = append-nil host.names
all_names-append (first ∷ hosts) host =
    rw (all_names-append hosts host) (sym (append_assoc first.names (all_names hosts) host.names))

-- The configuration so far is led, and knows a name.
abbrev pub Knows : String → List SshHost → Type 0
Knows name hosts = contains name (all_names hosts) ≡ true

pub Knows-append :
    (name : String) (hosts : List SshHost) (host : SshHost)
    → Knows name hosts
    → Knows name (hosts ++ host ∷ [])
Knows-append name hosts host h =
    rw (all_names-append hosts host) (contains-append_left name (all_names hosts) host.names h)

Knows-last :
    (name : String) (hosts : List SshHost) (host : SshHost)
    → contains name host.names ≡ true
    → Knows name (hosts ++ host ∷ [])
Knows-last name hosts host h =
    rw (all_names-append hosts host) (contains-append_right name (all_names hosts) host.names h)

-- The options that `add_host` begins with.
abbrev options : String → String → String → List (String × String)
options host_name user key =
    ("HostName", host_name)
    ∷ ("User", user)
    ∷ ("IdentityFile", key)
    ∷ ("UserKnownHostsFile", "/dev/null")
    ∷ ("StrictHostKeyChecking", "no")
    ∷ ("IdentitiesOnly", "yes")
    ∷ []

abbrev pub given : String → Option String
given jump = if str_eq jump "" then none else some jump

pub Leads-given :
    (hosts : List SshHost) (jump : String) → Leads hosts (some jump) → Leads hosts (given jump)
Leads-given hosts jump leads = elim (Bool-cases (str_eq jump "")) [
  | inl blank ↦ rw blank tt
  | inr there ↦ rw there leads
]

option_of-with_jump :
    (host_name user key jump : String) (port : Option ℕ)
    → option_of "ProxyJump" (with_jump (some jump) (with_port port (options host_name user key)))
      ≡ given jump
unfolding with_jump with_port put_option option_of
option_of-with_jump host_name user key jump none = ground arith
option_of-with_jump host_name user key jump (some port) = ground arith

option_of-none :
    (host_name user key : String) (port : Option ℕ)
    → option_of "ProxyJump" (with_port port (options host_name user key)) ≡ none
unfolding with_port put_option option_of
option_of-none host_name user key none = refl
option_of-none host_name user key (some port) = refl

module _ (host_name user key : String) (alias : Option String) (port : Option ℕ) where
  -- A host that is reached through another one of the configuration, or directly.
  pub add_host-Led :
      (jump : Option String) (hosts : List SshHost)
      → Led [] hosts
      → Leads hosts jump
      → Led [] (add_host host_name user key jump alias port [] hosts)
  unfolding add_host update_options with_jump
  add_host-Led none hosts led leads =
      Led-append [] hosts _ led (rw (option_of-none host_name user key port) tt)
  add_host-Led (some jump) hosts led leads =
      Led-append [] hosts _ led
        (rw (option_of-with_jump host_name user key jump port) (Leads-given hosts jump leads))

  pub add_host-Knows :
      (name : String) (jump : Option String) (hosts : List SshHost)
      → Knows name hosts
      → Knows name (add_host host_name user key jump alias port [] hosts)
  unfolding add_host
  add_host-Knows name jump hosts h = Knows-append name hosts _ h

names_with-alias :
    (alias host_name : String)
    → str_eq alias "" ≡ false
    → contains alias (names_with (some alias) host_name) ≡ true
unfolding names_with
names_with-alias alias host_name h = ground (arith, eq_refl alias)

pub add_host-alias :
    (host_name user key alias : String) (jump : Option String) (port : Option ℕ)
    (hosts : List SshHost)
    → str_eq alias "" ≡ false
    → Knows alias (add_host host_name user key jump (some alias) port [] hosts)
unfolding add_host
add_host-alias host_name user key alias jump port hosts h =
    Knows-last alias hosts _ (names_with-alias alias host_name h)

pub add_host-host_name :
    (host_name user key : String) (jump : Option String) (port : Option ℕ) (hosts : List SshHost)
    → Knows host_name (add_host host_name user key jump none port [] hosts)
unfolding add_host names_with
add_host-host_name host_name user key jump port hosts =
    Knows-last host_name hosts _ (ground (arith, eq_refl host_name))
