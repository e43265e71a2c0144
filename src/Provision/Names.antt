-- ===== src/Provision/Names.antt =====
-- The names of a sandbox's NetBird objects, `_make_network_id` of
-- crczp/sandbox_instance_app/lib/netbird.py and the texts `f'{stack_name}-...'`.
use Prim.Native.Char.{code}
use backend_sandbox_service.Prelude.{ℕ, zero, suc, String, str_append, ◌==◌, ◌||◌, if◌then◌else◌}

-- `text[:n]`
unfoldable pub prefix : ℕ → String → String
prefix zero s = String.[]
prefix (suc n) String.[] = String.[]
prefix (suc n) (String.◌∷◌ c s) = String.◌∷◌ c (prefix n s)

-- `cidr.replace('/', '-').replace('.', '-').replace(':', '-')`
unfoldable pub sanitise : String → String
sanitise String.[] = String.[]
sanitise (String.◌∷◌ c s) =
    let rest = sanitise s in
    if code c == b'/' || (code c == b'.' || code c == b':')
    then str_append "-" rest
    else String.◌∷◌ c rest

unfoldable pub dashed : String → String → String
dashed stack_name text = str_append stack_name (str_append "-" text)

-- `_make_network_id`
unfoldable pub raw_network_id : String → String → String → String
unfolding dashed prefix sanitise
raw_network_id stack_name host_name cidr =
    dashed stack_name (dashed (prefix 8 host_name) (sanitise cidr))

unfoldable pub make_network_id : String → String → String → String
unfolding raw_network_id prefix
make_network_id stack_name host_name cidr = prefix 40 (raw_network_id stack_name host_name cidr)
