-- ===== src/Provision/Limits.antt =====
-- The length of the identifiers of networks.
use backend_sandbox_service.Prelude.{ℕ, zero, suc, ◌≤◌, ◌≡◌, refl, arith, String, ◌⊎◌, inl, inr}
use backend_sandbox_service.Provision.{prefix, raw_network_id, make_network_id}

abbrev pub chars : String → ℕ
chars String.[] = 0
chars (String.◌∷◌ c s) = suc (chars s)

prefix-chars :
    (n : ℕ) (s : String) → (chars (prefix n s) ≤ n) × ((prefix n s ≡ s) ⊎ (chars (prefix n s) ≡ n))
unfolding prefix
prefix-chars zero s = (omega arith, inr refl)
prefix-chars (suc n) String.[] = (omega arith, inl refl)
prefix-chars (suc n) (String.◌∷◌ c s) = ground (arith, prefix-chars n s)

-- The identifier of a network has at most the 40 characters that NetBird accepts, and is cut only
-- to just as many: otherwise it is the name of the stack, the first 8 characters of the host's and
-- the address without its separators, joined by dashes.
make_network_id-chars :
    (stack_name host_name cidr : String)
    → (chars (make_network_id stack_name host_name cidr) ≤ 40)
      × ((make_network_id stack_name host_name cidr ≡ raw_network_id stack_name host_name cidr)
          ⊎ (chars (make_network_id stack_name host_name cidr) ≡ 40))
unfolding make_network_id
make_network_id-chars stack_name host_name cidr =
    prefix-chars 40 (raw_network_id stack_name host_name cidr)
