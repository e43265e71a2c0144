-- ===== src/Examples/UuidRuns.antt =====
-- A new sandbox where the first two identifiers are taken.
use backend_sandbox_service.Prelude.{
  ℕ, suc, ◌≡◌, refl, true, false, some, none, List, [], ◌∷◌, length,
}
use backend_sandbox_service.Models.{Sandbox}
use backend_sandbox_service.Uuids.{is_taken, generate_new_sandbox_uuid}
use backend_sandbox_service.Uuids.Fresh.{generate_new_sandbox_uuid-free}

abbrev uuid4 : ℕ → ℕ
uuid4 n = n

abbrev sandbox : ℕ → Sandbox
sandbox id = record { id = id; ready = true; lock = none }

abbrev sandboxes : List Sandbox
sandboxes = sandbox 1 ∷ sandbox 0 ∷ sandbox 5 ∷ []

run : generate_new_sandbox_uuid 4 uuid4 0 sandboxes ≡ some 2
unfolding generate_new_sandbox_uuid is_taken
run = refl

generate_new_sandbox_uuid-free_example :
    (uuid : ℕ) × (generate_new_sandbox_uuid (suc (length sandboxes)) uuid4 0 sandboxes ≡ some uuid)
    × (is_taken uuid sandboxes ≡ false)
generate_new_sandbox_uuid-free_example = generate_new_sandbox_uuid-free uuid4 (λ m n e. e) sandboxes
