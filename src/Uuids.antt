-- ===== src/Uuids.antt =====
-- The identifiers of new sandboxes: `generate_new_sandbox_uuid` of
-- crczp/sandbox_instance_app/lib/sandboxes.py. The n-th text that `uuid.uuid4` gives is `uuid4 n`,
-- by its number; the rounds of the loop are counted, and `none` stands for a loop that goes on.
use backend_sandbox_service.Prelude.{
  ℕ, zero, suc, ◌==◌, Bool, true, false, Option, none, some, List, [], ◌∷◌, any,
}
use backend_sandbox_service.Models.{Sandbox}
pub mod Fresh

-- `Sandbox.objects.filter(pk=new_uuid).count()`, read as a truth value.
unfoldable pub is_taken : ℕ → List Sandbox → Bool
is_taken uuid sandboxes = any (λ sandbox. sandbox.id == uuid) sandboxes

unfoldable pub generate_new_sandbox_uuid : ℕ → (ℕ → ℕ) → ℕ → List Sandbox → Option ℕ
unfolding is_taken
generate_new_sandbox_uuid zero uuid4 n sandboxes = none
generate_new_sandbox_uuid (suc rounds) uuid4 n sandboxes = elim (is_taken (uuid4 n) sandboxes) [
  | true ↦ generate_new_sandbox_uuid rounds uuid4 (suc n) sandboxes
  | false ↦ some (uuid4 n)
]
