-- ===== src/Outputs/Polling.antt =====
-- A reader that asks again from the row that it was given misses no line and sees none twice.
use backend_sandbox_service.Prelude.{ℕ, ◌≤◌, ◌<◌, List, [], ◌∷◌, ltb, filter, All}
use backend_sandbox_service.Outputs.{Output}

abbrev pub UpTo : ℕ → List Output → Type 0
UpTo n outputs = All (λ o. o.id ≤ n) outputs

abbrev pub Beyond : ℕ → List Output → Type 0
Beyond n outputs = All (λ o. n < o.id) outputs

-- The rows rise from a number on.
abbrev Rising : ℕ → List Output → Type 0
Rising n [] = Unit
Rising n (x ∷ outputs) = (n ≤ x.id) × Rising x.id outputs

abbrev newer : ℕ → List Output → List Output
newer n outputs = filter (λ o. ltb n o.id) outputs
