-- ===== src/Uuids/Fresh.antt =====
-- A new identifier is found, in one round more than there are sandboxes at most.
use backend_sandbox_service.Prelude.{
  ℕ, zero, suc, ◌+◌, ◌≤◌, ◌<◌, ◌==◌, ◌≡◌, subst, true, false, none, some, List, [], ◌∷◌, length,
  arith, Bool-cases, Option-cases, inl, inr, if◌then◌else◌,
}
use backend_sandbox_service.Models.{Sandbox}
use backend_sandbox_service.Uuids.{is_taken, generate_new_sandbox_uuid}

-- The sandboxes without the first one of an identifier.
abbrev without : ℕ → List Sandbox → List Sandbox
without uuid [] = []
without uuid (sandbox ∷ sandboxes) =
    let rest = without uuid sandboxes in if sandbox.id == uuid then sandboxes else sandbox ∷ rest

length-without :
    (uuid : ℕ) (sandboxes : List Sandbox)
    → is_taken uuid sandboxes ≡ true
    → length (without uuid sandboxes) + 1 ≡ length sandboxes
unfolding is_taken
length-without uuid [] h = ground arith
length-without uuid (sandbox ∷ sandboxes) h = ground (arith, length-without uuid sandboxes)

is_taken-without :
    (uuid other : ℕ) (sandboxes : List Sandbox)
    → is_taken other sandboxes ≡ true
    → (other == uuid) ≡ false
    → is_taken other (without uuid sandboxes) ≡ true
unfolding is_taken
is_taken-without uuid other [] h ne = ground arith
is_taken-without uuid other (sandbox ∷ sandboxes) h ne =
    ground (arith, is_taken-without uuid other sandboxes)

module _ (uuid4 : ℕ → ℕ) (distinct : (m n : ℕ) → uuid4 m ≡ uuid4 n → m ≡ n) where
  is_taken_at :
      (m n : ℕ) (sandboxes : List Sandbox)
      → m ≡ n
      → is_taken (uuid4 m) sandboxes ≡ true
      → is_taken (uuid4 n) sandboxes ≡ true
  is_taken_at m n sandboxes e h = subst (λ (k : ℕ). is_taken (uuid4 k) sandboxes ≡ true) e h

  differ : (m n : ℕ) → m < n → (uuid4 n == uuid4 m) ≡ false
  differ m n lt = elim (Bool-cases (uuid4 n == uuid4 m)) [
    | inr other ↦ other
    | inl same ↦ absurd (omega (arith, distinct n m (ground arith)))
  ]

  -- Distinct identifiers that are all taken are no more than the sandboxes.
  taken-le-length :
      (k n : ℕ) (sandboxes : List Sandbox)
      → ((j : ℕ) → j < k → is_taken (uuid4 (n + j)) sandboxes ≡ true)
      → k ≤ length sandboxes
  taken-le-length zero n sandboxes taken = omega arith
  taken-le-length (suc k) n sandboxes taken =
      let first = is_taken_at (n + 0) n sandboxes (omega arith) (taken 0 (omega arith)) in
      omega (
        arith,
        length-without (uuid4 n) sandboxes first,
        taken-le-length k (suc n) (without (uuid4 n) sandboxes) (λ j h.
            is_taken-without (uuid4 n) (uuid4 (suc n + j)) sandboxes
              (is_taken_at (n + suc j) (suc n + j) sandboxes (omega arith)
                (taken (suc j) (omega arith)))
              (differ n (suc n + j) (omega arith))),
      )

  -- A loop that goes on has found all its identifiers taken.
  none-taken :
      (rounds n : ℕ) (sandboxes : List Sandbox)
      → generate_new_sandbox_uuid rounds uuid4 n sandboxes ≡ none
      → (j : ℕ) → j < rounds
      → is_taken (uuid4 (n + j)) sandboxes ≡ true
  unfolding generate_new_sandbox_uuid
  none-taken zero n sandboxes h j lt = absurd (omega arith)
  none-taken (suc rounds) n sandboxes h zero lt =
      is_taken_at n (n + 0) sandboxes (omega arith) (ground arith)
  none-taken (suc rounds) n sandboxes h (suc j) lt =
      is_taken_at (suc n + j) (n + suc j) sandboxes (omega arith)
        (none-taken rounds (suc n) sandboxes (ground arith) j (omega arith))

  some-free :
      (rounds n uuid : ℕ) (sandboxes : List Sandbox)
      → generate_new_sandbox_uuid rounds uuid4 n sandboxes ≡ some uuid
      → is_taken uuid sandboxes ≡ false
  unfolding generate_new_sandbox_uuid
  some-free zero n uuid sandboxes h = ground arith
  some-free (suc rounds) n uuid sandboxes h =
      ground (arith, some-free rounds (suc n) uuid sandboxes)

  -- Where no identifier comes twice, the loop ends, within one round more than there are sandboxes,
  -- with an identifier that no sandbox has.
  pub generate_new_sandbox_uuid-free :
      (sandboxes : List Sandbox)
      → (uuid : ℕ) × (generate_new_sandbox_uuid (suc (length sandboxes)) uuid4 0 sandboxes
          ≡ some uuid)
        × (is_taken uuid sandboxes ≡ false)
  generate_new_sandbox_uuid-free sandboxes =
      elim (Option-cases (generate_new_sandbox_uuid (suc (length sandboxes)) uuid4 0 sandboxes)) [
        | inr (uuid, found) ↦
            (uuid, found, some-free (suc (length sandboxes)) 0 uuid sandboxes found)
        | inl on ↦ absurd (
            omega (
              arith,
              taken-le-length (suc (length sandboxes)) 0 sandboxes
                  (none-taken (suc (length sandboxes)) 0 sandboxes on),
            ))
      ]
