-- ===== src/Locks/Choice.antt =====
-- Which sandbox `get_unlocked_sandbox` chooses.
use backend_sandbox_service.Prelude.{
  ℕ, ◌≤◌, ◌≡◌, ap, true, false, Option, none, some, List, [], ◌∷◌, All, arith, filter, is_some,
  leb-cases, ◌⊎◌, inl, inr,
}
use backend_sandbox_service.Errors.{ok}
use backend_sandbox_service.Models.{Sandbox}
use backend_sandbox_service.Locks.{
  PoolSandboxes, insert, order_by_id, ready_sandboxes, first_unlocked, get_unlocked_sandbox,
  lock_first,
}

IsSorted : List Sandbox → Type 0
IsSorted [] = Unit
IsSorted (x ∷ xs) = All (λ y. x.id ≤ y.id) xs × IsSorted xs

All-insert :
    (P : Sandbox → Type 0) (x : Sandbox) (ys : List Sandbox) → P x → All P ys → All P (insert x ys)
unfolding insert
All-insert P x [] px h = (px, tt)
All-insert P x (y ∷ ys) px h = ground (arith, All-insert P x ys px h.1)

insert-All :
    (P : Sandbox → Type 0) (x : Sandbox) (ys : List Sandbox) → All P (insert x ys) → P x × All P ys
unfolding insert
insert-All P x [] h = h
insert-All P x (y ∷ ys) h = ground (arith, insert-All P x ys)

All-order_by_id : (P : Sandbox → Type 0) (xs : List Sandbox) → All P xs → All P (order_by_id xs)
unfolding order_by_id
All-order_by_id P [] h = h
All-order_by_id P (x ∷ xs) h = All-insert P x (order_by_id xs) h.0 (All-order_by_id P xs h.1)

order_by_id-All : (P : Sandbox → Type 0) (xs : List Sandbox) → All P (order_by_id xs) → All P xs
unfolding order_by_id
order_by_id-All P [] h = h
order_by_id-All P (x ∷ xs) h =
    let (px, rest) = insert-All P x (order_by_id xs) h in (px, order_by_id-All P xs rest)

All-weaken :
    (P Q : Sandbox → Type 0)
    → ((x : Sandbox) → P x → Q x)
    → (xs : List Sandbox) → All P xs
    → All Q xs
All-weaken P Q f [] h = tt
All-weaken P Q f (x ∷ xs) h = (f x h.0, All-weaken P Q f xs h.1)

insert-IsSorted : (x : Sandbox) (ys : List Sandbox) → IsSorted ys → IsSorted (insert x ys)
unfolding insert IsSorted
insert-IsSorted x [] h = (tt, tt)
insert-IsSorted x (y ∷ ys) h = elim (leb-cases x.id y.id) [
  | inl (e, le) ↦
      ground (
        arith,
        e,
        le,
        All-weaken (λ z. y.id ≤ z.id) (λ z. x.id ≤ z.id) (λ z yz. omega arith) ys h.0,
      )
  | inr (e, le) ↦
      ground (arith, e, All-insert (λ z. y.id ≤ z.id) x ys le h.0, insert-IsSorted x ys h.1)
]

order_by_id-IsSorted : (xs : List Sandbox) → IsSorted (order_by_id xs)
unfolding order_by_id IsSorted
order_by_id-IsSorted [] = tt
order_by_id-IsSorted (x ∷ xs) = insert-IsSorted x (order_by_id xs) (order_by_id-IsSorted xs)

filter-ready :
    (P : Sandbox → Type 0) (xs : List Sandbox)
    → All P (filter (λ sb. sb.ready) xs)
    → All (λ t. (t.ready ≡ false) ⊎ P t) xs
filter-ready P [] h = tt
filter-ready P (x ∷ xs) h = ground (arith, filter-ready P xs)

ready-filter : (xs : List Sandbox) → All (λ t. t.ready ≡ true) (filter (λ sb. sb.ready) xs)
ready-filter [] = tt
ready-filter (x ∷ xs) = ground (arith, ready-filter xs)

first_unlocked-cons :
    (x : Sandbox) (xs : List Sandbox) (sb : Sandbox)
    → first_unlocked (x ∷ xs) ≡ some sb
    → ((is_some x.lock ≡ false) × (sb ≡ x))
      ⊎ ((is_some x.lock ≡ true) × (first_unlocked xs ≡ some sb))
unfolding first_unlocked
first_unlocked-cons x xs sb e = ground arith

first_unlocked-least :
    (xs : List Sandbox) (sb : Sandbox)
    → IsSorted xs
    → first_unlocked xs ≡ some sb
    → All (λ t. (is_some t.lock ≡ true) ⊎ (sb.id ≤ t.id)) xs
unfolding IsSorted
first_unlocked-least [] sb h e = tt
first_unlocked-least (x ∷ xs) sb h e = elim (first_unlocked-cons x xs sb e) [
  | inl (unlocked, same) ↦ (
    inr (omega (arith, ap (λ t. t.id) same)),
    All-weaken (λ t. x.id ≤ t.id) (λ t. (is_some t.lock ≡ true) ⊎ (sb.id ≤ t.id))
        (λ t le. inr (omega (arith, ap (λ t'. t'.id) same, le))) xs h.0,
  )
  | inr (locked, rest) ↦ (inl locked, first_unlocked-least xs sb h.1 rest)
]

first_unlocked-All :
    (P : Sandbox → Type 0) (xs : List Sandbox) (sb : Sandbox)
    → All P xs
    → first_unlocked xs ≡ some sb
    → P sb × (is_some sb.lock ≡ false)
unfolding first_unlocked
first_unlocked-All P [] sb h e = ground arith
first_unlocked-All P (x ∷ xs) sb h e = elim (first_unlocked-cons x xs sb e) [
  | inl (unlocked, same) ↦ rw (same) (h.0, unlocked)
  | inr (locked, rest) ↦ first_unlocked-All P xs sb h.1 rest
]

first_unlocked-none :
    (xs : List Sandbox) → first_unlocked xs ≡ none → All (λ t. is_some t.lock ≡ true) xs
unfolding first_unlocked
first_unlocked-none [] e = tt
first_unlocked-none (x ∷ xs) e = ground (arith, first_unlocked-none xs)

ready_sandboxes-All :
    (P : Sandbox → Type 0) (sandboxes : List Sandbox)
    → All P (ready_sandboxes sandboxes)
    → All (λ t. (t.ready ≡ false) ⊎ P t) sandboxes
unfolding ready_sandboxes
ready_sandboxes-All P sandboxes h =
    filter-ready P sandboxes (order_by_id-All P (filter (λ sb. sb.ready) sandboxes) h)

chosen :
    (created_by : Option ℕ) (sandboxes : PoolSandboxes) (sb : Sandbox)
    → (get_unlocked_sandbox created_by sandboxes).0 ≡ ok (some sb)
    → first_unlocked (ready_sandboxes sandboxes) ≡ some sb
unfolding get_unlocked_sandbox lock_first
chosen created_by sandboxes sb e = ground arith

ready_sandboxes-ready :
    (sandboxes : List Sandbox) → All (λ t. t.ready ≡ true) (ready_sandboxes sandboxes)
unfolding ready_sandboxes
ready_sandboxes-ready sandboxes =
    All-order_by_id (λ t. t.ready ≡ true) (filter (λ sb. sb.ready) sandboxes)
      (ready-filter sandboxes)

ready_sandboxes-IsSorted : (sandboxes : List Sandbox) → IsSorted (ready_sandboxes sandboxes)
unfolding ready_sandboxes
ready_sandboxes-IsSorted sandboxes = order_by_id-IsSorted (filter (λ sb. sb.ready) sandboxes)

chosen-none :
    (created_by : Option ℕ) (sandboxes : PoolSandboxes)
    → (get_unlocked_sandbox created_by sandboxes).0 ≡ ok none
    → (first_unlocked (ready_sandboxes sandboxes) ≡ none)
      × ((get_unlocked_sandbox created_by sandboxes).1 ≡ sandboxes)
unfolding get_unlocked_sandbox lock_first
chosen-none created_by sandboxes e = ground arith

-- The sandbox that is returned is ready and was not locked, and no ready and unlocked sandbox of the
-- pool has a smaller identifier.
pub get_unlocked_sandbox-least :
    (created_by : Option ℕ) (sandboxes : PoolSandboxes) (sb : Sandbox)
    → (get_unlocked_sandbox created_by sandboxes).0 ≡ ok (some sb)
    → (sb.ready ≡ true)
      × (is_some sb.lock ≡ false)
      × All (λ t. (t.ready ≡ false) ⊎ (is_some t.lock ≡ true) ⊎ (sb.id ≤ t.id)) sandboxes
get_unlocked_sandbox-least created_by sandboxes sb e =
    let e' = chosen created_by sandboxes sb e in
    let (ready, unlocked) =
      first_unlocked-All (λ t. t.ready ≡ true) (ready_sandboxes sandboxes) sb
        (ready_sandboxes-ready sandboxes) e' in
    (
      ready,
      unlocked,
      ready_sandboxes-All (λ t. (is_some t.lock ≡ true) ⊎ (sb.id ≤ t.id)) sandboxes
          (first_unlocked-least (ready_sandboxes sandboxes) sb (ready_sandboxes-IsSorted sandboxes)
            e'),
    )

-- Where no sandbox is returned, every ready sandbox of the pool is locked, and nothing has changed.
get_unlocked_sandbox-none :
    (created_by : Option ℕ) (sandboxes : PoolSandboxes)
    → (get_unlocked_sandbox created_by sandboxes).0 ≡ ok none
    → All (λ t. (t.ready ≡ false) ⊎ (is_some t.lock ≡ true)) sandboxes
      × ((get_unlocked_sandbox created_by sandboxes).1 ≡ sandboxes)
get_unlocked_sandbox-none created_by sandboxes e =
    let (no_sandbox, same) = chosen-none created_by sandboxes e in
    (
      ready_sandboxes-All (λ t. is_some t.lock ≡ true) sandboxes
          (first_unlocked-none (ready_sandboxes sandboxes) no_sandbox),
      same,
    )
