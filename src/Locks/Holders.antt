-- ===== src/Locks/Holders.antt =====
-- How many ready sandboxes of a pool one user holds, and what the view answers.
use backend_sandbox_service.Prelude.{
  ℕ, suc, ◌≤◌, ◌≡◌, Bool, true, false, Option, none, some, List, [], ◌∷◌, String, count, arith,
  filter, eq_iff, ◌&&◌, Option-cases, ◌⊎◌, inl, inr, refl,
}
use backend_sandbox_service.Errors.{ok, err, is_ok, crczp_exception, validation_error}
use backend_sandbox_service.Models.{Sandbox, SandboxLock, PoolLock}
use backend_sandbox_service.Locks.{
  PoolSandboxes, insert, order_by_id, ready_sandboxes, is_by, is_held_by, first_unlocked,
  get_unlocked_sandbox, has_locked_sandbox, lock_first, create_lock, get_and_lock, checked_token,
  get_sandbox_and_lock, response_of, forbidden, bad_request, lock_sandbox, lock_row, get_row,
}

-- The number of ready sandboxes that the user's locks are on.
abbrev pub held : ℕ → List Sandbox → ℕ
held user sandboxes = count (λ sb. sb.ready && is_held_by user sb) sandboxes

count-insert :
    (p : Sandbox → Bool) (x : Sandbox) (ys : List Sandbox)
    → count p (insert x ys) ≡ count p (x ∷ ys)
unfolding insert
count-insert p x [] = omega arith
count-insert p x (y ∷ ys) = ground (arith, count-insert p x ys)

count-order_by_id : (p : Sandbox → Bool) (xs : List Sandbox) → count p (order_by_id xs) ≡ count p xs
unfolding order_by_id
count-order_by_id p [] = omega arith
count-order_by_id p (x ∷ xs) =
    ground (arith, count-insert p x (order_by_id xs), count-order_by_id p xs)

count-filter :
    (p : Sandbox → Bool) (xs : List Sandbox)
    → count p (filter (λ sb. sb.ready) xs) ≡ count (λ sb. sb.ready && p sb) xs
count-filter p [] = omega arith
count-filter p (x ∷ xs) = ground (arith, count-filter p xs)

count-ready_sandboxes :
    (p : Sandbox → Bool) (xs : List Sandbox)
    → count p (ready_sandboxes xs) ≡ count (λ sb. sb.ready && p sb) xs
unfolding ready_sandboxes
count-ready_sandboxes p xs =
    omega (arith, count-order_by_id p (filter (λ sb. sb.ready) xs), count-filter p xs)

held-create_lock :
    (user id : ℕ) (lock : SandboxLock) (xs : List Sandbox)
    → held user (create_lock id lock xs) ≤ suc (held user xs)
unfolding create_lock is_held_by
held-create_lock user id lock [] = omega arith
held-create_lock user id lock (x ∷ xs) = ground (arith, held-create_lock user id lock xs)

held-create_lock-other :
    (user id : ℕ) (lock : SandboxLock) (xs : List Sandbox)
    → is_by user lock ≡ false
    → held user (create_lock id lock xs) ≤ held user xs
unfolding create_lock is_held_by
held-create_lock-other user id lock [] other = omega arith
held-create_lock-other user id lock (x ∷ xs) other =
    ground (arith, held-create_lock-other user id lock xs other)

abbrev pub AtMostOne : List Sandbox → Type 0
AtMostOne sandboxes = (user : ℕ) → held user sandboxes ≤ 1

-- If no user holds more than one ready sandbox of the pool, then so it is after a user has asked for
-- one, whatever comes of it.
pub get_unlocked_sandbox-AtMostOne :
    (created_by : Option ℕ) (sandboxes : PoolSandboxes)
    → AtMostOne sandboxes
    → AtMostOne (get_unlocked_sandbox created_by sandboxes).1
unfolding get_unlocked_sandbox lock_first has_locked_sandbox is_by
get_unlocked_sandbox-AtMostOne none sandboxes h user =
    elim (Option-cases (first_unlocked (ready_sandboxes sandboxes))) [
      | inl none_left ↦ ground (arith, none_left, h user)
      | inr (sb, found) ↦ ground (
        arith,
        found,
        h user,
        held-create_lock-other user sb.id (record { created_by = none }) sandboxes refl,
      )
    ]
get_unlocked_sandbox-AtMostOne (some u) sandboxes h user =
    elim (Option-cases (first_unlocked (ready_sandboxes sandboxes))) [
      | inl none_left ↦ ground (arith, none_left, h user)
      | inr (sb, found) ↦ ground (
        arith,
        found,
        h user,
        count-ready_sandboxes (is_held_by u) sandboxes,
        held-create_lock user sb.id (record { created_by = some u }) sandboxes,
        held-create_lock-other user sb.id (record { created_by = some u }) sandboxes,
      )
    ]

-- A user who holds a ready sandbox of the pool is refused, and nothing changes.
get_unlocked_sandbox-refused :
    (user : ℕ) (sandboxes : PoolSandboxes)
    → 1 ≤ held user sandboxes
    → get_unlocked_sandbox (some user) sandboxes ≡ (err crczp_exception, sandboxes)
unfolding get_unlocked_sandbox lock_first has_locked_sandbox
get_unlocked_sandbox-refused user sandboxes h =
    ground (arith, count-ready_sandboxes (is_held_by user) sandboxes)

-- Where the pool is not locked with the token of the request, the view answers 400 or 403 and no
-- sandbox changes; where it is, the sandboxes change as `get_unlocked_sandbox` changes them.
get_and_lock_lem :
    (lock : Option PoolLock) (token : String) (created_by : Option ℕ) (sandboxes : PoolSandboxes)
    → ((get_and_lock lock token created_by sandboxes ≡ (ok bad_request, sandboxes))
        ⊎ (get_and_lock lock token created_by sandboxes ≡ (ok forbidden, sandboxes)))
      ⊎ ((lock ≡ some (record { training_access_token = some token }))
          × ((get_and_lock lock token created_by sandboxes).1
              ≡ (get_unlocked_sandbox created_by sandboxes).1))
unfolding get_and_lock checked_token get_sandbox_and_lock response_of
get_and_lock_lem none token created_by sandboxes = inl (inl refl)
get_and_lock_lem (some lock) token created_by sandboxes =
    elim (Option-cases lock.training_access_token) [
      | inl no_token ↦ ground (arith, no_token)
      | inr (expected, there) ↦ ground (arith, there, eq_iff expected token)
    ]

get_row-id : (id : ℕ) (sbs : List Sandbox) (sb : Sandbox) → get_row id sbs ≡ some sb → sb.id ≡ id
unfolding get_row
get_row-id id [] sb e = ground arith
get_row-id id (x ∷ xs) sb e = ground (arith, get_row-id id xs sb)

get_row-create_lock :
    (id : ℕ) (lock : SandboxLock) (sbs : List Sandbox) (sb : Sandbox)
    → get_row id sbs ≡ some sb
    → get_row id (create_lock id lock sbs) ≡ some (record sb { lock = some lock })
unfolding get_row create_lock
get_row-create_lock id lock [] sb e = ground arith
get_row-create_lock id lock (x ∷ xs) sb e = ground (arith, get_row-create_lock id lock xs sb)

-- A sandbox that has been locked by its identifier cannot be locked again.
lock_sandbox-lock_sandbox :
    (id : ℕ) (created_by again_by : Option ℕ) (sandboxes : PoolSandboxes)
    → is_ok (lock_sandbox id created_by sandboxes).0 ≡ true
    → lock_sandbox id again_by (lock_sandbox id created_by sandboxes).1
      ≡ (err validation_error, (lock_sandbox id created_by sandboxes).1)
unfolding lock_sandbox lock_row
lock_sandbox-lock_sandbox id created_by again_by sandboxes e =
    elim (Option-cases (get_row id sandboxes)) [
      | inl missing ↦ ground (arith, missing, e)
      | inr (sb, found) ↦ ground (
        arith,
        found,
        e,
        get_row-id id sandboxes sb found,
        get_row-create_lock id (record { created_by = created_by }) sandboxes sb found,
      )
    ]
