-- ===== src/Locks.antt =====
-- Locks of sandboxes: `get_unlocked_sandbox` of crczp/sandbox_instance_app/lib/pools.py, `lock_sandbox`
-- of lib/sandboxes.py, and `SandboxGetAndLockView.get` of views.py.
pub mod Choice
pub mod Holders
use backend_sandbox_service.Prelude.{
  ℕ, Bool, true, false, not, Option, none, some, List, [], ◌∷◌, String, str_eq, count, filter,
  is_some, leb, ◌==◌, ◌&&◌, if◌then◌else◌,
}
use backend_sandbox_service.Errors.{
  Exc, validation_error, does_not_exist, crczp_exception, Result, ok, err, Exec, gets, raise_if,
  modify, pure, ◌>>=◌, ◌>>◌,
}
use backend_sandbox_service.Models.{Sandbox, SandboxLock, PoolLock}

-- `order_by('id')`
unfoldable pub insert : Sandbox → List Sandbox → List Sandbox
insert x [] = x ∷ []
insert x (y ∷ ys) = let rest = insert x ys in if leb x.id y.id then x ∷ y ∷ ys else y ∷ rest

unfoldable pub order_by_id : List Sandbox → List Sandbox
unfolding insert
order_by_id [] = []
order_by_id (x ∷ xs) = insert x (order_by_id xs)

-- The query set of the pool's sandboxes that are ready.
unfoldable pub ready_sandboxes : List Sandbox → List Sandbox
unfolding order_by_id
ready_sandboxes sandboxes = order_by_id (filter (λ sb. sb.ready) sandboxes)

unfoldable pub is_by : ℕ → SandboxLock → Bool
is_by user lock = elim lock.created_by [ none ↦ false | some u ↦ u == user ]

-- `lock__created_by=user`
unfoldable pub is_held_by : ℕ → Sandbox → Bool
unfolding is_by
is_held_by user sb = elim sb.lock [ none ↦ false | some lock ↦ is_by user lock ]

-- `_has_locked_sandbox`
unfoldable pub has_locked_sandbox : List Sandbox → Option ℕ → Bool
has_locked_sandbox sb_queryset none = false
has_locked_sandbox sb_queryset (some user) = not (count (is_held_by user) sb_queryset == 0)

unfoldable pub first_unlocked : List Sandbox → Option Sandbox
first_unlocked [] = none
first_unlocked (sb ∷ sbs) =
    let rest = first_unlocked sbs in if is_some sb.lock then rest else some sb

-- `SandboxLock.objects.create(sandbox=..., created_by=...)`, on the row with the sandbox's key.
unfoldable pub create_lock : ℕ → SandboxLock → List Sandbox → List Sandbox
create_lock id lock [] = []
create_lock id lock (sb ∷ sbs) =
    let rest = create_lock id lock sbs in
    if sb.id == id then record sb { lock = some lock } ∷ sbs else sb ∷ rest

-- The sandboxes of the pool, in the order of the database.
abbrev pub PoolSandboxes : Type 0
PoolSandboxes = List Sandbox

unfoldable pub lock_first : Option ℕ → Option Sandbox → Exec PoolSandboxes (Option Sandbox)
unfolding create_lock
lock_first created_by none s = (ok none, s)
lock_first created_by (some sb) s =
    (ok (some sb), create_lock sb.id (record { created_by = created_by }) s)

unfoldable pub get_unlocked_sandbox : Option ℕ → Exec PoolSandboxes (Option Sandbox)
unfolding has_locked_sandbox lock_first
get_unlocked_sandbox created_by = do
  sb_queryset ← gets ready_sandboxes
  raise_if (has_locked_sandbox sb_queryset created_by) crczp_exception
  lock_first created_by (first_unlocked sb_queryset)

unfoldable pub get_row : ℕ → List Sandbox → Option Sandbox
get_row id [] = none
get_row id (sb ∷ sbs) = let rest = get_row id sbs in if sb.id == id then some sb else rest

unfoldable pub lock_row : Option ℕ → Option Sandbox → Exec PoolSandboxes SandboxLock
unfolding create_lock
lock_row created_by none s = (err does_not_exist, s)
lock_row created_by (some sb) s = elim (is_some sb.lock) [
  | true ↦ (err validation_error, s)
  | false ↦
      let lock : SandboxLock = record { created_by = created_by } in
      (ok lock, create_lock sb.id lock s)
]

unfoldable pub lock_sandbox : ℕ → Option ℕ → Exec PoolSandboxes SandboxLock
unfolding lock_row get_row
lock_sandbox id created_by s = lock_row created_by (get_row id s) s

-- The responses of the view, by status.
pub data Response : Type 0 where
  forbidden bad_request conflict : Response
  sandbox_response : Sandbox → Response

unfoldable pub response_of : Option Sandbox → Response
response_of none = conflict
response_of (some sb) = sandbox_response sb

unfoldable pub get_sandbox_and_lock : Option ℕ → Exec PoolSandboxes Response
unfolding response_of
get_sandbox_and_lock created_by = do
  sandbox ← get_unlocked_sandbox created_by
  pure (response_of sandbox)

-- The token of the lock against that of the request: none is set, it differs, or it is the same.
unfoldable pub checked_token : Option String → String → Option ℕ → Exec PoolSandboxes Response
unfolding get_sandbox_and_lock
checked_token none token created_by s = (ok forbidden, s)
checked_token (some expected) token created_by s = elim (str_eq expected token) [
  | false ↦ (ok forbidden, s)
  | true ↦ get_sandbox_and_lock created_by s
]

-- `SandboxGetAndLockView.get`
unfoldable pub get_and_lock : Option PoolLock → String → Option ℕ → Exec PoolSandboxes Response
unfolding checked_token
get_and_lock none token created_by s = (ok bad_request, s)
get_and_lock (some lock) token created_by s =
    checked_token lock.training_access_token token created_by s
