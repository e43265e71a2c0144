-- ===== src/Examples/LockRuns.antt =====
-- Sandboxes that are asked for and locked.
use backend_sandbox_service.Prelude.{ℕ, true, false, none, some, Option, List, [], ◌∷◌, arith}
use backend_sandbox_service.Models.{Sandbox, SandboxLock, PoolLock}
use backend_sandbox_service.Locks.{get_unlocked_sandbox, is_held_by, is_by}
use backend_sandbox_service.Locks.Holders.{AtMostOne, get_unlocked_sandbox-AtMostOne}

abbrev sandbox : ℕ → Option SandboxLock → Sandbox
sandbox id lock = record { id = id; ready = true; lock = lock }

abbrev training_lock : PoolLock
training_lock = record { training_access_token = some "abc" }

-- The first one by identifier is locked, and one is not ready.
abbrev sandboxes : List Sandbox
sandboxes =
    sandbox 30 none
    ∷ sandbox 10 (some (record { created_by = some 7 }))
    ∷ record { id = 5; ready = false; lock = none }
    ∷ sandbox 20 none
    ∷ []

sandboxes-AtMostOne : AtMostOne sandboxes
unfolding is_held_by is_by
sandboxes-AtMostOne user = ground arith

get_unlocked_sandbox-AtMostOne_example : AtMostOne (get_unlocked_sandbox (some 8) sandboxes).1
get_unlocked_sandbox-AtMostOne_example =
    get_unlocked_sandbox-AtMostOne (some 8) sandboxes sandboxes-AtMostOne
