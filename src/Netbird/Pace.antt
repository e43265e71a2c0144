-- ===== src/Netbird/Pace.antt =====
-- Rules on how many calls an action makes without a look at the clock.
use backend_sandbox_service.Prelude.{
  ℕ, suc, ◌≤◌, ◌≡◌, refl, Bool, true, Option, none, some, List, [], ◌∷◌, ◌++◌, String, arith,
}
use backend_sandbox_service.Prelude.Int.{ℤ}
use backend_sandbox_service.Errors.{
  Done, Exc, Result, ok, err, pure, lift, catch, is_netbird_api, ◌>>=◌, ◌>>◌,
}
use backend_sandbox_service.Netbird.{
  Service, Teardown, TeardownState, Step, checked, called, NetbirdCall, send, attempt, expired,
  unless_expired, if_set, guarded,
}

-- The calls since the clock was last read, after `run` such calls and then the steps.
abbrev pub run_after : ℕ → List Step → ℕ
run_after run [] = run
run_after run (checked ∷ steps) = run_after 0 steps
run_after run (called _ ∷ steps) = run_after (suc run) steps

-- After `run` calls, the steps never make it more than two calls without a reading of the clock.
abbrev pub IsPaced : ℕ → List Step → Type 0
IsPaced run [] = run ≤ 2
IsPaced run (checked ∷ steps) = IsPaced 0 steps × (run ≤ 2)
IsPaced run (called _ ∷ steps) = IsPaced (suc run) steps

pub run_after-append :
    (run : ℕ) (xs ys : List Step) → run_after run (xs ++ ys) ≡ run_after (run_after run xs) ys
run_after-append run [] ys = refl
run_after-append run (checked ∷ xs) ys = run_after-append 0 xs ys
run_after-append run (called _ ∷ xs) ys = run_after-append (suc run) xs ys

pub IsPaced-called :
    (run : ℕ) (xs : List Step) (call : NetbirdCall)
    → IsPaced run xs
    → suc (run_after run xs) ≤ 2
    → IsPaced run (xs ++ called call ∷ [])
IsPaced-called run [] call h le = le
IsPaced-called run (checked ∷ xs) call h le = (IsPaced-called 0 xs call h.0 le, h.1)
IsPaced-called run (called _ ∷ xs) call h le = IsPaced-called (suc run) xs call h le

pub IsPaced-checked : (run : ℕ) (xs : List Step) → IsPaced run xs → IsPaced run (xs ++ checked ∷ [])
IsPaced-checked run [] h = (omega arith, h)
IsPaced-checked run (checked ∷ xs) h = (IsPaced-checked 0 xs h.0, h.1)
IsPaced-checked run (called _ ∷ xs) h = IsPaced-checked (suc run) xs h

-- Paced from the start on, and with at most `n` calls since the last reading.
abbrev pub AtRun : ℕ → TeardownState → Type 0
AtRun n s = IsPaced 0 s.steps × (run_after 0 s.steps ≤ n)

-- The action takes states of at most `n` calls to states of at most `k`.
unfoldable pub Paces : {A : Type 0} → ℕ → ℕ → Teardown A → Type 0
Paces n k m = (s : TeardownState) → AtRun n s → AtRun k (m s).1

pub after-Paces :
    {A B : Type 0} (k l : ℕ) (f : A → Teardown B)
    → k ≤ l
    → ((a : A) → Paces k l (f a))
    → (r : Result A) (t : TeardownState) → AtRun k t
    → AtRun l ((lift r >>= f) t).1
unfolding Paces
after-Paces k l f le hf (ok a) t h = hf a t h
after-Paces k l f le hf (err e) t h = (h.0, omega (arith, h.1, le))

pub bind-Paces :
    {A B : Type 0} (n k l : ℕ) (m : Teardown A) (f : A → Teardown B)
    → k ≤ l
    → Paces n k m
    → ((a : A) → Paces k l (f a))
    → Paces n l (m >>= f)
unfolding Paces
bind-Paces n k l m f le hm hf s h = after-Paces k l f le hf (m s).0 (m s).1 (hm s h)

pub pure-Paces : {A : Type 0} (n : ℕ) (a : A) → Paces n n (pure a)
unfolding Paces
pure-Paces n a s h = h

pub lift-Paces : {A : Type 0} (n : ℕ) (r : Result A) → Paces n n (lift r)
unfolding Paces
lift-Paces n r s h = h

pub weaken-Paces :
    {A : Type 0} (n n' k k' : ℕ) (m : Teardown A) → n' ≤ n → k ≤ k' → Paces n k m → Paces n' k' m
unfolding Paces
weaken-Paces n n' k k' m le le' hm s h =
    let (paced, run) = hm s (h.0, omega (arith, h.1, le)) in (paced, omega (arith, run, le'))

-- An exception that is handled by an end without calls.
pub caught-Paces :
    {A : Type 0} (n k : ℕ) (named : Exc → Bool) (m : Teardown A) (a : A)
    → Paces n k m
    → Paces n k (catch named m (λ _. pure a))
unfolding Paces
caught-Paces n k named m a hm s h = ground (arith, hm s h)

module _ (service : Service) where
  pub send-Paces : (n : ℕ) (call : NetbirdCall) → suc n ≤ 2 → Paces n (suc n) (send service call)
  unfolding Paces send
  send-Paces n call le s h = (
    IsPaced-called 0 s.steps call h.0 (omega (arith, h.1, le)),
    omega (arith, h.1, run_after-append 0 s.steps (called call ∷ [])),
  )

  pub attempt-Paces :
      (n : ℕ) (call : NetbirdCall) → suc n ≤ 2 → Paces n (suc n) (attempt service call)
  unfolding attempt
  attempt-Paces n call le =
      caught-Paces n (suc n) is_netbird_api (send service call >> pure tt) tt (
        bind-Paces n (suc n) (suc n) (send service call) (λ _. pure tt) (omega arith)
          (send-Paces n call le) (λ _. pure-Paces (suc n) tt))

  pub if_set-Paces :
      (n k : ℕ) (id : Option String) (f : String → Teardown Done)
      → n ≤ k
      → ((i : String) → Paces n k (f i))
      → Paces n k (if_set id f)
  unfolding Paces if_set
  if_set-Paces n k none f le h s hs = (hs.0, omega (arith, hs.1, le))
  if_set-Paces n k (some i) f le h s hs = ground (arith, h i s hs)

  pub attempt_set-Paces :
      (n : ℕ) (id : Option String) (call : String → NetbirdCall)
      → suc n ≤ 2
      → Paces n (suc n) (if_set id (λ i. attempt service (call i)))
  attempt_set-Paces n id call le =
      if_set-Paces n (suc n) id (λ i. attempt service (call i)) (omega arith)
        (λ i. attempt-Paces n (call i) le)

  -- A reading of the clock starts anew.
  pub unless_expired-Paces :
      (deadline : ℤ) (k : ℕ) (m : Teardown Done)
      → Paces 0 k m
      → Paces 2 k (unless_expired service (some deadline) m)
  unfolding Paces unless_expired expired
  unless_expired-Paces deadline k m hm s h =
      let here : AtRun 0 (record s { steps = s.steps ++ checked ∷ [] }) =
        (IsPaced-checked 0 s.steps h.0, omega (arith, run_after-append 0 s.steps (checked ∷ []))) in
      ground (arith, here, hm (record s { steps = s.steps ++ checked ∷ [] }) here)

  pub guarded-Paces : (n k : ℕ) (m : Teardown Done) → Paces n k m → Paces n k (guarded m)
  unfolding guarded
  guarded-Paces n k m hm = caught-Paces n k (λ _. true) m tt hm
