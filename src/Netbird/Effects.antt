-- ===== src/Netbird/Effects.antt =====
-- What the parts of a teardown do to the rows of a sandbox.
use backend_sandbox_service.Prelude.{
  ◌≡◌, refl, ap, ◌∙◌, Bool, true, Option, none, some, List, String, arith, is_some,
}
use backend_sandbox_service.Errors.{Done, Result, ok, err, is_ok, lift, ◌>>=◌, ◌>>◌}
use backend_sandbox_service.Netbird.{
  Service, Teardown, TeardownState, NetbirdCall, Reply, unreachable, response, Entrypoint, Access,
  send, request, attempt, if_set,
}

-- No body that is not JSON.
abbrev pub is_readable : Reply → Bool
is_readable unreachable = true
is_readable (response _ peers) = is_some peers

-- The action returns, and changes the rows by the two functions.
unfoldable pub Does :
    {A : Type 0}
    → (List Entrypoint → List Entrypoint)
    → (Option Access → Option Access)
    → Teardown A
    → Type 0
Does f g m =
    (s : TeardownState)
    → (is_ok (m s).0 ≡ true) × ((m s).1.rows ≡ f s.rows) × ((m s).1.access ≡ g s.access)

-- It returns, and the rows stay.
abbrev pub Returns : {A : Type 0} → Teardown A → Type 0
Returns m = Does (λ r. r) (λ a. a) m

pub pure-Does : Returns (λ s. (ok tt, s))
unfolding Does
pure-Does s = (refl, refl, refl)

pub after-Does :
    {A B : Type 0} (f : List Entrypoint → List Entrypoint) (g : Option Access → Option Access)
    (k : A → Teardown B)
    → ((a : A) → Does f g (k a))
    → (r : Result A) (t : TeardownState) → is_ok r ≡ true
    → (is_ok ((lift r >>= k) t).0 ≡ true)
      × (((lift r >>= k) t).1.rows ≡ f t.rows)
      × (((lift r >>= k) t).1.access ≡ g t.access)
unfolding Does
after-Does f g k hk (ok a) t h = hk a t
after-Does f g k hk (err e) t h = absurd (ground arith)

pub then-Does :
    (f f' : List Entrypoint → List Entrypoint) (g g' : Option Access → Option Access)
    (m k : Teardown Done)
    → Does f g m
    → Does f' g' k
    → Does (λ r. f' (f r)) (λ a. g' (g a)) (m >> k)
unfolding Does
then-Does f f' g g' m k hm hk s =
    let (returned, rows, access) = hm s in
    let (fine, rows', access') = after-Does f' g' (λ _. k) (λ _. hk) (m s).0 (m s).1 returned in
    (fine, rows' ∙ ap f' rows, access' ∙ ap g' access)

pub bind-Does :
    {A B : Type 0} (f : List Entrypoint → List Entrypoint) (g : Option Access → Option Access)
    (m : Teardown A) (k : A → Teardown B)
    → Returns m
    → ((a : A) → Does f g (k a))
    → Does f g (m >>= k)
unfolding Does
bind-Does f g m k hm hk s =
    let (returned, rows, access) = hm s in
    let (fine, rows', access') = after-Does f g k hk (m s).0 (m s).1 returned in
    (fine, rows' ∙ ap f rows, access' ∙ ap g access)

module _ (service : Service) where
  pub attempt-Does : (call : NetbirdCall) → Returns (attempt service call)
  unfolding Does attempt send request
  attempt-Does call s = ground arith

  pub if_set-Does :
      (id : Option String) (k : String → Teardown Done)
      → ((i : String) → Returns (k i))
      → Returns (if_set id k)
  unfolding Does if_set
  if_set-Does none k h s = (refl, refl, refl)
  if_set-Does (some i) k h s = ground (arith, h i s)

  pub attempt_set-Does :
      (id : Option String) (call : String → NetbirdCall)
      → Returns (if_set id (λ i. attempt service (call i)))
  attempt_set-Does id call =
      if_set-Does id (λ i. attempt service (call i)) (λ i. attempt-Does (call i))
