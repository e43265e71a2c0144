-- ===== src/StageHandler/Keeps.antt =====
-- The handlers' bodies work on the rows that point to a stage and leave the stage object alone:
-- one rule for each way to build a body.
use backend_sandbox_service.Prelude.{◌≡◌, refl, ◌∙◌, Bool, true, false, arith}
use backend_sandbox_service.Errors.{
  Done, Exc, Result, ok, err, Exec, pure, raise, lift, ◌>>=◌, when, raise_if, catch, finally,
}
use backend_sandbox_service.Groups.{GroupState}
use backend_sandbox_service.StageHandler.{Call, Handler, Action, call, on_group}

pub record KeepsStage {A : Type 0} (m : Action A) : Type 0 where
  pub at : (s : Handler) → (m s).1.stage ≡ s.stage

module _ {A : Type 0} where
  pub Keeps-pure : (a : A) → KeepsStage (pure a)
  Keeps-pure a = record { at = λ s. refl }

  pub Keeps-raise : (e : Exc) → KeepsStage (raise {A = A} e)
  Keeps-raise e = record { at = λ s. refl }

  pub Keeps-lift : (r : Result A) → KeepsStage (lift r)
  Keeps-lift r = record { at = λ s. refl }

  pub Keeps-call : (c : Call) (r : Result A) → KeepsStage (call c r)
  Keeps-call c r = record { at = λ s. refl }

  catch_step :
      (named : Exc → Bool) (h : Exc → Action A) (r : Result A) (s : Handler)
      → ((e : Exc) → KeepsStage (h e))
      → (catch named (λ _. (r, s)) h s).1.stage ≡ s.stage
  catch_step named h (ok a) s k = refl
  catch_step named h (err e) s k = ground (arith, (k e).at s)

  pub Keeps-catch :
      (named : Exc → Bool) (m : Action A) (h : Exc → Action A)
      → KeepsStage m
      → ((e : Exc) → KeepsStage (h e))
      → KeepsStage (catch named m h)
  Keeps-catch named m h km kh = record { at = λ s. catch_step named h (m s).0 (m s).1 kh ∙ km.at s }

  finally_step :
      (r : Result A) (q : Result Done) (t : Handler)
      → (finally (λ _. (r, t)) (λ _. (q, t)) t).1.stage ≡ t.stage
  finally_step r (ok _) t = refl
  finally_step r (err e) t = refl

  pub Keeps-finally :
      (m : Action A) (k : Action Done) → KeepsStage m → KeepsStage k → KeepsStage (finally m k)
  Keeps-finally m k km kk = record {
    at = λ s. finally_step (m s).0 (k (m s).1).0 (k (m s).1).1 ∙ (kk.at (m s).1 ∙ km.at s);
  }

pub Keeps-when : (b : Bool) (m : Action Done) → KeepsStage m → KeepsStage (when b m)
Keeps-when true m km = record { at = km.at }
Keeps-when false m km = record { at = λ s. refl }

pub Keeps-raise_if : (b : Bool) (e : Exc) → KeepsStage (raise_if b e)
Keeps-raise_if b e = record { at = λ s. refl }

pub Keeps-on_group : (m : Exec GroupState Done) → KeepsStage (on_group m)
Keeps-on_group m = record { at = λ s. refl }

module _ {A B : Type 0} where
  bind_step :
      (f : A → Action B) (r : Result A) (s : Handler)
      → ((a : A) → KeepsStage (f a))
      → (◌>>=◌ (λ _. (r, s)) f s).1.stage ≡ s.stage
  bind_step f (ok a) s k = (k a).at s
  bind_step f (err e) s k = refl

  pub Keeps-bind :
      (m : Action A) (f : A → Action B)
      → KeepsStage m
      → ((a : A) → KeepsStage (f a))
      → KeepsStage (m >>= f)
  Keeps-bind m f km kf = record { at = λ s. bind_step f (m s).0 (m s).1 kf ∙ km.at s }

pub ruleset keeps_rules = (
  Keeps-pure, Keeps-raise, Keeps-lift, Keeps-call, Keeps-catch, Keeps-finally, Keeps-when,
  Keeps-raise_if, Keeps-on_group, Keeps-bind,
)
