-- ===== src/RunnerFiles/Once.antt =====
-- The hosts of containers, each once.
use backend_sandbox_service.Prelude.{
  ◌≡◌, refl, true, not, List, [], ◌∷◌, ◌++◌, String, str_eq, eq_iff, contains, filter, ◌||◌, arith,
  if◌then◌else◌,
}
use backend_sandbox_service.Definitions.{ContainerMapping}

-- The texts without one of them.
abbrev pub without : String → List String → List String
without x [] = []
without x (y ∷ ys) = let rest = without x ys in if str_eq y x then rest else y ∷ rest

-- Every text once, where it comes first.
abbrev pub once : List String → List String
once [] = []
once (x ∷ xs) = x ∷ without x (once xs)

abbrev pub hosts_of : List ContainerMapping → List String
hosts_of [] = []
hosts_of (mapping ∷ mappings) = mapping.host ∷ hosts_of mappings

-- The texts that are not yet among some.
abbrev pub fresh_of : List String → List String → List String
fresh_of seen xs = filter (λ x. not (contains x seen)) xs

contains-append :
    (x y : String) (seen : List String)
    → contains x (seen ++ y ∷ []) ≡ (contains x seen || str_eq y x)
contains-append x y [] = ground arith
contains-append x y (z ∷ seen) = ground (arith, contains-append x y seen)

pub fresh_of-seen :
    (seen : List String) (x : String) (xs : List String)
    → contains x seen ≡ true
    → fresh_of seen (without x xs) ≡ fresh_of seen xs
fresh_of-seen seen x [] h = refl
fresh_of-seen seen x (y ∷ ys) h = ground (arith, fresh_of-seen seen x ys h, eq_iff y x)

pub fresh_of-append :
    (seen : List String) (x : String) (xs : List String)
    → fresh_of seen (without x xs) ≡ fresh_of (seen ++ x ∷ []) xs
fresh_of-append seen x [] = refl
fresh_of-append seen x (y ∷ ys) =
    ground (arith, fresh_of-append seen x ys, contains-append y x seen, eq_iff y x, eq_iff x y)

pub fresh_of-nil : (xs : List String) → fresh_of [] xs ≡ xs
fresh_of-nil [] = refl
fresh_of-nil (x ∷ xs) = ground (arith, fresh_of-nil xs)
