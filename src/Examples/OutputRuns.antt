-- ===== src/Examples/OutputRuns.antt =====
-- Two lines of output, and a third that comes later.
use backend_sandbox_service.Prelude.{◌≡◌, refl, [], ◌∷◌, List}
use backend_sandbox_service.Outputs.{Output, create_outputs_response}

abbrev early : List Output
early = record { id = 8; content = "two" } ∷ record { id = 5; content = " one" } ∷ []

abbrev late : List Output
late = record { id = 9; content = "three" } ∷ []

first : create_outputs_response early 0 ≡ record { content = "one\ntwo"; rows = 8 }
unfolding create_outputs_response
first = refl
