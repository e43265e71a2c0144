-- ===== src/Prelude/Numerals.antt =====
-- The decimal text of a number, as `str` gives it.
use Prim.Native.Nat.{ℕ, zero, suc, ◌/◌, ◌%◌}
use Prim.Native.String.{String, ◌++◌}
use package.backend_sandbox_service.Prelude.Tests.{◌==◌, ltb, if◌then◌else◌}

unfoldable pub digit : ℕ → String
digit d =
    if d == 0
    then "0"
    else if d == 1
    then "1"
    else if d == 2
    then "2"
    else if d == 3
    then "3"
    else if d == 4
    then "4"
    else if d == 5
    then "5"
    else if d == 6
    then "6"
    else if d == 7
    then "7"
    else if d == 8
    then "8"
    else "9"

-- The rounds stop at the first digit; more than a number's value are not needed.
unfoldable pub digits : ℕ → ℕ → String → String
unfolding digit
digits zero n text = text
digits (suc rounds) n text =
    let rest = digits rounds (n / 10) (digit (n % 10) ++ text) in
    if ltb n 10 then digit n ++ text else rest

unfoldable pub str : ℕ → String
unfolding digits
str n = digits (suc n) n ""
