-- ===== src/Prelude/Decimal.antt =====
-- A number can be read from its decimal text.
use Prim.Native.Nat.{ℕ, zero, suc, ◌+◌, ◌-◌, ◌*◌, ◌/◌, ◌%◌, ◌<◌}
use Prim.Native.Char.{Char, code}
use Prim.Native.String.{String, ◌++◌}
use Prim.Native.String.append
use mathlib.Core.Path.{◌≡◌, refl, ap, sym, ◌∙◌}
use mathlib.Core.Logic.{inl, inr}
use native.Mathlib.Omega.{arith}
use package.backend_sandbox_service.Prelude.Tests.{ltb, Bool-cases}
use package.backend_sandbox_service.Prelude.Numerals.{digit, digits, str}

-- The value of the digits of a text, after those of a number.
value_from : ℕ → String → ℕ
value_from n String.[] = n
value_from n (String.◌∷◌ c text) = value_from (n * 10 + (code c - 48)) text

digit-char : (d : ℕ) → d < 10 → (c : Char) × (digit d ≡ String.◌∷◌ c String.[]) × (code c ≡ 48 + d)
unfolding digit
digit-char zero h = ("0", refl, refl)
digit-char (suc zero) h = ("1", refl, refl)
digit-char (suc (suc zero)) h = ("2", refl, refl)
digit-char (suc (suc (suc zero))) h = ("3", refl, refl)
digit-char (suc (suc (suc (suc zero)))) h = ("4", refl, refl)
digit-char (suc (suc (suc (suc (suc zero))))) h = ("5", refl, refl)
digit-char (suc (suc (suc (suc (suc (suc zero)))))) h = ("6", refl, refl)
digit-char (suc (suc (suc (suc (suc (suc (suc zero))))))) h = ("7", refl, refl)
digit-char (suc (suc (suc (suc (suc (suc (suc (suc zero)))))))) h = ("8", refl, refl)
digit-char (suc (suc (suc (suc (suc (suc (suc (suc (suc zero))))))))) h = ("9", refl, refl)
digit-char (suc (suc (suc (suc (suc (suc (suc (suc (suc (suc n)))))))))) h = absurd (omega arith)

value_from-digit :
    (n d : ℕ) (text : String)
    → d < 10
    → value_from n (digit d ++ text) ≡ value_from (n * 10 + d) text
unfolding value_from
value_from-digit n d text h =
    let (c, e, coded) = digit-char d h in
    ap (λ s. value_from n (s ++ text)) e
    ∙ ap (value_from n) (append.cons c String.[] text ∙ ap (String.◌∷◌ c) (append.nil text))
    ∙ ap (λ k. value_from k text) (omega (arith, coded))

value_from-digits :
    (rounds n : ℕ) (text : String)
    → n < rounds
    → value_from 0 (digits rounds n text) ≡ value_from n text
unfolding digits
value_from-digits zero n text h = absurd (omega arith)
value_from-digits (suc rounds) n text h = elim (Bool-cases (ltb n 10)) [
  | inl small ↦
      rw small
        (value_from-digit 0 n text (ground arith) ∙ ap (λ k. value_from k text) (omega arith))
  | inr large ↦ rw large (
      value_from-digits rounds (n / 10) (digit (n % 10) ++ text) (ground arith)
      ∙ value_from-digit (n / 10) (n % 10) text (omega arith)
      ∙ ap (λ k. value_from k text) (omega arith))
]

value_from-str : (n : ℕ) → value_from 0 (str n) ≡ n
unfolding str value_from
value_from-str n = value_from-digits (suc n) n "" (omega arith)

-- Numbers of the same text are the same.
pub eq_of_str-eq : (m n : ℕ) → str m ≡ str n → m ≡ n
eq_of_str-eq m n h = sym (value_from-str m) ∙ ap (value_from 0) h ∙ value_from-str n
