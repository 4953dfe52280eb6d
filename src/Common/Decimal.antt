-- ===== src/Common/Decimal.antt =====
-- The text of a number, as JavaScript's string concatenation writes a non-negative integer.
use Prim.Native.Nat.{ℕ, zero, suc, ◌+◌, ◌-◌, ◌*◌, ◌/◌, ◌%◌, ◌<◌}
use Prim.Native.Char.{Char, code}
use Prim.Native.String.{String}
use mathlib.Core.Path.{◌≡◌, refl, sym, ap, ◌∙◌}
use native.Mathlib.Omega.{arith}
use strong_soap.Common.Tests.{nat_eq, if◌then◌else◌, Bool-cases}
use mathlib.Core.Logic.{inl, inr}

-- The digit's character.
abbrev digit : ℕ → Char
digit zero = "0"
digit (suc zero) = "1"
digit (suc (suc zero)) = "2"
digit (suc (suc (suc zero))) = "3"
digit (suc (suc (suc (suc zero)))) = "4"
digit (suc (suc (suc (suc (suc zero))))) = "5"
digit (suc (suc (suc (suc (suc (suc zero)))))) = "6"
digit (suc (suc (suc (suc (suc (suc (suc zero))))))) = "7"
digit (suc (suc (suc (suc (suc (suc (suc (suc zero)))))))) = "8"
digit _ = "9"

-- The digits of `n` in front of `out`, the last one first; the fuel bounds their number.
emit : ℕ → ℕ → String → String
emit zero n out = out
emit (suc f) n out =
    let longer = String.◌∷◌ (digit (n % 10)) out in
    let rest = emit f (n / 10) longer in if nat_eq (n / 10) 0 then longer else rest

unfoldable pub decimal : ℕ → String
unfolding emit
decimal n = emit (suc n) n ""

-- The number that digits spell behind `n`.
abbrev value : ℕ → String → ℕ
value n String.[] = n
value n (String.◌∷◌ c s) = value (n * 10 + (code c - 48)) s

code-digit : (d : ℕ) → d < 10 → code (digit d) ≡ 48 + d
code-digit zero h = refl
code-digit (suc zero) h = refl
code-digit (suc (suc zero)) h = refl
code-digit (suc (suc (suc zero))) h = refl
code-digit (suc (suc (suc (suc zero)))) h = refl
code-digit (suc (suc (suc (suc (suc zero))))) h = refl
code-digit (suc (suc (suc (suc (suc (suc zero)))))) h = refl
code-digit (suc (suc (suc (suc (suc (suc (suc zero))))))) h = refl
code-digit (suc (suc (suc (suc (suc (suc (suc (suc zero)))))))) h = refl
code-digit (suc (suc (suc (suc (suc (suc (suc (suc (suc zero))))))))) h = refl
code-digit (suc (suc (suc (suc (suc (suc (suc (suc (suc (suc d)))))))))) h = absurd (omega arith)

value-emit : (f n : ℕ) (out : String) → n < f → value 0 (emit f n out) ≡ value n out
unfolding emit
value-emit zero n out h = absurd (omega arith)
value-emit (suc f) n out h =
    let last : code (digit (n % 10)) ≡ 48 + n % 10 = code-digit (n % 10) (omega arith) in
    elim (Bool-cases (nat_eq (n / 10) 0)) [
      | inl done ↦ rw done (ap (λ m. value m out) (ground (arith, last, done)))
      | inr more ↦ rw more (
          value-emit f (n / 10) (String.◌∷◌ (digit (n % 10)) out) (ground arith)
          ∙ ap (λ m. value m out) (ground (arith, last)))
    ]

value-decimal : (n : ℕ) → value 0 (decimal n) ≡ n
unfolding decimal
value-decimal n = value-emit (suc n) n "" (omega arith)

-- Different numbers have different texts.
pub decimal_inj : (m n : ℕ) → decimal m ≡ decimal n → m ≡ n
decimal_inj m n e = sym (value-decimal m) ∙ ap (value 0) e ∙ value-decimal n

decimal_test : decimal 1205 ≡ "1205"
unfolding decimal
decimal_test = refl
