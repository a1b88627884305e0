-- ===== src/Decimal/Plain.antt =====
-- The underscores of a printed integer.
use mathlib.Core.Logic.{if_pos, if_neg}
use mathlib.Core.WellFounded
use native.Mathlib.Decide.{dec_lt}
use Prim.Native.String.{[], ◌∷◌}
use kom_operator.Prelude.{ℕ, zero, suc, ◌/◌, ◌%◌, String, ◌≡◌, refl, ℤ, pos, negsuc, arith}
use kom_operator.Text.Underscores.{underscores}
use kom_operator.Decimal.{lt_wf, digit, digits, format, itoa}
use kom_operator.Decimal.Digits.{code-digit, digits_step}

underscores-digit : (n : ℕ) (s : String) → underscores s ≡ 0 → underscores (digit (n % 10) ∷ s) ≡ 0
unfolding underscores
underscores-digit n s h = ground (arith, code-digit (n % 10))

underscores-digits : (n : ℕ) (s : String) → underscores s ≡ 0 → underscores (digits n s) ≡ 0
underscores-digits n =
    WellFounded.induction lt_wf
      {C = λ m. (s : String) → underscores s ≡ 0 → underscores (digits m s) ≡ 0} n
      λ m ih s h. elim (dec_lt 0 m) [
        | yes p ↦
            rw (digits_step m s, if_pos _ p) (ih (m / 10) (omega arith) _ (underscores-digit m s h))
        | no p ↦ rw (digits_step m s, if_neg _ p) h
      ]

underscores-format : (n : ℕ) → underscores (format n) ≡ 0
unfolding format underscores
underscores-format zero = refl
underscores-format (suc n) = underscores-digits (suc n) [] refl

pub underscores-itoa : (z : ℤ) → underscores (itoa z) ≡ 0
unfolding itoa underscores
underscores-itoa (pos n) = underscores-format n
underscores-itoa (negsuc n) = omega (arith, underscores-format (suc n))
