-- ===== src/Decimal/Digits.antt =====
-- The digits that `Itoa` prints.
use mathlib.Core.Logic.{ite, dite, if_pos, if_neg}
use mathlib.Core.WellFounded
use mathlib.Core.WellFounded.{Acc, Acc-prop}
use native.Mathlib.Decide.{dec_lt}
use Prim.Native.Char.{Char, code}
use Prim.Native.String.{[], ◌∷◌}
use kom_operator.Prelude.{ap, ℕ, zero, suc, ◌≤◌, ◌+◌, ◌/◌, ◌%◌, ◌<◌, String, some, ◌≡◌, refl, arith}
use kom_operator.Decimal.{lt_wf, tenth_lt, digit, emit, digits, scan, format}

pub code-digit : (n : ℕ) → n < 10 → code (digit n) ≡ b'0' + n
unfolding digit
code-digit zero h = refl
code-digit (suc zero) h = refl
code-digit (suc (suc zero)) h = refl
code-digit (suc (suc (suc zero))) h = refl
code-digit (suc (suc (suc (suc zero)))) h = refl
code-digit (suc (suc (suc (suc (suc zero))))) h = refl
code-digit (suc (suc (suc (suc (suc (suc zero)))))) h = refl
code-digit (suc (suc (suc (suc (suc (suc (suc zero))))))) h = refl
code-digit (suc (suc (suc (suc (suc (suc (suc (suc zero)))))))) h = refl
code-digit (suc (suc (suc (suc (suc (suc (suc (suc (suc zero))))))))) h = refl
code-digit (suc (suc (suc (suc (suc (suc (suc (suc (suc (suc n)))))))))) h = absurd (omega arith)

emit_step :
    (n : ℕ) (here : Acc ◌<◌ n) (there : Acc ◌<◌ (n / 10)) (out : String)
    → emit n here out ≡ ite (dec_lt 0 n) (emit (n / 10) there (digit (n % 10) ∷ out)) out
unfolding emit
emit_step n (Acc.intro _ below) there out =
    ap
      (λ (tail : 0 < n → Acc ◌<◌ (n / 10)).
        dite (dec_lt 0 n) (λ lt. emit (n / 10) (tail lt) (digit (n % 10) ∷ out)) (λ _. out))
      (λ t lt. Acc-prop (below (n / 10) (tenth_lt lt)) there t)

-- `digits` makes a round as long as `n` is positive.
pub digits_step :
    (n : ℕ) (out : String)
    → digits n out ≡ ite (dec_lt 0 n) (digits (n / 10) (digit (n % 10) ∷ out)) out
unfolding digits
digits_step n = emit_step n (lt_wf.apply n) (lt_wf.apply (n / 10))

scan_last : (n : ℕ) (out : String) → scan (digit (n % 10) ∷ out) (n / 10) ≡ scan out n
unfolding scan
scan_last n out = ground (arith, code-digit (n % 10))

scan-digits : (n : ℕ) (out : String) → scan (digits n out) 0 ≡ scan out n
scan-digits n =
    WellFounded.induction lt_wf {C = λ m. (out : String) → scan (digits m out) 0 ≡ scan out m} n
      λ m ih out. grind (arith, digits_step m out, scan_last m out, ih (m / 10))

pub scan-format : (n : ℕ) → scan (format n) 0 ≡ some n
unfolding scan format
scan-format zero = refl
scan-format (suc n) = scan-digits (suc n) []

-- A print begins with a digit.
pub record StartsWithDigit (s : String) : Type 0 where
  pub first : Char
  pub rest : String
  pub shape : s ≡ first ∷ rest
  pub from_zero : b'0' ≤ code first
  pub to_nine : code first ≤ b'9'

starts_digit : (n : ℕ) (out : String) → StartsWithDigit (digit (n % 10) ∷ out)
starts_digit n out = record {
  first = digit (n % 10);
  rest = out;
  shape = refl;
  from_zero = omega (arith, code-digit (n % 10) (omega arith));
  to_nine = omega (arith, code-digit (n % 10) (omega arith));
}

digits-StartsWithDigit :
    (n : ℕ) (out : String) → StartsWithDigit out → StartsWithDigit (digits n out)
digits-StartsWithDigit n =
    WellFounded.induction lt_wf
      {C = λ m. (out : String) → StartsWithDigit out → StartsWithDigit (digits m out)} n
      λ m ih out h. elim (dec_lt 0 m) [
        | yes p ↦
            rw (digits_step m out, if_pos _ p) (ih (m / 10) (tenth_lt p) _ (starts_digit m out))
        | no p ↦ rw (digits_step m out, if_neg _ p) h
      ]

positive_starts : (n : ℕ) → 0 < n → StartsWithDigit (digits n [])
positive_starts n p =
    rw (digits_step n [], if_pos _ p) (digits-StartsWithDigit (n / 10) _ (starts_digit n []))

zero_starts : StartsWithDigit "0"
zero_starts = record {
  first = "0";
  rest = [];
  shape = refl;
  from_zero = omega arith;
  to_nine = omega arith;
}

pub format-StartsWithDigit : (n : ℕ) → StartsWithDigit (format n)
unfolding format
format-StartsWithDigit zero = zero_starts
format-StartsWithDigit (suc n) = positive_starts (suc n) (omega arith)
