-- ===== src/Decimal.antt =====
-- The functions of Go's `strconv` that the operator calls: `Itoa`, `ParseInt` in base 10, `Atoi`.
pub mod Digits
pub mod RoundTrip
pub mod Plain
use Prim.Native.Char.{Char, code}
use Prim.Native.String.{[], ◌∷◌}
use mathlib.Core.Logic.{dite}
use mathlib.Core.WellFounded.{Acc, WellFounded}
use native.Mathlib.Decide.{dec_lt}
use kom_operator.Prelude.{
  ℕ, zero, suc, ◌+◌, ◌-◌, ◌*◌, ◌/◌, ◌%◌, ◌^◌, ◌<◌, String, Bool, true, false, ◌||◌, Option, none,
  some, ◌≡◌, refl, ℤ, pos, negsuc, arith, eqb, ltb, if◌then◌else◌,
}

acc_below : (k n : ℕ) → n < k → Acc ◌<◌ n
acc_below zero n h = absurd (omega arith)
acc_below (suc k) n h = Acc.intro n λ m lt. acc_below k m (omega arith)

pub lt_wf : WellFounded ◌<◌
unfolding acc_below
lt_wf = record { apply = λ n. acc_below (suc n) n (omega arith) }

pub tenth_lt : {n : ℕ} → 0 < n → n / 10 < n
tenth_lt h = omega arith

pub digit : ℕ → Char
digit zero = "0"
digit (suc zero) = "1"
digit (suc (suc zero)) = "2"
digit (suc (suc (suc zero))) = "3"
digit (suc (suc (suc (suc zero)))) = "4"
digit (suc (suc (suc (suc (suc zero))))) = "5"
digit (suc (suc (suc (suc (suc (suc zero)))))) = "6"
digit (suc (suc (suc (suc (suc (suc (suc zero))))))) = "7"
digit (suc (suc (suc (suc (suc (suc (suc (suc zero)))))))) = "8"
digit _ = "9"

emit : (n : ℕ) → Acc ◌<◌ n → String → String
unfolding digit
emit n (Acc.intro _ smaller) out =
    dite (dec_lt 0 n) (λ h. emit (n / 10) (smaller (n / 10) (tenth_lt h)) (digit (n % 10) ∷ out))
      (λ _. out)

unfoldable pub digits : ℕ → String → String
unfolding emit lt_wf dec_lt
digits n = emit n (lt_wf.apply n)

unfoldable pub format : ℕ → String
format zero = "0"
format (suc n) = digits (suc n) []

-- `strconv.Itoa`
unfoldable pub itoa : ℤ → String
unfolding format
itoa (pos n) = format n
itoa (negsuc n) = "-" ∷ format (suc n)

-- The number that a run of digits spells behind `n`; anything else is a syntax error.
pub scan : String → ℕ → Option ℕ
scan [] n = some n
scan (c ∷ s) n =
    let d = code c in if ltb d b'0' || ltb b'9' d then none else scan s (n * 10 + (d - b'0'))

scan_digits : String → Option ℕ
unfolding scan
scan_digits [] = none
scan_digits (c ∷ s) = scan (c ∷ s) 0

-- `bound` is 2 to the power `bitSize - 1`.
positive_in : ℕ → Option ℕ → Option ℤ
positive_in bound none = none
positive_in bound (some n) = if ltb n bound then some (pos n) else none

negate : ℕ → ℤ
negate zero = pos 0
negate (suc n) = negsuc n

negative_in : ℕ → Option ℕ → Option ℤ
unfolding negate
negative_in bound none = none
negative_in bound (some n) = if ltb bound n then none else some (negate n)

-- `strconv.ParseInt(s, 10, bitSize)`: `none` is its error, a syntax or a range error.
unfoldable pub parse_int : String → ℕ → Option ℤ
unfolding scan_digits positive_in negative_in
parse_int [] size = none
parse_int (c ∷ s) size =
    if eqb (code c) b'+'
    then positive_in (2 ^ (size - 1)) (scan_digits s)
    else if eqb (code c) b'-'
    then negative_in (2 ^ (size - 1)) (scan_digits s)
    else positive_in (2 ^ (size - 1)) (scan_digits (c ∷ s))

-- `strconv.Atoi`, where an `int` has 64 bits
unfoldable pub atoi : String → Option ℤ
unfolding parse_int
atoi s = parse_int s 64

itoa_port : itoa (pos 8091) ≡ "8091"
unfolding itoa digits
itoa_port = refl

itoa_negative : itoa (negsuc 79) ≡ "-80"
unfolding itoa digits
itoa_negative = refl

parse_out_of_range : parse_int "2147483648" 32 ≡ none
unfolding parse_int
parse_out_of_range = refl

parse_lowest : parse_int "-2147483648" 32 ≡ some (negsuc 2147483647)
unfolding parse_int
parse_lowest = refl

parse_percent : parse_int "75%" 32 ≡ none
unfolding parse_int
parse_percent = refl
