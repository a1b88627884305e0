-- ===== src/Decimal/RoundTrip.antt =====
-- `ParseInt` on what `Itoa` prints.
use Prim.Native.Char.{code}
use Prim.Native.String.{◌∷◌}
use text.Mathlib.TextLemmas.{head-eq_of_cons-eq, tail-eq_of_cons-eq}
use kom_operator.Prelude.{
  ℕ, suc, ◌-◌, ◌^◌, ◌<◌, String, some, ◌≡◌, ◌≢◌, refl, sym, ◌∙◌, ap, subst, ℤ, pos, negsuc, arith,
}
use kom_operator.Decimal.{itoa, format, scan, scan_digits, parse_int, positive_in, negative_in}
use kom_operator.Decimal.Digits.{StartsWithDigit, scan-format, format-StartsWithDigit}

scan_digits-scan : (s : String) → StartsWithDigit s → scan_digits s ≡ scan s 0
unfolding scan_digits
scan_digits-scan s h = subst (λ x. scan_digits x ≡ scan x 0) (sym h.shape) refl

scan_digits-format : (n : ℕ) → scan_digits (format n) ≡ some n
scan_digits-format n = scan_digits-scan (format n) (format-StartsWithDigit n) ∙ scan-format n

parse_digits :
    (s : String) (size : ℕ)
    → StartsWithDigit s
    → parse_int s size ≡ positive_in (2 ^ (size - 1)) (scan_digits s)
unfolding parse_int
parse_digits s size h =
    subst (λ x. parse_int x size ≡ positive_in (2 ^ (size - 1)) (scan_digits x)) (sym h.shape)
      (ground arith)

-- The integers of `size` bits.
abbrev pub Fits : ℕ → ℤ → Type 0
Fits size (pos n) = n < 2 ^ (size - 1)
Fits size (negsuc n) = n < 2 ^ (size - 1)

in_range : (n bound : ℕ) → n < bound → positive_in bound (some n) ≡ some (pos n)
unfolding positive_in
in_range n bound h = ground arith

negative_in_range : (n bound : ℕ) → n < bound → negative_in bound (some (suc n)) ≡ some (negsuc n)
unfolding negative_in
negative_in_range n bound h = ground arith

parse_minus :
    (s : String) (size : ℕ)
    → parse_int ("-" ∷ s) size ≡ negative_in (2 ^ (size - 1)) (scan_digits s)
unfolding parse_int
parse_minus s size = refl

-- Every integer of `size` bits is read back from its print.
pub parse_int-itoa : (size : ℕ) (z : ℤ) → Fits size z → parse_int (itoa z) size ≡ some z
unfolding itoa
parse_int-itoa size (pos n) h =
    parse_digits (format n) size (format-StartsWithDigit n)
    ∙ (ap (positive_in (2 ^ (size - 1))) (scan_digits-format n) ∙ in_range n (2 ^ (size - 1)) h)
parse_int-itoa size (negsuc n) h =
    parse_minus (format (suc n)) size
    ∙ (ap (negative_in (2 ^ (size - 1))) (scan_digits-format (suc n))
        ∙ negative_in_range n (2 ^ (size - 1)) h)

no_sign : (n m : ℕ) → format n ≢ "-" ∷ format m
no_sign n m e =
    let h = format-StartsWithDigit n in
    let sign : h.first ≡ "-" = head-eq_of_cons-eq (sym h.shape ∙ e) in
    let same = ap code sign in omega (arith, same, h.from_zero)

format_inj : (n m : ℕ) → format n ≡ format m → n ≡ m
format_inj n m e = cc (scan-format n, scan-format m, e)

-- No two integers print alike.
pub itoa_inj : (a b : ℤ) → itoa a ≡ itoa b → a ≡ b
unfolding itoa
itoa_inj (pos n) (pos m) e = ap pos (format_inj n m e)
itoa_inj (pos n) (negsuc m) e = absurd (no_sign n (suc m) e)
itoa_inj (negsuc n) (pos m) e = absurd (no_sign m (suc n) (sym e))
itoa_inj (negsuc n) (negsuc m) e =
    let same = format_inj (suc n) (suc m) (tail-eq_of_cons-eq e) in ap negsuc (omega (arith, same))
