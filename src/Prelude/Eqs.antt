-- ===== src/Prelude/Eqs.antt =====
-- Equality as an interface, for Go's `==` on values and `reflect.DeepEqual` on plain data.
use Prim.Native.String.{String}
use mathlib.Core.Path.{◌≡◌, refl}
use mathlib.Core.Logic.{◌↔◌}
use mathlib.Core.Bool.{Bool, true, false, ◌&&◌}
use mathlib.Core.Option.{Option, none, some}
use mathlib.Core.List.{List, [], ◌∷◌}
use native.Mathlib.Omega.{arith}
use text.Mathlib.Text.{◌==◌ as str_eq}
use text.Mathlib.TextEquality.{eq_iff}
use kom_operator.Prelude.Ints.{ℤ, int_eq, int_eq_iff}

infix 50 ◌==◌
-- A test and that it decides equality.
pub record Eq {κ} (V : Type κ) : Type κ where
  pub beq : V → V → Bool
  pub beq_iff : (x y : V) → (beq x y ≡ true) ↔ (x ≡ y)

module _ {κ} {V : Type κ} ⦃decided : Eq V⦄ where
  abbrev pub ◌==◌ : V → V → Bool
  ◌==◌ = decided.beq

instance abbrev pub string_eq : Eq String
string_eq = record { beq = str_eq; beq_iff = eq_iff }

instance abbrev pub int32_eq : Eq ℤ
int32_eq = record { beq = int_eq; beq_iff = int_eq_iff }

module _ {ℓ} {A : Type ℓ} ⦃e : Eq A⦄ where
  abbrev pub option_beq : Option A → Option A → Bool
  option_beq none none = true
  option_beq (some a) (some b) = a == b
  option_beq _ _ = false

  pub option_beq_iff : (a b : Option A) → (option_beq a b ≡ true) ↔ (a ≡ b)
  option_beq_iff none none = ground arith
  option_beq_iff (some a) (some b) = ground (arith, e.beq_iff a b)
  option_beq_iff _ _ = ground arith

  instance abbrev pub option_eq : Eq (Option A)
  option_eq = record { beq = option_beq; beq_iff = option_beq_iff }

  abbrev pub list_beq : List A → List A → Bool
  list_beq [] [] = true
  list_beq (a ∷ as') (b ∷ bs) = a == b && list_beq as' bs
  list_beq _ _ = false

  pub list_beq_iff : (a b : List A) → (list_beq a b ≡ true) ↔ (a ≡ b)
  list_beq_iff [] [] = ground arith
  list_beq_iff (a ∷ xs) (b ∷ ys) = ground (arith, e.beq_iff a b, list_beq_iff xs ys)
  list_beq_iff _ _ = ground arith

  instance abbrev pub list_eq : Eq (List A)
  list_eq = record { beq = list_beq; beq_iff = list_beq_iff }

  pub eq_refl : (a : A) → (a == a) ≡ true
  eq_refl a = (e.beq_iff a a).1 refl
