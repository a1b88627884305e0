-- ===== src/Errors.antt =====
-- Go's `error` values as data, and results that carry them. What an error reads like as a text is
-- left to the platform.
use kom_operator.Prelude.{String, Bool, true, false, ◌≡◌, refl, ◌⊎◌, inl, inr}

-- The bad requests that the operator makes itself, each with the texts that its message quotes.
pub data Fault : Type 0 where
  missing_cpu_limits missing_memory_limits no_metrics : String → Fault
  unsupported_resource unsupported_type : String → Fault
  invalid_quantity invalid_number not_a_percentage : String → String → Fault
  no_owner_reference : String → Fault

-- Errors of the API server by their reason, and those of libraries and of the environment.
pub data Error : Type 0 where
  not_found already_exists : String → Error
  api_error : String → Error
  library_error : String → Error
  bad_request : Fault → Error
  env_not_set env_empty : String → Error

pub data Result {ℓ} (A : Type ℓ) : Type ℓ where
  ok : A → Result A
  err : Error → Result A

-- `errors.IsNotFound`
abbrev pub is_not_found : Error → Bool
is_not_found (not_found name) = true
is_not_found _ = false

-- `errors.IsAlreadyExists`
abbrev pub is_already_exists : Error → Bool
is_already_exists (already_exists name) = true
is_already_exists _ = false

module _ {κ} {B : Type κ} where
  infixl 5 ◌>>=◌ ◌>>◌
  -- `if err != nil { return err }`
  abbrev pub ◌>>=◌ {ℓ} : {A : Type ℓ} → Result A → (A → Result B) → Result B
  err stop >>= next = err stop
  ok value >>= next = next value

  abbrev pub ◌>>◌ : Result (Unit {0}) → Result B → Result B
  first >> second = first >>= (λ done. second)

  -- Inversion of a chain that succeeds.
  pub >>=-eq-ok {ℓ} :
      {A : Type ℓ} (first : Result A) (next : A → Result B) {result : B}
      → first >>= next ≡ ok result
      → (value : A) × (first ≡ ok value) × (next value ≡ ok result)
  >>=-eq-ok (err stop) next success = cc
  >>=-eq-ok (ok value) next success = (value, refl, success)

abbrev pub guard : Bool → Fault → Result (Unit {0})
guard true fault = ok tt
guard false fault = err (bad_request fault)

pub ok_inj {ℓ} : {A : Type ℓ} {a b : A} → ok a ≡ ok b → a ≡ b
ok_inj h = cc

pub Result-cases {ℓ} :
    {A : Type ℓ} (r : Result A) → ((a : A) × (r ≡ ok a)) ⊎ ((e : Error) × (r ≡ err e))
Result-cases (ok a) = inl (a, refl)
Result-cases (err e) = inr (e, refl)
