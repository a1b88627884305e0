-- ===== src/DeepCopy/Memory.antt =====
-- Go's memory, as far as the copies of structs with slices, maps and pointers need it. A slice, a
-- map or a pointer is an address or nil, and the array, the entries or the struct stand in a cell.
use kom_operator.Prelude.{
  ℕ, suc, ◌≤◌, ◌<◌, ◌≡◌, Option, none, some, List, [], ◌∷◌, if◌then◌else◌, eqb,
}

-- The cells in use are those below `next`.
pub record Memory (C : Type 0) : Type 0 where
  pub next : ℕ
  pub cell : ℕ → Option C

-- The cells that hold arrays of `T`.
pub record Kind (C T : Type 0) : Type 0 where
  pub inject : List T → C
  pub project : C → Option (List T)
  pub project-inject : (xs : List T) → project (inject xs) ≡ some xs

abbrev pub Address : Type 0
Address = Option ℕ

abbrev pub or_empty : {T : Type 0} → Option (List T) → List T
or_empty none = []
or_empty (some xs) = xs

abbrev pub Copy : Type 0 → Type 0 → Type 0
Copy C A = Memory C → A × Memory C

module _ {C : Type 0} where
  abbrev pub pure : {A : Type 0} → A → Copy C A
  pure a m = (a, m)

  infixl 5 ◌>>=◌ ◌>>◌
  abbrev pub ◌>>=◌ : {A B : Type 0} → Copy C A → (A → Copy C B) → Copy C B
  ◌>>=◌ c f m = f (c m).0 (c m).1

  abbrev pub ◌>>◌ : {B : Type 0} → Copy C (Unit {0}) → Copy C B → Copy C B
  c >> d = c >>= λ _. d

  abbrev pub cell_elements : {T : Type 0} → Kind C T → Option C → List T
  cell_elements k none = []
  cell_elements k (some c) = or_empty (k.project c)

  -- The array at an address.
  unfoldable pub elements : {T : Type 0} → Kind C T → Memory C → ℕ → List T
  elements k m a = cell_elements k (m.cell a)

  unfoldable pub write : Memory C → ℕ → C → Memory C
  write m a c = record m { cell = λ b. if eqb b a then some c else m.cell b }

  -- `make` or `new`: an address that is not in use.
  unfoldable pub make : Copy C ℕ
  make m = (m.next, record m { next = suc m.next })

  unfoldable pub store : {T : Type 0} → Kind C T → ℕ → List T → Copy C (Unit {0})
  store k a xs m = (tt, write m a (k.inject xs))

  -- The loop over the elements.
  unfoldable pub copy_elements : {T : Type 0} → (T → Copy C T) → List T → Copy C (List T)
  copy_elements copy_into [] = pure []
  copy_elements copy_into (x ∷ xs) = do
    y ← copy_into x
    ys ← copy_elements copy_into xs
    pure (y ∷ ys)

  -- The array is written when its elements are there, as nothing reads it before.
  unfoldable pub copy_elements_of :
      {T : Type 0} → Kind C T → (T → Copy C T) → List T → Copy C Address
  copy_elements_of k copy_into xs = do
    b ← make
    ys ← copy_elements copy_into xs
    store k b ys
    pure (some b)

  -- A new array with copies of the elements; nil stays nil.
  unfoldable pub copy_array : {T : Type 0} → Kind C T → (T → Copy C T) → Address → Copy C Address
  copy_array k copy_into none m = (none, m)
  copy_array k copy_into (some a) m = copy_elements_of k copy_into (elements k m a) m

-- The memories agree on these cells.
abbrev pub Same : {C : Type 0} → (ℕ → Type 0) → Memory C → Memory C → Type 0
Same S m n = (a : ℕ) → S a → n.cell a ≡ m.cell a

abbrev pub Below : ℕ → ℕ → Type 0
Below n a = a < n

abbrev pub Between : ℕ → ℕ → ℕ → Type 0
Between n k a = (n ≤ a) × (a < k)

-- How deep values of `V` are read from values of `T` and the cells that these lead to.
pub record Deep (C T V : Type 0) : Type 1 where
  pub view : T → Memory C → V
  -- All cells that the value leads to are of the right kind and in `S`.
  pub Within : (ℕ → Type 0) → Memory C → T → Type 0
  pub same_view :
      (S : ℕ → Type 0) (m n : Memory C) (x : T) → Within S m x → Same S m n → view x n ≡ view x m
  pub same_within :
      (S : ℕ → Type 0) (m n : Memory C) (x : T) → Within S m x → Same S m n → Within S n x
  pub wider :
      (S R : ℕ → Type 0) (m : Memory C) (x : T)
      → ((a : ℕ) → S a → R a)
      → Within S m x
      → Within R m x
