-- ===== src/Dict.antt =====
-- Go's maps with text keys, as association lists. The program writes to a map only after it has
-- made sure that it is not nil, so a nil map is the empty one. `range` runs through the keys once
-- each, in no order that the program may rely on: here, the order of the list.
pub mod Loops
use text.Mathlib.Text.{◌==◌}
use kom_operator.Prelude.{
  String, ◌≡◌, refl, Bool, true, false, Option, none, some, List, [], ◌∷◌, map, arith, eq_iff,
  if◌then◌else◌,
}

abbrev pub Dict {ℓ} : Type ℓ → Type ℓ
Dict V = List (String × V)

module _ {ℓ} {V : Type ℓ} where
  -- `d[key]`, where there is one
  unfoldable pub get : String → Dict V → Option V
  get k [] = none
  get k ((j, v) ∷ d) = if j == k then some v else get k d

  -- `d[key] = v`
  unfoldable pub put : String → V → Dict V → Dict V
  put k v [] = (k, v) ∷ []
  put k v ((j, w) ∷ d) = if j == k then (k, v) ∷ d else (j, w) ∷ put k v d

  -- `delete(d, key)`
  unfoldable pub remove : String → Dict V → Dict V
  remove k [] = []
  remove k ((j, v) ∷ d) = let rest = remove k d in if j == k then rest else (j, v) ∷ rest

  -- The keys that `range` gives.
  unfoldable pub keys : Dict V → List String
  keys [] = []
  keys ((j, v) ∷ d) = j ∷ keys d

  pub get-put :
      (k j : String) (v : V) (d : Dict V) → get j (put k v d) ≡ (if k == j then some v else get j d)
  unfolding get put
  get-put k j v [] = refl
  get-put k j v ((i, w) ∷ d) = ground (arith, eq_iff k j, eq_iff i k, eq_iff i j, get-put k j v d)

  pub get-remove :
      (k j : String) (d : Dict V) → get j (remove k d) ≡ (if k == j then none else get j d)
  unfolding get remove
  get-remove k j [] = ground arith
  get-remove k j ((i, v) ∷ d) = ground (arith, eq_iff i k, eq_iff i j, eq_iff k j, get-remove k j d)

  abbrev pub is_some : Option V → Bool
  is_some none = false
  is_some (some v) = true

-- `for key := range d { if key == name { found = true; break } }`
unfoldable pub find_key : List String → String → Bool
find_key [] name = false
find_key (key ∷ rest) name = if key == name then true else find_key rest name

module _ {ℓ} {V : Type ℓ} where
  pub find_key-keys : (d : Dict V) (k : String) → find_key (keys d) k ≡ is_some (get k d)
  unfolding find_key keys get
  find_key-keys [] k = refl
  find_key-keys ((j, v) ∷ d) k = ground (arith, find_key-keys d k)

  pub get-nil : (k : String) → get {V = V} k [] ≡ none
  unfolding get
  get-nil k = refl

pub ruleset dict_laws = (get-put, get-remove, get-nil)
