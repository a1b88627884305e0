-- ===== src/Dict/Loops.antt =====
-- The loop `for key := range d { if test(key) { delete(d, key) } }`.

use kom_operator.Prelude.{String, ◌≡◌, Bool, none, List, [], ◌∷◌, arith, eq_iff, if◌then◌else◌}
use kom_operator.Dict.{Dict, get, remove, keys, get-remove, find_key, find_key-keys}

module _ {ℓ} {V : Type ℓ} (test : String → Bool) where
  unfoldable pub delete_matching : List String → Dict V → Dict V
  delete_matching [] d = d
  delete_matching (key ∷ rest) d = delete_matching rest (if test key then remove key d else d)

  -- A key is gone if the loop met it and it passed the test, and stays as it was otherwise.
  pub get-delete_matching :
      (ks : List String) (k : String) (d : Dict V)
      → get k (delete_matching ks d)
        ≡ (if test k then (if find_key ks k then none else get k d) else get k d)
  unfolding delete_matching find_key
  get-delete_matching [] k d = ground arith
  get-delete_matching (j ∷ ks) k d = ground (
    arith,
    eq_iff j k,
    get-remove j k d,
    get-delete_matching ks k (if test j then remove j d else d),
  )

  -- Over its own keys the loop deletes the keys that pass the test, and no other.
  pub get-delete_own :
      (k : String) (d : Dict V)
      → get k (delete_matching (keys d) d) ≡ (if test k then none else get k d)
  get-delete_own k d = ground (arith, get-delete_matching (keys d) k d, find_key-keys d k)
