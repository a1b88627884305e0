-- ===== src/Text/Contains.antt =====
-- What `strings.Contains` finds.
use Prim.Native.Char.{Char}
use Prim.Native.String.{[], ◌∷◌, ◌++◌}
use text.Mathlib.TextEquality.{Char-path}
use text.Mathlib.TextLemmas.{nil-append, cons-append}
use kom_operator.Prelude.{String, true, ◌≡◌, refl, ap, sym, ◌∙◌, inl, inr, arith, Bool-cases}
use kom_operator.Text.{has_prefix, contains}

pub has_prefix-append : (t u : String) → has_prefix (t ++ u) t ≡ true
unfolding has_prefix
has_prefix-append [] u = refl
has_prefix-append (c ∷ t) u = rw cons-append (ground (arith, has_prefix-append t u))

prefix_sound : (s t : String) → has_prefix s t ≡ true → (u : String) × (s ≡ t ++ u)
unfolding has_prefix
prefix_sound s [] h = (s, sym (nil-append s))
prefix_sound [] (d ∷ t) h = absurd (cc)
prefix_sound (c ∷ s) (d ∷ t) h =
    let (u, e) = prefix_sound s t (ground arith) in
    let same : c ≡ d = Char-path c d (ground arith) in (u, rw (cons-append, ← e, same))

contains_of_prefix : (s t : String) → has_prefix s t ≡ true → contains s t ≡ true
unfolding contains
contains_of_prefix [] t h = h
contains_of_prefix (c ∷ s) t h = rw h

-- A text contains what stands in it.
pub contains-append : (p t u : String) → contains (p ++ (t ++ u)) t ≡ true
unfolding contains
contains-append [] t u = rw nil-append (contains_of_prefix (t ++ u) t (has_prefix-append t u))
contains-append (c ∷ p) t u = rw cons-append (ground (arith, contains-append p t u))

module _ (c : Char) (s t : String) where
  found_here : has_prefix (c ∷ s) t ≡ true → (p : String) × (u : String) × ((c ∷ s) ≡ p ++ (t ++ u))
  found_here h = let (u, e) = prefix_sound (c ∷ s) t h in ([], u, e ∙ sym (nil-append (t ++ u)))

  found_later :
      (p : String) × (u : String) × (s ≡ p ++ (t ++ u))
      → (p : String) × (u : String) × ((c ∷ s) ≡ p ++ (t ++ u))
  found_later (p, u, e) = (c ∷ p, u, ap (◌∷◌ c) e ∙ sym (cons-append c p (t ++ u)))

-- What a text contains stands in it.
pub contains_sound :
    (s t : String) → contains s t ≡ true → (p : String) × (u : String) × (s ≡ p ++ (t ++ u))
unfolding contains
contains_sound [] t h = let (u, e) = prefix_sound [] t h in ([], u, e ∙ sym (nil-append (t ++ u)))
contains_sound (c ∷ s) t h = elim (Bool-cases (has_prefix (c ∷ s) t)) [
  | inl here ↦ found_here c s t here
  | inr no_prefix ↦ found_later c s t (contains_sound s t (rw no_prefix at h))
]
