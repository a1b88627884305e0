-- ===== src/Util/Equality.antt =====
-- What `Equals` decides about two routings.
use text.Mathlib.Text.{◌==◌ as str_eq}
use mathlib.Core.Logic.Or
use mathlib.Core.List.{Mem, Nodup, Perm, mem-cons, not-mem-nil}
use mathlib.Core.List
use mathlib.Core.Nat as M
use mathlib.Core.HLevel.{⊥_prop}
use native.Mathlib.Bridge.{from_ℕ, from_le⁻¹}
use kom_operator.Prelude.{
  ◌≡◌, ◌≢◌, ◌↔◌, refl, ap, ◌∙◌, sym, subst, Bool, true, false, ◌&&◌, some, List, [], ◌∷◌, length,
  All, items, suc, arith, eq_iff, ◌==◌, Bool-cases, inl, inr,
}
use kom_operator.Kube.{port_eq, port_beq_iff}
use kom_operator.Api.{Http, Routing}
use kom_operator.Util.{find_route, all_found, equals}

abbrev same_route : Http → Http → Bool
same_route v k = str_eq v.rule k.rule && v.port == k.port

same_route_iff : (v k : Http) → (same_route v k ≡ true) ↔ (k ≡ v)
same_route_iff v k = ground (arith, eq_iff v.rule k.rule, port_beq_iff v.port k.port)

find_route-true : (k : Http) (b : List Http) → find_route k b true ≡ true
unfolding find_route
find_route-true k [] = refl
find_route-true k (v ∷ rest) = ground (arith, find_route-true k rest)

find_route_sound : (k : Http) (b : List Http) → find_route k b false ≡ true → Mem k b
unfolding find_route
find_route_sound k [] h = cc
find_route_sound k (v ∷ rest) h = elim (Bool-cases (same_route v k)) [
  | inl same ↦ mem-cons.1 (Or.inl ((same_route_iff v k).0 same))
  | inr other ↦ mem-cons.1 (Or.inr (find_route_sound k rest (rw other at h)))
]

find_route_complete : (k : Http) (b : List Http) → Mem k b → find_route k b false ≡ true
unfolding find_route
find_route_complete k [] m = absurd (not-mem-nil m)
find_route_complete k (v ∷ rest) m =
    Or.elim (hlevel) (mem-cons.0 m) (λ e. rw ((same_route_iff v k).1 e) (find_route-true k rest))
      (λ later. elim (Bool-cases (same_route v k)) [
        | inl same ↦ rw same (find_route-true k rest)
        | inr other ↦ rw other (find_route_complete k rest later)
      ])

abbrev pub Among : List Http → List Http → Type 0
Among b = All (λ k. Mem k b)

all_found_sound : (a b : List Http) → all_found a b ≡ true → Among b a
unfolding all_found
all_found_sound [] b h = tt
all_found_sound (k ∷ rest) b h = elim (Bool-cases (find_route k b false)) [
  | inl found ↦ (find_route_sound k b found, all_found_sound rest b (rw found at h))
  | inr missing ↦ absurd (cc (missing, h))
]

all_found_complete : (a b : List Http) → Among b a → all_found a b ≡ true
unfolding all_found
all_found_complete [] b h = refl
all_found_complete (k ∷ rest) b h = rw (find_route_complete k b h.0) (all_found_complete rest b h.1)

both_tests :
    (a b : Routing)
    → equals a b ≡ true
    → (length (items a.http) ≡ length (items b.http))
      × (all_found (items a.http) (items b.http) ≡ true)
unfolding equals
both_tests a b h = ground arith

-- `Equals` holds exactly when the routings have as many routes and every route of the first is one
-- of the second.
pub equals_iff :
    (a b : Routing)
    → (equals a b ≡ true)
      ↔ ((length (items a.http) ≡ length (items b.http)) × Among (items b.http) (items a.http))
unfolding equals
equals_iff a b = (
  λ h.
      let (same_length, found) = both_tests a b h in
      (same_length, all_found_sound (items a.http) (items b.http) found),
  λ (same_length, among).
      ground (arith, same_length, all_found_complete (items a.http) (items b.http) among),
)

Among-cons : (x : Http) (a b : List Http) → Among b a → Among (x ∷ b) a
Among-cons x [] b h = tt
Among-cons x (y ∷ a) b h = (mem-cons.1 (Or.inr h.0), Among-cons x a b h.1)

Among-refl : (a : List Http) → Among a a
Among-refl [] = tt
Among-refl (x ∷ a) = (mem-cons.1 (Or.inl refl), Among-cons x a a (Among-refl a))

pub equals_refl : (a : Routing) → equals a a ≡ true
equals_refl a = (equals_iff a a).1 (refl, Among-refl (items a.http))

abbrev pub twice : Http → Routing
twice x = record { http = some (x ∷ x ∷ []) }

abbrev pub pair : Http → Http → Routing
pair x y = record { http = some (x ∷ y ∷ []) }

not_among : (x y : Http) → x ≢ y → ¬ Mem y (x ∷ x ∷ [])
not_among x y other m =
    Or.elim ⊥_prop (mem-cons.0 m) (λ e. other (sym e))
      λ m'. Or.elim ⊥_prop (mem-cons.0 m') (λ e. other (sym e)) not-mem-nil

-- For two different routes, `Equals` finds the first one twice equal to both of them, but not both
-- of them equal to the first one twice.
pub equals_not_symmetric :
    (x y : Http)
    → x ≢ y
    → (equals (twice x) (pair x y) ≡ true) × (equals (pair x y) (twice x) ≡ false)
equals_not_symmetric x y other = (
  (equals_iff (twice x) (pair x y)).1
      (refl, (mem-cons.1 (Or.inl refl), (mem-cons.1 (Or.inl refl), tt))),
  elim (Bool-cases (equals (pair x y) (twice x))) [
    | inl e ↦ absurd (not_among x y other ((equals_iff (pair x y) (twice x)).0 e).1.1.0)
    | inr e ↦ e
  ],
)

native-length : (xs : List Http) → from_ℕ (List.length xs) ≡ length xs
native-length [] = refl
native-length (x ∷ xs) = ap suc (native-length xs)

subset_of_Among : (a b : List Http) → Among b a → List.Subset a b
subset_of_Among [] b h x m = absurd (not-mem-nil m)
subset_of_Among (y ∷ a) b h x m =
    Or.elim (squash₁) (mem-cons.0 m) (λ e. subst (λ z. Mem z b) (sym e) h.0)
      (subset_of_Among a b h.1 x)

Among-of_subset : (a b : List Http) → List.Subset a b → Among b a
Among-of_subset [] b h = tt
Among-of_subset (y ∷ a) b h =
    (h y (mem-cons.1 (Or.inl refl)), Among-of_subset a b (λ x m. h x (mem-cons.1 (Or.inr m))))

no_longer : (a b : List Http) → length a ≡ length b → M.◌≤◌ (List.length b) (List.length a)
no_longer a b e =
    from_le⁻¹ (List.length b) (List.length a) (omega (arith, native-length a, native-length b, e))

Perm-length : (a b : List Http) → Perm a b → length a ≡ length b
Perm-length a b p = sym (native-length a) ∙ (ap from_ℕ (List.Perm.length-eq p) ∙ native-length b)

-- If no route stands twice in the first routing, `Equals` holds exactly when the second has the
-- same routes in some order.
pub equals-Perm_iff :
    (a b : Routing)
    → Nodup (items a.http)
    → (equals a b ≡ true) ↔ Perm (items a.http) (items b.http)
equals-Perm_iff a b distinct = (
  λ h.
      let (same_length, among) = (equals_iff a b).0 h in
      List.Subperm.perm_of_length_le
        (List.Nodup.subperm distinct (subset_of_Among (items a.http) (items b.http) among))
        (no_longer (items a.http) (items b.http) same_length),
  λ p. (equals_iff a b).1 (
    Perm-length (items a.http) (items b.http) p,
    Among-of_subset (items a.http) (items b.http) (List.Perm.subset p),
  ),
)
