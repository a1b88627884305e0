-- ===== src/Routes/Order.antt =====
-- The order in which Go's `range` runs through the routes.

use mathlib.Core.List.{Permᴰ}
use kom_operator.Prelude.{
  String, ◌≡◌, ◌≢◌, refl, ◌∙◌, subst, false, Option, List, [], ◌∷◌, All, arith, eq_iff,
}
use kom_operator.Dict.{get}
use kom_operator.Traefik.{Http}
use kom_operator.Routes.{
  Route, is_internal, router_name, service_url, new_router, new_service, add_routes,
}
use kom_operator.Routes.Names.{router_name_inj}
use kom_operator.Routes.Create.{wanted, get-add_routes-routers, get-add_routes-services}

-- The entries of a map: no port stands twice.
abbrev pub HasDistinctPorts : List Route → Type 0
HasDistinctPorts [] = Unit
HasDistinctPorts (q ∷ rest) = All (λ r. q.0 ≢ r.0) rest × HasDistinctPorts rest

All-perm {ℓ κ} : {A : Type ℓ} (P : A → Type κ) {xs ys : List A} → Permᴰ xs ys → All P xs → All P ys
All-perm P Permᴰ.nil h = h
All-perm P (Permᴰ.cons e p) h = (subst P e h.0, All-perm P p h.1)
All-perm P (Permᴰ.swap e e') h = (subst P e' h.1.0, (subst P e h.0, h.1.1))
All-perm P (Permᴰ.trans p q) h = All-perm P q (All-perm P p h)

distinct-perm : {xs ys : List Route} → Permᴰ xs ys → HasDistinctPorts xs → HasDistinctPorts ys
distinct-perm Permᴰ.nil h = h
distinct-perm (Permᴰ.cons {a = a} {l₁ = l} e p) h =
    (All-perm _ p (subst (λ b. All (λ r. b.0 ≢ r.0) l) e h.0), distinct-perm p h.1)
distinct-perm (Permᴰ.swap {a = a} {b = b} {l = l} e e') h = (
  (λ x. h.0.0 (cc), subst (λ x. All (λ r. x.0 ≢ r.0) l) e' h.1.0),
  (subst (λ x. All (λ r. x.0 ≢ r.0) l) e h.0.1, h.1.1),
)
distinct-perm (Permᴰ.trans p q) h = distinct-perm q (distinct-perm p h)

module _ {ℓ} {V : Type ℓ} (value : Route → V) (namespace service : String)
    (external : is_internal service ≡ false) (k : String) where
  abbrev want : List Route → Option V
  want = wanted namespace service value k

  want-swap :
      (q r : Route) (rest : List Route) → q.0 ≢ r.0 → want (q ∷ r ∷ rest) ≡ want (r ∷ q ∷ rest)
  unfolding wanted
  want-swap q r rest other = ground (
    arith,
    eq_iff (router_name namespace service q.0) k,
    eq_iff (router_name namespace service r.0) k,
    router_name_inj namespace service external q.0 r.0,
  )

  want-cons :
      (q r : Route) (xs ys : List Route) → q ≡ r → want xs ≡ want ys → want (q ∷ xs) ≡ want (r ∷ ys)
  unfolding wanted
  want-cons q r xs ys e h = rw e (ground (arith, h))

  want-perm : {xs ys : List Route} → Permᴰ xs ys → HasDistinctPorts xs → want xs ≡ want ys
  want-perm Permᴰ.nil h = refl
  want-perm (Permᴰ.cons {a = a} {b = b} {l₁ = xs} {l₂ = ys} e p) h =
      want-cons a b xs ys e (want-perm p h.1)
  want-perm (Permᴰ.swap {a = a} {b = b} {a' = a'} {b' = b'} {l = l} e e') h =
      want-swap a b l h.0.0 ∙ want-cons b a' (a ∷ l) (b' ∷ l) e' (want-cons a b' l l e refl)
  want-perm (Permᴰ.trans p q) h = want-perm p h ∙ want-perm q (distinct-perm p h)

-- For a service that is not internal, two orders of the same routes with distinct ports leave the
-- same router and the same service under every key: the order in which Go runs through the map
-- does not matter.
pub add_routes-perm :
    (namespace service : String) (xs ys : List Route) (h : Http) (k : String)
    → is_internal service ≡ false
    → Permᴰ xs ys
    → HasDistinctPorts xs
    → (get k (add_routes namespace service xs h).routers
        ≡ get k (add_routes namespace service ys h).routers)
      × (get k (add_routes namespace service xs h).services
          ≡ get k (add_routes namespace service ys h).services)
add_routes-perm namespace service xs ys h k external p distinct =
    let same_router = want-perm (λ r. new_router k r.1) namespace service external k p distinct in
    let same_service =
      want-perm (λ r. new_service (service_url namespace service r.0)) namespace service external k
        p distinct in
    (
      cc (
        same_router,
        get-add_routes-routers namespace service k xs h,
        get-add_routes-routers namespace service k ys h,
      ),
      cc (
        same_service,
        get-add_routes-services namespace service k xs h external,
        get-add_routes-services namespace service k ys h external,
      ),
    )
