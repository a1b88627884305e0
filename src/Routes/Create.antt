-- ===== src/Routes/Create.antt =====
-- What `add_routes` leaves under each key.
use text.Mathlib.Text.{◌==◌}
use kom_operator.Prelude.{
  String, ◌≡◌, refl, Bool, false, Option, none, some, List, [], ◌∷◌, ℤ, arith, eq_iff,
  if◌then◌else◌,
}
use kom_operator.Dict.{Dict, get, put, keys, find_key, find_key-keys, get-put}
use kom_operator.Traefik.{Router, Service, Http}
use kom_operator.Routes.{
  Route, is_internal, router_name, service_url, new_service, new_router, add_service, add_router,
  add_route, add_routes,
}

abbrev pub or_else {ℓ} : {A : Type ℓ} → Option A → Option A → Option A
or_else (some a) b = some a
or_else none b = b

or_else_assoc {ℓ} :
    {A : Type ℓ} (a b c : Option A) → or_else (or_else a b) c ≡ or_else a (or_else b c)
or_else_assoc none b c = refl
or_else_assoc (some a) b c = refl

get-put-new {ℓ} :
    {V : Type ℓ} (name k : String) (v : V) (d : Dict V)
    → get k (if find_key (keys d) name then d else put name v d)
      ≡ or_else (get k d) (if name == k then some v else none)
get-put-new name k v d = ground (arith, find_key-keys d name, get-put name k v d, eq_iff name k)

module _ (k : String) where
  get-add_router :
      (name rule : String) (h : Http)
      → get k (add_router name rule h).routers
        ≡ or_else (get k h.routers) (if name == k then some (new_router k rule) else none)
  unfolding add_router
  get-add_router name rule h = ground (
    arith,
    find_key-keys h.routers name,
    get-put name k (new_router name rule) h.routers,
    eq_iff name k,
  )

  get-add_service :
      (name url : String) (h : Http)
      → get k (add_service false name url h).services
        ≡ or_else (get k h.services) (if name == k then some (new_service url) else none)
  unfolding add_service
  get-add_service name url h = ground (
    arith,
    find_key-keys h.services name,
    get-put name k (new_service url) h.services,
    eq_iff name k,
  )

add_router-services :
    (name rule : String) (h : Http) → (add_router name rule h).services ≡ h.services
unfolding add_router
add_router-services name rule h = ground arith

add_service-routers :
    (b : Bool) (name url : String) (h : Http) → (add_service b name url h).routers ≡ h.routers
unfolding add_service
add_service-routers b name url h = ground arith

-- The routers and services that a list of routes asks for: the first entry for a key counts.
module _ (namespace service : String) where
  unfoldable pub wanted {ℓ} : {V : Type ℓ} → (Route → V) → String → List Route → Option V
  wanted value k [] = none
  wanted value k (route ∷ rest) =
      if router_name namespace service route.0 == k then some (value route) else wanted value k rest

  abbrev pub wanted_router : String → List Route → Option Router
  wanted_router k = wanted (λ route. new_router k route.1) k

  abbrev pub wanted_service : String → List Route → Option Service
  wanted_service k = wanted (λ route. new_service (service_url namespace service route.0)) k

  module _ (k : String) where
    get-add_route-routers :
        (port : ℤ) (rule : String) (h : Http)
        → get k (add_route namespace service (port, rule) h).routers
          ≡ or_else
              (get k h.routers)
              (if router_name namespace service port == k then some (new_router k rule) else none)
    unfolding add_route
    get-add_route-routers port rule h = rw (get-add_router, add_service-routers)

    get-add_route-services :
        (port : ℤ) (rule : String) (h : Http)
        → is_internal service ≡ false
        → get k (add_route namespace service (port, rule) h).services
          ≡ or_else (get k h.services) (
              if router_name namespace service port == k
              then some (new_service (service_url namespace service port))
              else none)
    unfolding add_route
    get-add_route-services port rule h e = rw (e, add_router-services, get-add_service)

    -- `add_routes` keeps what stands under a key, and fills a free key with what is wanted there.
    pub get-add_routes-routers :
        (routes : List Route) (h : Http)
        → get k (add_routes namespace service routes h).routers
          ≡ or_else (get k h.routers) (wanted_router k routes)
    unfolding add_routes wanted
    get-add_routes-routers [] h = ground arith
    get-add_routes-routers ((port, rule) ∷ rest) h = ground (
      arith,
      get-add_routes-routers rest (add_route namespace service (port, rule) h),
      get-add_route-routers port rule h,
    )

    pub get-add_routes-services :
        (routes : List Route) (h : Http)
        → is_internal service ≡ false
        → get k (add_routes namespace service routes h).services
          ≡ or_else (get k h.services) (wanted_service k routes)
    unfolding add_routes wanted
    get-add_routes-services [] h e = ground arith
    get-add_routes-services ((port, rule) ∷ rest) h e = ground (
      arith,
      get-add_routes-services rest (add_route namespace service (port, rule) h) e,
      get-add_route-services port rule h e,
    )
