-- ===== src/Routes/Lifecycle.antt =====
-- Creating, updating and removing the routes of a microservice, seen from outside: by what stands
-- under each key.

use text.Mathlib.TextEquality.{eq_iff}
use Prim.Native.String.{◌++◌}
use kom_operator.Prelude.{
  String, ◌≡◌, ◌≢◌, refl, true, false, none, some, List, [], ◌∷◌, arith, if◌then◌else◌, inl, inr,
  Option-cases, ℤ,
}
use kom_operator.Text.{contains}
use kom_operator.Dict.{get, keys, is_some}
use kom_operator.Traefik.{Router, Http}
use kom_operator.Routes.{Route, is_internal, router_name, router_prefix, add_routes, remove_routes}
use kom_operator.Routes.Names.{IsPlain, contains-router_name, router_name-contains-prefix_iff}
use kom_operator.Routes.Create.{
  wanted, wanted_router, wanted_service, get-add_routes-routers, get-add_routes-services,
}
use kom_operator.Routes.Remove.{
  has_match, no_match-get, get-remove_routes-services, get-remove_routes-routers,
}

-- Every router leads to the service that stands under the router's own key.
pub record IsServed (h : Http) : Type 0 where
  pub served :
      (k : String) (r : Router)
      → get k h.routers ≡ some r
      → (r.service ≡ k) × (is_some (get k h.services) ≡ true)

module _ (namespace service : String) (external : is_internal service ≡ false) where
  abbrev prefix : String
  prefix = router_prefix namespace service

  wanted_served :
      (k : String) (routes : List Route) (r : Router)
      → wanted_router namespace service k routes ≡ some r
      → (r.service ≡ k) × (is_some (wanted_service namespace service k routes) ≡ true)
  unfolding wanted
  wanted_served k [] r e = cc
  wanted_served k ((port, rule) ∷ rest) r e = ground (arith, wanted_served k rest r)

  -- What is wanted stands under keys with the prefix.
  pub wanted_router-other :
      (k : String) (routes : List Route)
      → contains k prefix ≡ false
      → wanted_router namespace service k routes ≡ none
  unfolding wanted
  wanted_router-other k [] h = refl
  wanted_router-other k ((port, rule) ∷ rest) h = ground (
    arith,
    eq_iff (router_name namespace service port) k,
    contains-router_name namespace service external port,
    wanted_router-other k rest,
  )

  -- Adding the routes of a service that is not internal preserves that every router leads to the
  -- service under its own key, and that this service is there.
  pub add_routes-IsServed :
      (routes : List Route) (h : Http)
      → IsServed h
      → IsServed (add_routes namespace service routes h)
  add_routes-IsServed routes h v = record {
    served = λ k r e. ground (
      arith,
      get-add_routes-routers namespace service k routes h,
      get-add_routes-services namespace service k routes h external,
      wanted_served k routes r,
      v.served k r,
    );
  }

  module _ (h : Http) (v : IsServed h) where
    -- No service matches, so no router does.
    no_match_router :
        (k : String)
        → has_match prefix (keys h.services) ≡ false
        → contains k prefix ≡ true
        → get k h.routers ≡ none
    no_match_router k m c = elim (Option-cases (get k h.routers)) [
      | inl e ↦ e
      | inr (r, e) ↦ absurd (ground (arith, no_match-get prefix k h.services m c, v.served k r e))
    ]

    -- All routers of the microservice go.
    pub get-remove_routes :
        (k : String)
        → get k (remove_routes namespace service h).routers
          ≡ (if contains k prefix then none else get k h.routers)
    get-remove_routes k =
        ground (arith, get-remove_routes-routers namespace service k h external, no_match_router k)

    pub remove_routes-IsServed : IsServed (remove_routes namespace service h)
    remove_routes-IsServed = record {
      served = λ k r e. ground (
        arith,
        get-remove_routes k,
        get-remove_routes-services namespace service k h external,
        v.served k r,
      );
    }

    -- For a service that is not internal and a configuration in which every router leads to a
    -- service under its own key, removing the routes and adding new ones leaves, under each key
    -- that contains the prefix, the router that the new routes ask for or none, and under any
    -- other key the router that was there.
    pub update_routes :
        (routes : List Route) (k : String)
        → get k (add_routes namespace service routes (remove_routes namespace service h)).routers
          ≡ (if contains k prefix
              then wanted_router namespace service k routes
              else get k h.routers)
    update_routes routes k = ground (
      arith,
      get-add_routes-routers namespace service k routes (remove_routes namespace service h),
      get-remove_routes k,
      wanted_router-other k routes,
    )

  -- For a service that is not internal and a configuration in which every router leads to a
  -- service under its own key, adding routes and removing them leaves no router under a key that
  -- contains the prefix, and every other router as it was.
  pub remove_routes-add_routes :
      (h : Http) (routes : List Route) (k : String)
      → IsServed h
      → get k (remove_routes namespace service (add_routes namespace service routes h)).routers
        ≡ (if contains k prefix then none else get k h.routers)
  remove_routes-add_routes h routes k v = ground (
    arith,
    get-remove_routes (add_routes namespace service routes h) (add_routes-IsServed routes h v) k,
    get-add_routes-routers namespace service k routes h,
    wanted_router-other k routes,
  )

-- The routes of another microservice.
module _ (n s n' s' : String) (port : ℤ) (plain : IsPlain n × IsPlain s × IsPlain n' × IsPlain s')
    (external : is_internal s ≡ false) (external' : is_internal s' ≡ false) (h : Http)
    (v : IsServed h) where
  abbrev name : String
  name = router_name n' s' port

  -- For names without underscores and services that are not internal, removing the routes of one
  -- service leaves the router and the service of another microservice's route as they were, unless
  -- that one's service has the same name and its namespace ends in the first namespace. Every
  -- router is taken to lead to a service under its own key.
  pub remove_routes-spares :
      ¬ ((a : String) × (n' ≡ a ++ n) × (s' ≡ s))
      → (get name (remove_routes n s h).routers ≡ get name h.routers)
        × (get name (remove_routes n s h).services ≡ get name h.services)
  remove_routes-spares other =
      let spared : contains name (router_prefix n s) ≢ true =
        λ e. other ((router_name-contains-prefix_iff n s n' s' port plain external').0 e) in
      (
        ground (arith, spared, get-remove_routes n s external h v name),
        ground (arith, spared, get-remove_routes-services n s name h external),
      )

  -- For names without underscores, services that are not internal, and a configuration in which
  -- every router leads to a service under its own key, removing the routes of a service also
  -- removes the router and the service of a route of a service of the same name in a namespace
  -- that is a text followed by the first namespace.
  pub remove_routes-takes_foreign :
      (a : String)
      → n' ≡ a ++ n
      → s' ≡ s
      → (get name (remove_routes n s h).routers ≡ none)
        × (get name (remove_routes n s h).services ≡ none)
  remove_routes-takes_foreign a eq_n eq_s =
      let hit =
        (router_name-contains-prefix_iff n s n' s' port plain external').1 (a, eq_n, eq_s) in
      (
        ground (arith, hit, get-remove_routes n s external h v name),
        ground (arith, hit, get-remove_routes-services n s name h external),
      )
