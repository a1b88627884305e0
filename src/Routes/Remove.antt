-- ===== src/Routes/Remove.antt =====
-- What `remove_routes` leaves under each key.
use text.Mathlib.Text.{◌==◌}
use kom_operator.Prelude.{
  String, ◌≡◌, refl, Bool, true, false, ◌||◌, none, List, [], ◌∷◌, arith, eq_iff, if◌then◌else◌,
}
use kom_operator.Text.{contains}
use kom_operator.Dict.{Dict, get, remove, keys, find_key, find_key-keys, get-remove}
use kom_operator.Dict.Loops.{delete_matching, get-delete_own}
use kom_operator.Traefik.{Http}
use kom_operator.Routes.{is_internal, router_prefix, remove_loop, remove_routes}

-- Some key of the list holds the text.
pub has_match : String → List String → Bool
has_match name [] = false
has_match name (key ∷ rest) = contains key name || has_match name rest

pub no_match-get {ℓ} :
    {V : Type ℓ} (name k : String) (d : Dict V)
    → has_match name (keys d) ≡ false
    → contains k name ≡ true
    → get k d ≡ none
unfolding has_match keys get
no_match-get name k [] h c = refl
no_match-get name k ((j, v) ∷ d) h c = ground (arith, eq_iff j k, no_match-get name k d)

module _ (name k : String) where
  abbrev step : String → Http → Http
  step key h =
      if contains key name
      then record h {
        services = remove key h.services;
        routers = delete_matching (λ j. contains j name) (keys h.routers) h.routers;
      }
      else h

  step-services :
      (key : String) (h : Http)
      → get k (step key h).services ≡ (
          if contains key name
          then (if key == k then none else get k h.services)
          else get k h.services)
  step-services key h = ground (arith, get-remove key k h.services)

  step-routers :
      (key : String) (h : Http)
      → get k (step key h).routers ≡ (
          if contains key name
          then (if contains k name then none else get k h.routers)
          else get k h.routers)
  step-routers key h = ground (arith, get-delete_own (λ j. contains j name) k h.routers)

  get-remove_loop-services :
      (ks : List String) (h : Http)
      → get k (remove_loop name ks h).services ≡ (
          if contains k name
          then (if find_key ks k then none else get k h.services)
          else get k h.services)
  unfolding remove_loop find_key
  get-remove_loop-services [] h = ground arith
  get-remove_loop-services (key ∷ ks) h =
      ground (arith, eq_iff key k, step-services key h, get-remove_loop-services ks (step key h))

  get-remove_loop-routers :
      (ks : List String) (h : Http)
      → get k (remove_loop name ks h).routers ≡ (
          if contains k name
          then (if has_match name ks then none else get k h.routers)
          else get k h.routers)
  unfolding remove_loop has_match
  get-remove_loop-routers [] h = ground arith
  get-remove_loop-routers (key ∷ ks) h =
      ground (arith, step-routers key h, get-remove_loop-routers ks (step key h))

module _ (namespace service k : String) (h : Http) (external : is_internal service ≡ false) where
  -- The services whose key holds the prefix are gone, and the others stay.
  pub get-remove_routes-services :
      get k (remove_routes namespace service h).services
      ≡ (if contains k (router_prefix namespace service) then none else get k h.services)
  unfolding remove_routes
  get-remove_routes-services = ground (
    arith,
    external,
    get-remove_loop-services (router_prefix namespace service) k (keys h.services) h,
    find_key-keys h.services k,
  )

  -- The routers go with them, if any service went.
  pub get-remove_routes-routers : get k (remove_routes namespace service h).routers ≡ (
      if contains k (router_prefix namespace service)
      then (if has_match (router_prefix namespace service) (keys h.services)
          then none
          else get k h.routers)
      else get k h.routers)
  unfolding remove_routes
  get-remove_routes-routers = ground (
    arith,
    external,
    get-remove_loop-routers (router_prefix namespace service) k (keys h.services) h,
  )
