-- ===== src/Routes.antt =====
-- process/loadbalancer_controller.go: what `CreateRouter` and `RemoveRouter` do to the routers and
-- services of the configuration. A `map[int32]string` of routes is the list of its entries, in the
-- order in which `range` gives them.
pub mod Names
pub mod Create
pub mod Remove
pub mod Lifecycle
pub mod Order
use Prim.Native.String.{◌++◌}
use kom_operator.Prelude.{
  String, Bool, true, false, List, [], ◌∷◌, ℤ, pos, int_eq, if◌then◌else◌, ◌≡◌, refl,
}
use kom_operator.Text.{contains}
use kom_operator.Decimal.{itoa, digits}
use kom_operator.Dict.{get, put, remove, keys, find_key}
use kom_operator.Dict.Loops.{delete_matching}
use kom_operator.Traefik.{Router, Service, Http}

abbrev pub Route : Type 0
Route = ℤ × String

-- `strings.Contains(service, "@internal")`
unfoldable pub is_internal : String → Bool
is_internal service = contains service "@internal"

-- The text that `RemoveRouter` looks for in the keys.
unfoldable pub router_prefix : String → String → String
router_prefix namespace service = namespace ++ ("_" ++ (service ++ "_"))

unfoldable pub router_name : String → String → ℤ → String
router_name namespace service port =
    if is_internal service then service else namespace ++ ("_" ++ (service ++ ("_" ++ itoa port)))

unfoldable pub service_url : String → String → ℤ → String
service_url namespace service port =
    "http://"
    ++ (service
        ++ ("."
            ++ (namespace
                ++ (".svc.cluster.local:"
                    ++ (if int_eq port (pos 0) then itoa (pos 80) else itoa port)))))

abbrev pub new_service : String → Service
new_service url = record {
  load_balancer = record { servers = record { url = url } ∷ []; pass_host_header = true };
}

abbrev pub new_router : String → String → Router
new_router name rule = record {
  service = name;
  entry_points = "primary" ∷ [];
  middlewares = [];
  rule = rule;
}

-- A service is added unless the router is internal or the map has the key.
unfoldable pub add_service : Bool → String → String → Http → Http
add_service internal name url h =
    let found = if internal then true else find_key (keys h.services) name in
    if found then h else record h { services = put name (new_service url) h.services }

-- A router that is there stays as it is.
unfoldable pub add_router : String → String → Http → Http
add_router name rule h =
    if find_key (keys h.routers) name
    then h
    else record h { routers = put name (new_router name rule) h.routers }

-- One round of the loop of `CreateRouter`.
unfoldable pub add_route : String → String → Route → Http → Http
add_route namespace service (port, rule) h =
    let name = router_name namespace service port in
    let url = service_url namespace service port in
    add_router name rule (add_service (is_internal service) name url h)

unfoldable pub add_routes : String → String → List Route → Http → Http
add_routes namespace service [] h = h
add_routes namespace service (route ∷ rest) h =
    add_routes namespace service rest (add_route namespace service route h)

-- The loop of `RemoveRouter` over the keys of the services: a match deletes the service, and every
-- router whose key matches.
unfoldable pub remove_loop : String → List String → Http → Http
remove_loop name [] h = h
remove_loop name (key ∷ rest) h = remove_loop name rest (
    if contains key name
    then record h {
      services = remove key h.services;
      routers = delete_matching (λ k. contains k name) (keys h.routers) h.routers;
    }
    else h)

unfoldable pub remove_routes : String → String → Http → Http
remove_routes namespace service h =
    if is_internal service
    then h
    else remove_loop (router_prefix namespace service) (keys h.services) h
