-- ===== src/Traefik/RoutingTypes.antt =====
-- process/traefik_config_types.go: routers and the services that they lead to.
use kom_operator.Prelude.{String, Bool, List}
use kom_operator.Dict.{Dict}

pub record Router : Type 0 where
  pub entry_points : List String
  pub middlewares : List String
  pub service : String
  pub rule : String

pub record Server : Type 0 where
  pub url : String

pub record TLoadBalancer : Type 0 where
  pub servers : List Server
  pub pass_host_header : Bool

pub record Service : Type 0 where
  pub load_balancer : TLoadBalancer

pub record Http : Type 0 where
  pub routers : Dict Router
  pub services : Dict Service
