-- ===== src/Traefik.antt =====
-- process/traefik_config_types.go: the static configuration of the Traefik proxy. The children
-- hold the parts: `ProviderTypes`, `RoutingTypes` (routers and services), and here the whole and the
-- constructor `NewTraefikConfig`. A Go pointer is an `Option`.
mod ProviderTypes
mod RoutingTypes
use kom_operator.Prelude.{String, Bool, true, false, Option, none, some, List, [], ◌∷◌, ℕ}
use kom_operator.Dict.{Dict}
pub use ProviderTypes.*
pub use RoutingTypes.*

pub record Global : Type 0 where
  pub check_new_version : Bool
  pub send_anonymous_usage : Bool

pub record Log : Type 0 where
  pub level : String

pub record StForwardingTimeouts : Type 0 where
  pub dial_timeout : String
  pub response_header_timeout : String

pub record ServersTransport : Type 0 where
  pub forwarding_timeouts : StForwardingTimeouts

pub record EntryPoint : Type 0 where
  pub address : String

pub record Api : Type 0 where
  pub insecure : Bool
  pub dashboard : Bool
  pub debug : Bool

pub record Pilot : Type 0 where
  pub token : Bool
  pub dashboard : Bool

-- The bucket bounds, floats in the source, are counted in tenths.
pub record Prometheus : Type 0 where
  pub buckets : List ℕ
  pub add_entry_points_labels : Bool
  pub add_services_labels : Bool
  pub entry_point : String

pub record Metrics : Type 0 where
  pub prometheus : Option Prometheus

pub record TraefikConfig : Type 0 where
  pub global : Global
  pub log : Option Log
  pub servers_transport : ServersTransport
  pub entry_points : Dict EntryPoint
  pub api : Api
  pub metrics : Metrics
  pub providers : Providers
  pub http : Http
  pub pilot : Pilot

abbrev forwarding : StForwardingTimeouts
forwarding = record { dial_timeout = "300s"; response_header_timeout = "300s" }

abbrev prometheus_metrics : Prometheus
prometheus_metrics = record {
  add_entry_points_labels = true;
  buckets = 1 ∷ 3 ∷ 12 ∷ 50 ∷ [];
  add_services_labels = true;
  entry_point = "metrics";
}

-- `NewTraefikConfig`
abbrev pub new_traefik_config : TraefikConfig
new_traefik_config = record {
  global = record { check_new_version = false; send_anonymous_usage = false };
  log = some (record { level = "DEBUG" });
  api = record { dashboard = true; debug = true; insecure = true };
  entry_points =
      ("primary", record { address = ":8090" })
      ∷ ("secondary", record { address = ":8091" })
      ∷ ("metrics", record { address = ":8092" })
      ∷ [];
  metrics = record { prometheus = some prometheus_metrics };
  providers = record {
    providers_throttle_duration = "120s";
    file =
        ("watch", Setting.switch true)
        ∷ ("filename", Setting.text "/etc/traefik/traefik.yaml")
        ∷ [];
    kubernetes_ingress = record empty_ingress_provider { ingress_class = "kom-operator" };
    kubernetes_crd = record empty_crd_provider { ingress_class = "kom-operator" };
  };
  servers_transport = record { forwarding_timeouts = forwarding };
  http = record { routers = []; services = [] };
  pilot = record { token = false; dashboard = false };
}
