-- ===== src/Tests/Cart.antt =====
-- The microservice `cart` in `shop`, and the system that it is in.
use kom_operator.Prelude.{String, none, some, [], ◌∷◌, pos}
use kom_operator.Kube.{ContainerPort, ResourceRequirements, ObjectMeta, Deployment, ConfigMap}
use kom_operator.Api.{Microservice, Routing, Status}
use kom_operator.Tests.Demo.{Replies, demo}
use kom_operator.LoadBalancer.{traefik_config_file_name}
use kom_operator.Exec.{Sys, LoadBalancer}
use kom_operator.Controller.Reconcile.{finalizer_name}

abbrev pub cart_meta : ObjectMeta
cart_meta = record {
  name = "cart";
  namespace = "shop";
  annotations = [];
  labels = [];
  owner_references = [];
  finalizers = some (finalizer_name ∷ []);
  deletion_timestamp = some "12:00";
  generation = pos 1;
}

abbrev pub web_port : ContainerPort
web_port = record {
  name = "web";
  host_port = pos 0;
  container_port = pos 80;
  protocol = "TCP";
  host_ip = "";
}

abbrev pub no_resources : ResourceRequirements
no_resources = record { limits = none; requests = none; claims = none }

abbrev pub cart_routing : Routing
cart_routing = record { http = some (record { port = web_port; rule = "Path(`/`)" } ∷ []) }

abbrev pub cart : Microservice
cart = record {
  type_meta = record { kind = "Microservice"; api_version = "kom.kaiso.github.io/v1alpha1" };
  meta = cart_meta;
  spec = record {
    container = record {
      image = "cart:1";
      command = none;
      args = none;
      routing = cart_routing;
      image_pull_policy = "";
      volume_mounts = [];
      resources = no_resources;
    };
    autoscaling = record { scaler = []; max = pos 1; min = pos 1 };
    volumes = [];
    service_account_name = "";
    node_selector = [];
    security_context = none;
  };
  status = record {
    routing = record { http = none };
    status = Status.unset;
    last_update = "";
    reason = "";
  };
}

abbrev pub config_map : String → ConfigMap
config_map text = record { meta = cart_meta; entries = (traefik_config_file_name, text) ∷ [] }

abbrev pub lb_deployment : Deployment
lb_deployment = record {
  type_meta = cart.type_meta;
  meta = cart_meta;
  replicas = none;
  selector = [];
  template_labels = [];
  pod = record {
    containers = [];
    volumes = [];
    service_account_name = "";
    node_selector = [];
    security_context = none;
  };
}

abbrev pub load_balancer : LoadBalancer
load_balancer = record {
  name = "kom-loadbalancer";
  namespace = "kom";
  config_name = "kom-loadbalancer";
  config = config_map "idle";
  owner = none;
  deployment = lb_deployment;
}

-- The server holds the configuration with this text.
abbrev pub system : (r : Replies) → String → Sys (demo r)
system r text = record { world = config_map text; sent = []; lb = load_balancer }
