-- ===== src/LoadBalancer/Init.antt =====
-- process/loadbalancer.go: the one instance of the load balancer.
use kom_operator.Prelude.{◌≡◌, String, Bool, true, false, Option, none, some, [], pos}
use kom_operator.Kube.{ConfigMap, Deployment, ObjectMeta}
use kom_operator.Platform.{Platform}
use kom_operator.Exec.{LoadBalancer, Outcome, returns, panics}
use kom_operator.Util.Env.{is_run_mode_local, get_operator_namespace}

-- The zero values of the objects, as `new(LoadBalancer)` has them.
abbrev pub empty_meta : ObjectMeta
empty_meta = record {
  name = "";
  namespace = "";
  annotations = [];
  labels = [];
  owner_references = [];
  finalizers = none;
  deletion_timestamp = none;
  generation = pos 0;
}

abbrev pub empty_config : ConfigMap
empty_config = record { meta = empty_meta; entries = [] }

abbrev pub empty_deployment : Deployment
empty_deployment = record {
  type_meta = record { kind = ""; api_version = "" };
  meta = empty_meta;
  replicas = none;
  selector = [];
  template_labels = [];
  pod = record {
    containers = [];
    volumes = [];
    service_account_name = "";
    node_selector = [];
    security_context = none;
  };
}

module _ (p : Platform) where
  unfoldable pub new_load_balancer : String → String → LoadBalancer
  new_load_balancer name namespace = record {
    name = name;
    namespace = namespace;
    config_name = "kom-operator-lbconfig";
    config = empty_config;
    owner = none;
    deployment = empty_deployment;
  }

  unfoldable pub init_in : String → Option Bool → Outcome LoadBalancer
  init_in name none = panics " run mode environment variable not defined"
  init_in name (some true) = returns (new_load_balancer name "default")
  init_in name (some false) = returns (new_load_balancer name (get_operator_namespace p))

  -- `InitLoadBalancer`: `once` lets the first call alone set the instance.
  unfoldable pub init_load_balancer : String → Option LoadBalancer → Outcome LoadBalancer
  init_load_balancer name (some instance) = returns instance
  init_load_balancer name none = init_in name (is_run_mode_local p)

module _ (p : Platform) where
  init_in_config :
      (title : String) (mode : Option Bool) (lb : LoadBalancer)
      → init_in p title mode ≡ returns lb
      → lb.config ≡ empty_config
  unfolding init_in new_load_balancer
  init_in_config title none lb e = cc
  init_in_config title (some true) lb e = cc
  init_in_config title (some false) lb e = cc

  pub init_load_balancer_config :
      (title : String) (lb : LoadBalancer)
      → init_load_balancer p title none ≡ returns lb
      → lb.config ≡ empty_config
  unfolding init_load_balancer
  init_load_balancer_config title lb e = init_in_config title (is_run_mode_local p) lb e
