-- ===== src/Tests/ClusterWitnesses.antt =====
-- The theorems on the system, at concrete inputs.
use kom_operator.Prelude.{◌≡◌, refl, false, none, some}
use kom_operator.Text.{has_prefix, contains}
use kom_operator.Api.{Microservice}
use kom_operator.Exec.{Sys, LoadBalancer, returns}
use kom_operator.Util.Env.{is_run_mode_local}
use kom_operator.Routes.{is_internal}
use kom_operator.Routes.Lifecycle.{IsServed}
use kom_operator.LoadBalancer.Controller.{raw_config}
use kom_operator.LoadBalancer.Init.{
  init_load_balancer, init_in, empty_config, empty_deployment, new_load_balancer,
}
use kom_operator.LoadBalancer.Deploy.{start}
use kom_operator.Controller.Reconcile.{reconcile}
use kom_operator.Cluster.{ConfigStore, Satisfies}
use kom_operator.Cluster.Steps.{Step, Reach, boot}
use kom_operator.Cluster.Served.{IsExternal, Reach-IsServed}
use kom_operator.Cluster.Isolation.{Isolated}
use kom_operator.Cluster.Isolation.Reconciled.{reconcile-Isolated}
use kom_operator.Tests.Demo.{Replies, demo, replies, unmarshal-IsServed}
use kom_operator.Tests.DemoLaws.{
  with_one, with_one_names, in_mode, in_mode_names, demo_store, demo_configs,
}
use kom_operator.Tests.Cart.{cart, system, config_map}

-- The microservice `cat`, which is new.
abbrev cat : Microservice
cat = record cart {
  meta = record cart.meta { name = "cat"; finalizers = none; deletion_timestamp = none };
}

reconcile-Isolated_example :
    Isolated "shop" "cat"
      (system (with_one cat) "busy")
      (reconcile (demo (with_one cat)) "shop" "cat" (system (with_one cat) "busy")).1
reconcile-Isolated_example =
    reconcile-Isolated (with_one_names cat) "shop" "cat" (system (with_one cat) "busy")

cat_external : is_internal "cat" ≡ false
unfolding is_internal contains has_prefix
cat_external = refl

-- The operator outside a cluster.
abbrev local : Replies
local = in_mode "local"

abbrev local_process : LoadBalancer
local_process = record {
  name = "kom-loadbalancer";
  namespace = "default";
  config_name = "kom-operator-lbconfig";
  config = empty_config;
  owner = none;
  deployment = empty_deployment;
}

local_init : init_load_balancer (demo local) "kom-loadbalancer" none ≡ returns local_process
unfolding init_load_balancer init_in new_load_balancer is_run_mode_local
local_init = refl

abbrev local_store : ConfigStore (demo local) local_process.namespace local_process.config_name
local_store = demo_store local "default" "kom-operator-lbconfig" (λ c. refl)

abbrev started : Sys (demo local)
started = (start (demo local) (boot local_process (config_map "busy"))).1

abbrev with_cat : Sys (demo local)
with_cat = (reconcile (demo local) "shop" "cat" started).1

local_path :
    Reach local_store IsExternal local_process (boot local_process (config_map "busy")) with_cat
local_path =
    Reach.next (Reach.next Reach.here Step.restarts) (Step.reconciles "shop" "cat" cat_external)

Reach-IsServed_example : Satisfies local_store IsServed with_cat
Reach-IsServed_example =
    Reach-IsServed "kom-loadbalancer" local_process local_store (config_map "busy") with_cat
      (demo_configs replies.microservice (λ name. some "local")) (in_mode_names "local") local_init
      refl (λ c held cfg e. unmarshal-IsServed (raw_config c) cfg e) local_path
