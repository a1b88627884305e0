-- ===== src/Tests/StartWitnesses.antt =====
-- The theorem on the start of the load balancer, outside a cluster.
use kom_operator.Prelude.{◌≡◌, refl, subst, some, none, true}
use kom_operator.Dict.{get}
use kom_operator.Kube.{ConfigMap}
use kom_operator.Exec.{
  Sys, LoadBalancer, returns, pure, panic, get_lb, set_lb, send, try, lift, ◌>>=◌,
}
use kom_operator.Util.Env.{is_run_mode_local}
use kom_operator.LoadBalancer.{find_existing_object, keep_config, load_config}
use kom_operator.LoadBalancer.Controller.{raw_config, text_or_empty, create_router, remove_router}
use kom_operator.LoadBalancer.Controller.Early.{
  nil_dereference, started, asked, early_routers_panic,
}
use kom_operator.Platform.{Platform}
use kom_operator.LoadBalancer.Deploy.{
  must, or_panic, create_config, start, find_owner, keep_deployment, create_or_update,
  deploy_load_balancer, deploy_load_balancer_service, create_missing_service,
}
use kom_operator.LoadBalancer.Init.{
  init_load_balancer, init_in, empty_config, empty_deployment, new_load_balancer,
}
use kom_operator.Cluster.{ConfigStore, Holds}
use kom_operator.Cluster.Laws.{Decodes, some_inj}
use kom_operator.Cluster.Steps.{boot}
use kom_operator.Cluster.Started.{start-Decodes}
use kom_operator.Tests.Demo.{Replies, demo, replies, busy, refused}
use kom_operator.Tests.DemoLaws.{in_mode, demo_store, demo_configs}
use kom_operator.Tests.Cart.{config_map}
use kom_operator.Tests.Runs.{cart_route}

abbrev outside : Replies
outside = in_mode "local"

abbrev fresh : LoadBalancer
fresh = record {
  name = "kom-loadbalancer";
  namespace = "default";
  config_name = "kom-operator-lbconfig";
  config = empty_config;
  owner = none;
  deployment = empty_deployment;
}

fresh_init : init_load_balancer (demo outside) "kom-loadbalancer" none ≡ returns fresh
unfolding init_load_balancer init_in new_load_balancer is_run_mode_local
fresh_init = refl

abbrev outside_store : ConfigStore (demo outside) "default" "kom-operator-lbconfig"
outside_store = demo_store outside "default" "kom-operator-lbconfig" (λ c. refl)

abbrev running : Sys (demo outside)
running = (start (demo outside) (boot fresh (config_map "busy"))).1

runs : start (demo outside) (boot fresh (config_map "busy")) ≡ (returns tt, running)
unfolding start must or_panic create_config find_owner keep_deployment create_or_update
    deploy_load_balancer deploy_load_balancer_service create_missing_service is_run_mode_local
    find_existing_object keep_config load_config pure panic get_lb set_lb send try lift ◌>>=◌
runs = refl

abbrev Readable : ConfigMap → Type 0
Readable c = Decodes (demo outside) c

held-Readable : (c : ConfigMap) → outside_store.held (config_map "busy") ≡ some c → Readable c
unfolding demo_store raw_config text_or_empty get
held-Readable c e = subst Readable (some_inj e) (busy, refl)

start-Decodes_example : Holds outside_store Readable running
start-Decodes_example =
    start-Decodes "kom-loadbalancer" fresh outside_store (config_map "busy") running
      (demo_configs replies.microservice (λ name. some "local")) fresh_init held-Readable runs

-- A cluster that has no ConfigMap of the load balancer.
abbrev new_cluster : Platform
new_cluster = record (demo outside) {
  config_maps = record (demo outside).config_maps { get = λ namespace name w. (refused, w) };
}

fresh_in_new_cluster : init_load_balancer new_cluster "kom-loadbalancer" none ≡ returns fresh
unfolding init_load_balancer init_in new_load_balancer is_run_mode_local
fresh_in_new_cluster = refl

early_routers_panic_example :
    (create_router new_cluster "shop" "cart" cart_route (started fresh empty_config)
      ≡ (nil_dereference, asked fresh empty_config))
    × (remove_router new_cluster "shop" "cart" true (started fresh empty_config)
        ≡ (nil_dereference, asked fresh empty_config))
early_routers_panic_example =
    early_routers_panic "kom-loadbalancer" fresh fresh_in_new_cluster refl "no such object"
      empty_config empty_config refl "shop" "cart" cart_route true
