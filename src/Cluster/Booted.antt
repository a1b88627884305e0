-- ===== src/Cluster/Booted.antt =====
-- A new process: the load balancer that `InitLoadBalancer` makes.
use kom_operator.Prelude.{String, ◌≡◌, refl, ap, ◌∙◌, none}
use kom_operator.Dict.{get}
use kom_operator.Platform.{Platform}
use kom_operator.Exec.{LoadBalancer, returns}
use kom_operator.LoadBalancer.Init.{init_load_balancer, init_load_balancer_config, empty_config}
use kom_operator.LoadBalancer.Controller.{raw_config, text_or_empty}
use kom_operator.Cluster.{ConfigStore}
use kom_operator.Cluster.Steps.{IsFresh}

raw_empty : raw_config empty_config ≡ ""
unfolding raw_config text_or_empty get
raw_empty = refl

pub init-IsFresh :
    {p : Platform} (title : String) (lb : LoadBalancer)
    (store : ConfigStore p lb.namespace lb.config_name)
    → init_load_balancer p title none ≡ returns lb
    → p.unmarshal "" ≡ none
    → IsFresh store lb
init-IsFresh {p = p} title lb store init empty = record {
  namespace_fresh = refl;
  name_fresh = refl;
  no_config =
      ap (λ c. p.unmarshal (raw_config c)) (init_load_balancer_config p title lb init)
      ∙ (ap p.unmarshal raw_empty ∙ empty);
}
