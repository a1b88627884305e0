-- ===== src/Cluster/Isolation.antt =====
-- The objects that the requests of a reconciliation are about.
pub mod Routers
pub mod Reconciled
use kom_operator.Prelude.{String, ◌≡◌, refl, ap, sym, ◌∙◌, List, [], ◌∷◌, ◌++◌, All}
use kom_operator.Kube.{ConfigMap}
use kom_operator.Platform.{Platform}
use kom_operator.Exec.{
  Sys, Request, LoadBalancer, get_config_map, update_config_map, patch_deployment, get_microservice,
  get_deployment, get_service, get_scaler, get_pod, update_microservice, update_status,
  create_deployment, update_deployment, create_service, delete_service, create_config_map,
  create_scaler, update_scaler, delete_scaler,
}
use kom_operator.Exec.Keeps.{Keeps, Any}
use kom_operator.Routes.{Route}
use kom_operator.Controller.Reconcile.{reconcile}
use kom_operator.Controller.Reconcile.Kept.Interface.{Rules}
use kom_operator.Controller.Reconcile.Kept.{Keeps-reconcile}
use kom_operator.Cluster.{requested}
use kom_operator.Cluster.Names.{NamesKept, About, rules_of}

-- The object of this name in this namespace.
abbrev pub Own : String → String → String → String → Type 0
Own namespace name a b = (a ≡ namespace) × (b ≡ name)

-- A request about the microservice's own objects, or about the configuration or the deployment of
-- the load balancer.
abbrev pub Within : LoadBalancer → String → String → Request → Type 0
Within lb namespace name (get_config_map a b) = Own lb.namespace lb.config_name a b
Within lb namespace name (update_config_map c) =
    Own lb.namespace lb.config_name c.meta.namespace c.meta.name
Within lb namespace name (patch_deployment d patch) = d ≡ lb.deployment
Within lb namespace name r = About (Own namespace name) r

About-Within :
    (lb : LoadBalancer) (namespace name : String) (r : Request)
    → About (Own namespace name) r
    → Within lb namespace name r
About-Within lb namespace name (get_config_map a b) h = absurd h
About-Within lb namespace name (update_config_map c) h = absurd h
About-Within lb namespace name (patch_deployment d patch) h = absurd h
About-Within lb namespace name _ h = h

-- Since `start` the system has sent only requests within these bounds, and the load balancer has
-- only got another configuration.
pub record Isolated {p : Platform} (namespace name : String) (start s : Sys p) : Type 0 where
  pub extra : List Request
  pub sent : s.sent ≡ extra ++ start.sent
  pub within : All (Within start.lb namespace name) extra
  pub same_lb : s.lb ≡ record start.lb { config = s.lb.config }

module _ {p : Platform} (namespace name : String) (start : Sys p) where
  pub request-Isolated :
      (r : Request) (w : p.World) (s : Sys p)
      → Within start.lb namespace name r
      → Isolated namespace name start s
      → Isolated namespace name start (record s { world = w; sent = r ∷ s.sent })
  request-Isolated r w s h i = record {
    extra = r ∷ i.extra;
    sent = ap (λ rs. r ∷ rs) i.sent;
    within = (h, i.within);
    same_lb = i.same_lb;
  }

  pub own-Isolated :
      (r : Request) (s : Sys p)
      → About (Own namespace name) r
      → Isolated namespace name start s
      → Isolated namespace name start (requested p r s)
  own-Isolated r s h i = request-Isolated r _ s (About-Within start.lb namespace name r h) i
