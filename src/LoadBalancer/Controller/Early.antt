-- ===== src/LoadBalancer/Controller/Early.antt =====
-- Routers before `Start` has stored a configuration: the manager starts the load balancer and the
-- controller together, and `Start` does not take the mutex.
use kom_operator.Prelude.{String, ◌≡◌, refl, Bool, none, List, [], ◌∷◌}
use kom_operator.Dict.{get}
use kom_operator.Errors.{err, not_found}
use kom_operator.Platform.{Platform}
use kom_operator.Routes.{Route}
use kom_operator.Exec.{
  Sys, LoadBalancer, Outcome, returns, panics, get_config_map, pure, panic, get_lb, send, try,
  ◌>>=◌,
}
use kom_operator.LoadBalancer.{find_existing_object, keep_config, load_config}
use kom_operator.LoadBalancer.Controller.{
  text_or_empty, raw_config, deref, read_config, create_router, remove_router,
}
use kom_operator.LoadBalancer.Init.{empty_config, init_load_balancer, init_load_balancer_config}

abbrev pub nil_dereference : {A : Type 0} → Outcome A
nil_dereference = panics "invalid memory address or nil pointer dereference"

module _ {p : Platform} where
  -- A new process, and the same after its one request.
  abbrev pub started : LoadBalancer → p.World → Sys p
  started lb w = record { world = w; sent = []; lb = lb }

  abbrev pub asked : LoadBalancer → p.World → Sys p
  asked lb w = record { world = w; sent = get_config_map lb.namespace lb.config_name ∷ []; lb = lb }

  read_missing_config :
      (s : Sys p) (reply : String) (world : p.World)
      → s.lb.config ≡ empty_config
      → p.unmarshal "" ≡ none
      → p.config_maps.get s.lb.namespace s.lb.config_name s.world ≡ (err (not_found reply), world)
      → read_config p s ≡ (
        nil_dereference,
        record s { world = world; sent = get_config_map s.lb.namespace s.lb.config_name ∷ s.sent },
      )
  unfolding read_config load_config find_existing_object keep_config get_lb send try ◌>>=◌ pure
      raw_config text_or_empty get deref panic
  read_missing_config s reply world fresh empty missing = rw (missing, fresh, empty) refl

  -- In a new process, whose load balancer `InitLoadBalancer` made, while the server has no
  -- ConfigMap of the load balancer, as before the first `Start` in a cluster has stored one,
  -- `CreateRouter` and `RemoveRouter` panic with a nil dereference after the one request for the
  -- ConfigMap. The empty text decodes to no configuration.
  pub early_routers_panic :
      (title : String) (lb : LoadBalancer)
      → init_load_balancer p title none ≡ returns lb
      → p.unmarshal "" ≡ none
      → (reply : String) (w world : p.World)
      → p.config_maps.get lb.namespace lb.config_name w ≡ (err (not_found reply), world)
      → (namespace service : String) (routes : List Route) (reload : Bool)
      → (create_router p namespace service routes (started lb w)
          ≡ (nil_dereference, asked lb world))
        × (remove_router p namespace service reload (started lb w)
            ≡ (nil_dereference, asked lb world))
  unfolding create_router remove_router ◌>>=◌
  early_routers_panic title lb made empty reply w world missing namespace service routes reload =
      let read =
        read_missing_config (started lb w) reply world (init_load_balancer_config p title lb made)
          empty missing in
      (rw read refl, rw read refl)
