-- ===== src/Cluster/Isolation/Routers.antt =====
-- The requests of `CreateRouter` and `RemoveRouter`.
use kom_operator.Prelude.{String, ◌≡◌, ap, Bool, true, false, Option, none, some, List}
use kom_operator.Errors.{Result, ok, err, is_not_found}
use kom_operator.Kube.{ConfigMap}
use kom_operator.Traefik.{TraefikConfig}
use kom_operator.Platform.{Platform}
use kom_operator.Routes.{Route, add_routes, remove_routes}
use kom_operator.Exec.{
  Sys, LoadBalancer, get_config_map, update_config_map, patch_deployment, get_lb,
}
use kom_operator.Exec.Keeps.{
  Keeps, Any, Keeps-bind, Keeps-try, Keeps-pure, Keeps-fail, Keeps-panic, Keeps-lift, Keeps-if,
  Keeps-send, Keeps-get_lb, Keeps-set_lb,
}
use kom_operator.LoadBalancer.{
  existing, find_existing_object, keep_config, load_config, config_of, send_config, write_config,
  now, reload_patch, reload_deployment,
}
use kom_operator.LoadBalancer.Controller.{
  raw_config, deref, read_config, create_router, reload_if, remove_router,
}
use kom_operator.Cluster.Isolation.{Isolated, Own, request-Isolated}

module _ {p : Platform} (namespace name : String) (start : Sys p) where
  abbrev I : Sys p → Type 0
  I = Isolated namespace name start

  -- The load balancer of the start, but for its configuration.
  abbrev IsSame : LoadBalancer → Type 0
  IsSame lb = lb ≡ record start.lb { config = lb.config }

  set-Isolated :
      (lb : LoadBalancer) (c : ConfigMap)
      → IsSame lb
      → (s : Sys p) → I s
      → I (record s { lb = record lb { config = c } })
  set-Isolated lb c same s i = record {
    extra = i.extra;
    sent = i.sent;
    within = i.within;
    same_lb = ap (λ (x : LoadBalancer). record x { config = c }) same;
  }

  Keeps-IsSame : Keeps I get_lb IsSame
  Keeps-IsSame = Keeps-get_lb (λ s i. i.same_lb)

  Keeps-keep_config :
      (lb : LoadBalancer) (found : Option ConfigMap)
      → IsSame lb
      → Keeps I (keep_config p lb found) Any
  unfolding keep_config
  Keeps-keep_config lb none same = Keeps-pure tt tt
  Keeps-keep_config lb (some c) same =
      Keeps-set_lb (record lb { config = c }) (set-Isolated lb c same)

  Keeps-existing : (reply : Result ConfigMap) → Keeps I (existing reply) Any
  Keeps-existing (ok c) = Keeps-pure (some c) tt
  Keeps-existing (err e) = Keeps-if (is_not_found e) (λ _. Keeps-pure none tt) (λ _. Keeps-fail e)

  own_names :
      (lb : LoadBalancer)
      → IsSame lb
      → Own start.lb.namespace start.lb.config_name lb.namespace lb.config_name
  own_names lb same = (ap (λ x. x.namespace) same, ap (λ x. x.config_name) same)

  Keeps-load_config : Keeps I (load_config p) Any
  unfolding load_config find_existing_object
  Keeps-load_config = Keeps-bind Keeps-IsSame λ lb same.
      Keeps-bind
        (Keeps-bind
          (Keeps-try (
            Keeps-send {Q = Any} _ _
              (λ s i.
                request-Isolated namespace name start (get_config_map lb.namespace lb.config_name) _
                  s (own_names lb same) i)
              (λ s i a e. tt)))
          (λ reply _. Keeps-existing reply))
        λ found _. Keeps-keep_config lb found same

  Keeps-deref : (o : Option TraefikConfig) → Keeps I (deref p o) Any
  unfolding deref
  Keeps-deref none = Keeps-panic _
  Keeps-deref (some cfg) = Keeps-pure cfg tt

  Keeps-read_config : Keeps I (read_config p) Any
  unfolding read_config
  Keeps-read_config =
      Keeps-bind Keeps-load_config λ done _.
        Keeps-bind Keeps-IsSame λ lb same. Keeps-deref (p.unmarshal (raw_config lb.config))

  Keeps-update_config :
      (lb : LoadBalancer) (text : String)
      → IsSame lb
      → Keeps I (send_config p true (config_of p lb text)) Any
  unfolding send_config config_of
  Keeps-update_config lb text same =
      Keeps-send _ _
        (λ s i.
          request-Isolated namespace name start (update_config_map (config_of p lb text)) _ s
            (own_names lb same) i)
        (λ s i a e. tt)

  Keeps-write_config : (cfg : TraefikConfig) → Keeps I (write_config p cfg true) Any
  unfolding write_config
  Keeps-write_config cfg = Keeps-bind (Keeps-lift {Q = Any} (p.marshal cfg) (λ a e. tt)) λ text _.
      Keeps-bind Keeps-IsSame λ lb same.
        Keeps-bind
          (Keeps-set_lb (record lb { config = config_of p lb text })
            (set-Isolated lb (config_of p lb text) same))
          λ done _.
            Keeps-bind (Keeps-update_config lb text same)
              λ stored _. Keeps-set_lb (record lb { config = stored }) (set-Isolated lb stored same)

  Keeps-reload_deployment : Keeps I (reload_deployment p) Any
  unfolding reload_deployment now
  Keeps-reload_deployment =
      Keeps-bind (record { state = λ s i. i; value = λ s i a e. tt })
        λ date _. Keeps-bind Keeps-IsSame λ lb same.
          Keeps-send _ _
            (λ s i.
              request-Isolated namespace name start
                (patch_deployment lb.deployment (reload_patch p date)) _ s
                (ap (λ x. x.deployment) same) i)
            (λ s i a e. tt)

  pub Keeps-create_router :
      (ns n : String) (routes : List Route) → Keeps I (create_router p ns n routes) Any
  unfolding create_router
  Keeps-create_router ns n routes = Keeps-bind Keeps-read_config λ cfg _.
      Keeps-bind (Keeps-write_config (record cfg { http = add_routes ns n routes cfg.http }))
        λ done _. Keeps-reload_deployment

  Keeps-reload_if : (reload : Bool) → Keeps I (reload_if p reload) Any
  unfolding reload_if
  Keeps-reload_if true = Keeps-reload_deployment
  Keeps-reload_if false = Keeps-pure tt tt

  pub Keeps-remove_router :
      (ns n : String) (reload : Bool) → Keeps I (remove_router p ns n reload) Any
  unfolding remove_router
  Keeps-remove_router ns n reload = Keeps-bind Keeps-read_config λ cfg _.
      Keeps-bind (Keeps-write_config (record cfg { http = remove_routes ns n cfg.http }))
        λ done _. Keeps-reload_if reload
