-- ===== src/LoadBalancer/Controller/Held.antt =====
-- The configuration that the load balancer holds after a change.
use kom_operator.Prelude.{
  String, ◌≡◌, refl, ap, sym, ◌∙◌, Bool, true, false, none, some, List, arith,
}
use kom_operator.Text.{contains}
use kom_operator.Dict.{get}
use kom_operator.Errors.{ok}
use kom_operator.Kube.{ConfigMap}
use kom_operator.Traefik.{TraefikConfig, Http}
use kom_operator.Platform.{Platform}
use kom_operator.Exec.{Sys, LoadBalancer}
use kom_operator.Exec.Inversion.{Returns}
use kom_operator.Routes.{Route, is_internal, router_prefix, add_routes, remove_routes}
use kom_operator.Routes.Create.{
  or_else, wanted_router, wanted_service, get-add_routes-routers, get-add_routes-services,
}
use kom_operator.Routes.Remove.{get-remove_routes-services}
use kom_operator.Routes.Lifecycle.{IsServed, get-remove_routes, remove_routes-IsServed}
use kom_operator.LoadBalancer.{config_of, traefik_config_file_name}
use kom_operator.LoadBalancer.Controller.{raw_config, text_or_empty, create_router, remove_router}
use kom_operator.LoadBalancer.Controller.Branches.{loaded, answer}
use kom_operator.LoadBalancer.Controller.Stored.{
  Changed, create_router-Changed, remove_router-Changed,
}

-- The documented behaviour of the parts that the operator does not implement: `Unmarshal` reads
-- what `Marshal` wrote, and the API server stores the entries of a ConfigMap as they were sent.
pub record StoresConfigs (p : Platform) : Type 0 where
  pub reads_back :
      (cfg : TraefikConfig) (text : String) → p.marshal cfg ≡ ok text → p.unmarshal text ≡ some cfg
  pub stores :
      (c d : ConfigMap) (w : p.World) → (p.config_maps.update c w).0 ≡ ok d → d.entries ≡ c.entries

-- The load balancer holds a configuration with this routing.
pub record Holds (p : Platform) (lb : LoadBalancer) (http : Http) : Type 0 where
  pub cfg : TraefikConfig
  pub decoded : p.unmarshal (raw_config lb.config) ≡ some cfg
  pub routing : cfg.http ≡ http

module _ {p : Platform} (v : StoresConfigs p) where
  raw_of_entries : (c d : ConfigMap) → c.entries ≡ d.entries → raw_config c ≡ raw_config d
  unfolding raw_config
  raw_of_entries c d e = ap (λ es. text_or_empty (get traefik_config_file_name es)) e

  raw_config_of : (lb : LoadBalancer) (text : String) → raw_config (config_of p lb text) ≡ text
  unfolding raw_config config_of get
  raw_config_of lb text = refl

  pub Changed-Holds :
      (f : Http → Http) (s t : Sys p) (c : Changed f s t) → Holds p t.lb (f c.cfg.http)
  Changed-Holds f s t c = record {
    cfg = record c.cfg { http = f c.cfg.http };
    decoded =
        ap p.unmarshal (
          ap (λ lb. raw_config lb.config) c.kept_lb
          ∙ (raw_of_entries _ _ (v.stores _ _ c.read.world c.stored.kept)
              ∙ raw_config_of c.read.lb c.stored.content))
        ∙ v.reads_back _ _ c.stored.marshalled;
    routing = refl;
  }

  module _ (namespace service : String) (external : is_internal service ≡ false) (s t : Sys p) where
    -- For a service that is not internal, when `RemoveRouter` returns and in the configuration
    -- that it read every router led to a service under its own key, the load balancer holds a
    -- configuration of which that is still true, and in which no router and no service stands
    -- under a key that contains the prefix of the microservice.
    pub remove_router_clears :
        (reload : Bool) (h : Returns (remove_router p namespace service reload) s tt t)
        → IsServed (remove_router-Changed namespace service reload s t h).cfg.http
        → (http : Http) × Holds p t.lb http
          × IsServed http
          × ((k : String)
              → contains k (router_prefix namespace service) ≡ true
              → (get k http.routers ≡ none) × (get k http.services ≡ none))
    remove_router_clears reload h served =
        let c = remove_router-Changed namespace service reload s t h in
        (
          remove_routes namespace service c.cfg.http,
          Changed-Holds (remove_routes namespace service) s t c,
          remove_routes-IsServed namespace service external c.cfg.http served,
          λ k own. (
            ground (arith, own, get-remove_routes namespace service external c.cfg.http served k),
            ground (arith, own, get-remove_routes-services namespace service k c.cfg.http external),
          ),
        )

    -- For a service that is not internal, when `CreateRouter` returns, the configuration that the
    -- server answered, or that the process held if the server has none, decodes, and the load
    -- balancer now holds, under every key, the router and the service that stand there in it, and
    -- where there was none those that the first route with this key asks for.
    pub create_router_adds :
        (routes : List Route)
        → Returns (create_router p namespace service routes) s tt t
        → (cfg : TraefikConfig) × (p.unmarshal (raw_config (loaded (answer s) s.lb.config))
            ≡ some cfg)
          × (http : Http) × Holds p t.lb http
          × ((k : String)
              → (get k http.routers
                  ≡ or_else (get k cfg.http.routers) (wanted_router namespace service k routes))
                × (get k http.services
                    ≡ or_else
                        (get k cfg.http.services)
                        (wanted_service namespace service k routes)))
    create_router_adds routes h =
        let c = create_router-Changed namespace service routes s t h in
        (
          c.cfg,
          ap (λ m. p.unmarshal (raw_config m)) (sym c.answered) ∙ c.decoded,
          add_routes namespace service routes c.cfg.http,
          Changed-Holds (add_routes namespace service routes) s t c,
          λ k. (
            get-add_routes-routers namespace service k routes c.cfg.http,
            get-add_routes-services namespace service k routes c.cfg.http external,
          ),
        )
