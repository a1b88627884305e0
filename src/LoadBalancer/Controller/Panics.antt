-- ===== src/LoadBalancer/Controller/Panics.antt =====
-- When `CreateRouter` and `RemoveRouter` panic.
use kom_operator.Prelude.{
  String, Bool, true, false, Option, none, some, List, ◌≡◌, refl, ap, sym, ◌∙◌,
}
use kom_operator.Errors.{Result, ok, err, is_not_found}
use kom_operator.Kube.{ConfigMap}
use kom_operator.Traefik.{TraefikConfig}
use kom_operator.Platform.{Platform}
use kom_operator.Routes.{Route}
use kom_operator.Exec.{Sys, LoadBalancer}
use kom_operator.Exec.Inversion.{get_lb-Returns}
use kom_operator.Exec.Panics.{
  PanicsIn, PanicsIn-bind, PanicsIn-try, PanicsIn-pure, PanicsIn-fail, PanicsIn-get_lb,
  PanicsIn-set_lb, PanicsIn-lift, PanicsIn-send, PanicsIn-panic, PanicsIn-if, PanicsIn-returns,
}
use kom_operator.LoadBalancer.{
  existing, find_existing_object, keep_config, load_config, config_of, send_config, write_config,
  now, reload_deployment,
}
use kom_operator.LoadBalancer.Controller.{
  raw_config, deref, read_config, create_router, reload_if, remove_router,
}

module _ {p : Platform} where
  -- The configuration that the process holds cannot be decoded.
  abbrev pub Undecoded : Sys p → Type 0
  Undecoded s = p.unmarshal (raw_config s.lb.config) ≡ none

  module _ (B : Sys p → Type 0) (undecoded : (s : Sys p) → Undecoded s → B s) where
    existing_panics : {A : Type 0} {s : Sys p} (r : Result A) → PanicsIn B (existing r) s
    existing_panics (ok a) = PanicsIn-pure (some a)
    existing_panics (err e) =
        PanicsIn-if (is_not_found e) (λ _. PanicsIn-pure none) (λ _. PanicsIn-fail e)

    keep_config_panics :
        {s : Sys p} (lb : LoadBalancer) (c : Option ConfigMap) → PanicsIn B (keep_config p lb c) s
    unfolding keep_config
    keep_config_panics lb none = PanicsIn-pure tt
    keep_config_panics lb (some c) = PanicsIn-set_lb (record lb { config = c })

    load_config_panics : {s : Sys p} → PanicsIn B (load_config p) s
    unfolding load_config find_existing_object
    load_config_panics = PanicsIn-bind (PanicsIn-get_lb) λ lb u _.
        PanicsIn-bind
          (PanicsIn-bind (PanicsIn-try (PanicsIn-send _ _)) (λ r v _. existing_panics r))
          λ found v _. keep_config_panics lb found

    deref_panics :
        {s : Sys p} (cfg : Option TraefikConfig)
        → p.unmarshal (raw_config s.lb.config) ≡ cfg
        → PanicsIn B (deref p cfg) s
    unfolding deref
    deref_panics {s = s} none e = PanicsIn-panic _ (undecoded s e)
    deref_panics (some cfg) e = PanicsIn-pure cfg

    read_config_panics : {s : Sys p} → PanicsIn B (read_config p) s
    unfolding read_config
    read_config_panics = PanicsIn-bind load_config_panics λ done u _.
        PanicsIn-bind (PanicsIn-get_lb) λ lb v got.
          let (same, kept) = get_lb-Returns u lb v got in
          deref_panics (p.unmarshal (raw_config lb.config)) (
            ap (λ (s : Sys p). p.unmarshal (raw_config s.lb.config)) kept
            ∙ ap (λ (x : LoadBalancer). p.unmarshal (raw_config x.config)) (sym same))

    send_config_panics :
        {s : Sys p} (update : Bool) (c : ConfigMap) → PanicsIn B (send_config p update c) s
    unfolding send_config
    send_config_panics true c = (PanicsIn-send _ _)
    send_config_panics false c = (PanicsIn-send _ _)

    write_config_panics :
        {s : Sys p} (cfg : TraefikConfig) (update : Bool) → PanicsIn B (write_config p cfg update) s
    unfolding write_config
    write_config_panics cfg update = PanicsIn-bind (PanicsIn-lift (p.marshal cfg)) λ content u _.
        PanicsIn-bind (PanicsIn-get_lb) λ lb v _.
          PanicsIn-bind (PanicsIn-set_lb (record lb { config = config_of p lb content }))
            λ done w _.
              PanicsIn-bind (send_config_panics update (config_of p lb content))
                λ stored x _. PanicsIn-set_lb (record lb { config = stored })

    reload_panics : {s : Sys p} → PanicsIn B (reload_deployment p) s
    unfolding reload_deployment now
    reload_panics =
        PanicsIn-bind (PanicsIn-returns refl)
          λ date u _. PanicsIn-bind (PanicsIn-get_lb) λ lb v _. (PanicsIn-send _ _)

    reload_if_panics : {s : Sys p} (reload : Bool) → PanicsIn B (reload_if p reload) s
    unfolding reload_if
    reload_if_panics true = reload_panics
    reload_if_panics false = PanicsIn-pure tt

    pub create_router_panics :
        {s : Sys p} (namespace service : String) (routes : List Route)
        → PanicsIn B (create_router p namespace service routes) s
    unfolding create_router
    create_router_panics namespace service routes =
        PanicsIn-bind read_config_panics
          λ cfg u _. PanicsIn-bind (write_config_panics _ true) λ done v _. reload_panics

    pub remove_router_panics :
        {s : Sys p} (namespace service : String) (reload : Bool)
        → PanicsIn B (remove_router p namespace service reload) s
    unfolding remove_router
    remove_router_panics namespace service reload =
        PanicsIn-bind read_config_panics
          λ cfg u _. PanicsIn-bind (write_config_panics _ true) λ done v _. reload_if_panics reload
