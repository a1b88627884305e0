-- ===== src/Cluster/Config.antt =====
-- What `CreateRouter` and `RemoveRouter` keep of the stored configuration.
use mathlib.Core.Path.{subst₂}
use kom_operator.Prelude.{
  String, ◌≡◌, refl, sym, ◌∙◌, subst, Bool, true, false, Option, none, some, List, ◌∷◌, inl, inr,
}
use kom_operator.Errors.{Result, ok, err, is_not_found, ok_inj}
use kom_operator.Kube.{ConfigMap}
use kom_operator.Traefik.{TraefikConfig, Http}
use kom_operator.Platform.{Platform}
use kom_operator.Routes.{Route, add_routes, remove_routes}
use kom_operator.Exec.{
  Sys, Request, LoadBalancer, get_config_map, create_config_map, update_config_map,
  patch_deployment, send,
}
use kom_operator.Exec.Keeps.{
  Keeps, Any, OnSuccess, Keeps-bind, Keeps-try, Keeps-pure, Keeps-fail, Keeps-panic, Keeps-lift,
  Keeps-if, Keeps-send, Keeps-get_lb, Keeps-set_lb,
}
use kom_operator.LoadBalancer.{
  existing, find_existing_object, keep_config, load_config, config_of, send_config, write_config,
  now, reload_patch, reload_deployment,
}
use kom_operator.LoadBalancer.Controller.{
  raw_config, deref, read_config, create_router, reload_if, remove_router,
}
use kom_operator.Cluster.Laws.{Lawful, config_of_text, some_inj}
use kom_operator.Cluster.{world_after, requested, writes_config, ConfigStore, Copies, Written}

module _ {p : Platform} {namespace name : String} (store : ConfigStore p namespace name)
    {L R : ConfigMap → Type 0} {P : Http → Type 0} (law : Lawful p L R P) where
  abbrev I : Sys p → Type 0
  I = Copies store L R

  -- The load balancer as it is between two requests.
  abbrev pub Good : LoadBalancer → Type 0
  Good lb = (lb.namespace ≡ namespace) × (lb.config_name ≡ name) × L lb.config

  pub Holds-Good : (s : Sys p) → I s → Good s.lb
  Holds-Good s i = (i.namespace_kept, i.name_kept, i.local)

  pub set-Holds : (lb : LoadBalancer) → Good lb → (s : Sys p) → I s → I (record s { lb = lb })
  set-Holds lb (a, b, c) s i = record {
    namespace_kept = a;
    name_kept = b;
    local = c;
    remote = i.remote;
  }

  -- A request that writes no ConfigMap.
  pub leaves-Holds : (r : Request) (s : Sys p) → writes_config r ≡ false → I s → I (requested p r s)
  leaves-Holds r s h i = record {
    namespace_kept = i.namespace_kept;
    name_kept = i.name_kept;
    local = i.local;
    remote = λ c e. i.remote c (sym (store.leaves r s.world h) ∙ e);
  }

  Keeps-get_config_map :
      (n m : String)
      → n ≡ namespace
      → m ≡ name
      → Keeps I (send (get_config_map n m) (p.config_maps.get n m)) R
  unfolding world_after
  Keeps-get_config_map n m e e' =
      Keeps-send _ _ (λ s i. leaves-Holds (get_config_map n m) s refl i)
        (λ s i c h. i.remote c (
          store.replies s.world c
            (subst₂ (λ a b. (p.config_maps.get a b s.world).0 ≡ ok c) e e' h)))

  OnFound : Option ConfigMap → Type 0
  OnFound none = Unit
  OnFound (some c) = R c

  Keeps-existing : (reply : Result ConfigMap) → OnSuccess R reply → Keeps I (existing reply) OnFound
  unfolding OnFound
  Keeps-existing (ok c) h = Keeps-pure (some c) h
  Keeps-existing (err e) h = Keeps-if (is_not_found e) (λ _. Keeps-pure none tt) (λ _. Keeps-fail e)

  Keeps-keep_config :
      (lb : LoadBalancer) (found : Option ConfigMap)
      → Good lb
      → OnFound found
      → Keeps I (keep_config p lb found) Any
  unfolding keep_config OnFound
  Keeps-keep_config lb none good h = Keeps-pure tt tt
  Keeps-keep_config lb (some c) (a, b, _) h =
      Keeps-set_lb (record lb { config = c })
        (set-Holds (record lb { config = c }) (a, b, law.found c h))

  pub Keeps-load_config : Keeps I (load_config p) Any
  unfolding load_config find_existing_object
  Keeps-load_config = Keeps-bind (Keeps-get_lb Holds-Good) λ lb good.
      Keeps-bind
        (Keeps-bind (Keeps-try (Keeps-get_config_map lb.namespace lb.config_name good.0 good.1))
          Keeps-existing)
        λ found h. Keeps-keep_config lb found good h

  Keeps-deref :
      (o : Option TraefikConfig)
      → ((cfg : TraefikConfig) → o ≡ some cfg → P cfg.http)
      → Keeps I (deref p o) (λ (cfg : TraefikConfig). P cfg.http)
  unfolding deref
  Keeps-deref none h = Keeps-panic _
  Keeps-deref (some cfg) h = Keeps-pure cfg (h cfg refl)

  pub Keeps-read_config : Keeps I (read_config p) (λ (cfg : TraefikConfig). P cfg.http)
  unfolding read_config
  Keeps-read_config = Keeps-bind Keeps-load_config λ done _.
      Keeps-bind (Keeps-get_lb Holds-Good) λ lb good.
        Keeps-deref (p.unmarshal (raw_config lb.config))
          (λ cfg e. law.decoded lb.config cfg good.2 e)

  -- The server's and the process's copy after a write of a sound configuration.
  Written-holds :
      (c : ConfigMap) (reply : Result ConfigMap) (before later : Option ConfigMap)
      → Written c reply before later
      → R c
      → ((d : ConfigMap) → before ≡ some d → R d)
      → ((d : ConfigMap) → later ≡ some d → R d)
  Written-holds c (ok d) before later (e, same) h old d' e' =
      subst R (some_inj (sym e ∙ e')) (law.entries c d same h)
  Written-holds c (err x) before later (inl e) h old d' e' = old d' (sym e ∙ e')
  Written-holds c (err x) before later (inr (d, e, same)) h old d' e' =
      subst R (some_inj (sym e ∙ e')) (law.entries c d same h)

  reply_holds :
      (c : ConfigMap) (reply : Result ConfigMap) (before later : Option ConfigMap)
      → Written c reply before later
      → R c
      → (d : ConfigMap) → reply ≡ ok d
      → R d
  reply_holds c (ok x) before later (e, same) h d e' = subst R (ok_inj e') (law.entries c x same h)
  reply_holds c (err x) before later w h d e' = cc

  module _ (c : ConfigMap) (sound : R c) (ns : c.meta.namespace ≡ namespace)
      (n : c.meta.name ≡ name) where
    after_write :
        (r : Request) (call : p.World → Result ConfigMap × p.World) (s : Sys p)
        → Written c (call s.world).0 (store.held s.world) (store.held (call s.world).1)
        → I s
        → I (record s { world = (call s.world).1; sent = r ∷ s.sent })
    after_write r call s w i = record {
      namespace_kept = i.namespace_kept;
      name_kept = i.name_kept;
      local = i.local;
      remote = Written-holds c (call s.world).0 _ _ w sound i.remote;
    }

    Keeps-send_config : (update : Bool) → Keeps I (send_config p update c) R
    unfolding send_config
    Keeps-send_config true =
        Keeps-send _ _
          (λ s i.
            after_write (update_config_map c) (p.config_maps.update c) s
              (store.updates c s.world ns n) i)
          (λ s i d e. reply_holds c _ _ _ (store.updates c s.world ns n) sound d e)
    Keeps-send_config false =
        Keeps-send _ _
          (λ s i.
            after_write (create_config_map c) (p.config_maps.create c) s
              (store.creates c s.world ns n) i)
          (λ s i d e. reply_holds c _ _ _ (store.creates c s.world ns n) sound d e)

  pub config_of_names :
      (lb : LoadBalancer) (text : String)
      → ((config_of p lb text).meta.namespace ≡ lb.namespace)
        × ((config_of p lb text).meta.name ≡ lb.config_name)
  unfolding config_of
  config_of_names lb text = (refl, refl)

  pub Keeps-write_config :
      (cfg : TraefikConfig) (update : Bool) → P cfg.http → Keeps I (write_config p cfg update) Any
  unfolding write_config
  Keeps-write_config cfg update h =
      Keeps-bind (Keeps-lift {Q = λ text. p.marshal cfg ≡ ok text} (p.marshal cfg) (λ text e. e))
        λ text e. Keeps-bind (Keeps-get_lb Holds-Good) λ lb (a, b, _).
          let sound = law.text (config_of p lb text) cfg text (config_of_text p lb text) h e in
          let (ns, n) = config_of_names lb text in
          Keeps-bind
            (Keeps-set_lb (record lb { config = config_of p lb text })
              (set-Holds (record lb { config = config_of p lb text })
                (a, b, law.found (config_of p lb text) sound)))
            λ done _.
              Keeps-bind (Keeps-send_config (config_of p lb text) sound (ns ∙ a) (n ∙ b) update)
                λ stored sound'.
                  Keeps-set_lb (record lb { config = stored })
                    (set-Holds (record lb { config = stored }) (a, b, law.found stored sound'))

  Keeps-reload_deployment : Keeps I (reload_deployment p) Any
  unfolding reload_deployment now world_after
  Keeps-reload_deployment =
      Keeps-bind (record { state = λ s i. i; value = λ s i a e. tt })
        λ date _. Keeps-bind (Keeps-get_lb Holds-Good) λ lb good.
          Keeps-send _ _
            (λ s i. leaves-Holds (patch_deployment lb.deployment (reload_patch p date)) s refl i)
            (λ s i a e. tt)

  pub Keeps-create_router :
      (ns n : String) (routes : List Route)
      → ((h : Http) → P h → P (add_routes ns n routes h))
      → Keeps I (create_router p ns n routes) Any
  unfolding create_router
  Keeps-create_router ns n routes step = Keeps-bind Keeps-read_config λ cfg h.
      Keeps-bind
        (Keeps-write_config (record cfg { http = add_routes ns n routes cfg.http }) true
          (step cfg.http h))
        λ done _. Keeps-reload_deployment

  pub Keeps-reload_if : (reload : Bool) → Keeps I (reload_if p reload) Any
  unfolding reload_if
  Keeps-reload_if true = Keeps-reload_deployment
  Keeps-reload_if false = Keeps-pure tt tt

  pub Keeps-remove_router :
      (ns n : String) (reload : Bool)
      → ((h : Http) → P h → P (remove_routes ns n h))
      → Keeps I (remove_router p ns n reload) Any
  unfolding remove_router
  Keeps-remove_router ns n reload step = Keeps-bind Keeps-read_config λ cfg h.
      Keeps-bind
        (Keeps-write_config (record cfg { http = remove_routes ns n cfg.http }) true
          (step cfg.http h))
        λ done _. Keeps-reload_if reload
