-- ===== src/LoadBalancer/Controller/Stored.antt =====
-- What `CreateRouter` and `RemoveRouter` have stored when they return.
use kom_operator.Prelude.{
  String, ◌≡◌, ap, sym, subst, ◌∙◌, Bool, true, false, some, List, ◌∷◌, arith, ◌⊎◌, inl, inr,
}
use kom_operator.Errors.{ok, Result-cases}
use kom_operator.Kube.{ConfigMap}
use kom_operator.Traefik.{TraefikConfig, Http}
use kom_operator.Platform.{Platform}
use kom_operator.Exec.{
  Sys, Outcome, Request, fail, LoadBalancer, get_config_map, update_config_map, patch_deployment,
  returns, get_lb, set_lb, send, try, lift, pure, panic, ◌>>=◌,
}
use kom_operator.Exec.Inversion.{Returns, >>=-Returns, pure-Returns}
use kom_operator.Routes.{Route, add_routes, remove_routes}
use kom_operator.LoadBalancer.{
  find_existing_object, keep_config, config_of, load_config, write_config, send_config,
  reload_deployment, reload_patch,
}
use kom_operator.LoadBalancer.Controller.Branches.{loaded, answer}
use kom_operator.LoadBalancer.Controller.Branches.Runs.{read_config-loaded}
use kom_operator.LoadBalancer.Controller.{
  raw_config, read_config, deref, create_router, remove_router, reload_if,
}

module _ {p : Platform} where
  -- `cfg` was written: the last request stores its text, and the server's copy is kept.
  pub record Wrote (cfg : TraefikConfig) (s t : Sys p) : Type 0 where
    pub content : String
    pub marshalled : p.marshal cfg ≡ ok content
    pub requested : t.sent ≡ update_config_map (config_of p s.lb content) ∷ s.sent
    pub kept : (p.config_maps.update (config_of p s.lb content) s.world).0 ≡ ok t.lb.config

  pub write_config_run :
      (cfg : TraefikConfig) (s : Sys p) (content : String) (stored : ConfigMap)
      → p.marshal cfg ≡ ok content
      → (p.config_maps.update (config_of p s.lb content) s.world).0 ≡ ok stored
      → write_config p cfg true s ≡ (
        returns tt,
        record s {
          world = (p.config_maps.update (config_of p s.lb content) s.world).1;
          sent = update_config_map (config_of p s.lb content) ∷ s.sent;
          lb = record s.lb { config = stored };
        },
      )
  unfolding write_config send_config ◌>>=◌ lift send get_lb set_lb
  write_config_run cfg s content stored e e' = rw (e, e')

  pub write_config-marshal :
      (cfg : TraefikConfig) (s t : Sys p)
      → Returns (write_config p cfg true) s tt t
      → (content : String) × (p.marshal cfg ≡ ok content)
  unfolding write_config ◌>>=◌ lift
  write_config-marshal cfg s t h = elim (Result-cases (p.marshal cfg)) [
    | inl (content, e) ↦ (content, e)
    | inr (x, e) ↦ absurd (ground (arith, e, ap (λ r. r.0) h))
  ]

  pub write_config-update :
      (cfg : TraefikConfig) (s t : Sys p) (content : String)
      → p.marshal cfg ≡ ok content
      → Returns (write_config p cfg true) s tt t
      → (stored : ConfigMap) × ((p.config_maps.update (config_of p s.lb content) s.world).0
          ≡ ok stored)
  unfolding write_config send_config ◌>>=◌ lift send get_lb set_lb
  write_config-update cfg s t content e h =
      elim (Result-cases (p.config_maps.update (config_of p s.lb content) s.world).0) [
        | inl (stored, e') ↦ (stored, e')
        | inr (x, e') ↦ absurd (ground (arith, e, e', ap (λ r. r.0) h))
      ]

  write_config-Wrote :
      (cfg : TraefikConfig) (s t : Sys p) → Returns (write_config p cfg true) s tt t → Wrote cfg s t
  write_config-Wrote cfg s t h =
      let (content, e) = write_config-marshal cfg s t h in
      let (stored, e') = write_config-update cfg s t content e h in
      let same = sym h ∙ write_config_run cfg s content stored e e' in
      record {
        content = content;
        marshalled = e;
        requested = ap (λ r. r.1.sent) same;
        kept = e' ∙ ap (λ r. ok r.1.lb.config) (sym same);
      }

  module _ {A : Type 0} {r : Outcome A × Sys p} {a : A} {t : Sys p} (h : r ≡ (returns a, t)) where
    sent_after : {rs : List Request} → r.1.sent ≡ rs → t.sent ≡ rs
    sent_after e = ap (λ x. x.1.sent) (sym h) ∙ e

    lb_after :
        (lb : LoadBalancer)
        → r.1.lb ≡ record lb { config = r.1.lb.config }
        → t.lb ≡ record lb { config = t.lb.config }
    lb_after lb e = subst (λ x. x.1.lb ≡ record lb { config = x.1.lb.config }) h e

  -- However it ends, `read_config` sends one request and changes nothing but the configuration.
  pub read_config_effect :
      (s : Sys p)
      → ((read_config p s).1.sent ≡ get_config_map s.lb.namespace s.lb.config_name ∷ s.sent)
        × ((read_config p s).1.lb ≡ record s.lb { config = (read_config p s).1.lb.config })
  unfolding read_config deref load_config keep_config find_existing_object ◌>>=◌ send get_lb set_lb
      try pure panic fail
  read_config_effect s = ground arith

  read_config-Returns :
      (s u : Sys p) (cfg : TraefikConfig)
      → Returns (read_config p) s cfg u
      → (p.unmarshal (raw_config u.lb.config) ≡ some cfg)
        × (u.sent ≡ get_config_map s.lb.namespace s.lb.config_name ∷ s.sent)
        × (u.lb ≡ record s.lb { config = u.lb.config })
  unfolding read_config deref load_config keep_config find_existing_object ◌>>=◌ lift send get_lb
      set_lb try pure panic fail
  read_config-Returns s u cfg h = (
    ground (arith, ap (λ r. r.0) h, ap (λ r. r.1) h),
    sent_after h (read_config_effect s).0,
    lb_after h s.lb (read_config_effect s).1,
  )

  reload-Returns :
      (s t : Sys p)
      → Returns (reload_deployment p) s tt t
      → (t.lb ≡ s.lb)
        × (t.sent ≡ patch_deployment s.lb.deployment (reload_patch p (p.now s.world)) ∷ s.sent)
  unfolding reload_deployment ◌>>=◌ send get_lb
  reload-Returns s t h = (ground arith, ground arith)

  -- The routing was changed by `f`: the configuration that the server answered, with its routing changed, was
  -- written, and then the deployment may have been reloaded.
  pub record Changed (f : Http → Http) (s t : Sys p) : Type 0 where
    pub cfg : TraefikConfig
    pub read : Sys p
    pub wrote : Sys p
    pub decoded : p.unmarshal (raw_config read.lb.config) ≡ some cfg
    pub answered : read.lb.config ≡ loaded (answer s) s.lb.config
    pub fetched : read.sent ≡ get_config_map s.lb.namespace s.lb.config_name ∷ s.sent
    pub same_lb : read.lb ≡ record s.lb { config = read.lb.config }
    pub stored : Wrote (record cfg { http = f cfg.http }) read wrote
    pub kept_lb : t.lb ≡ wrote.lb
    pub reloaded :
        (t.sent ≡ wrote.sent)
        ⊎ (t.sent
            ≡ patch_deployment wrote.lb.deployment (reload_patch p (p.now wrote.world))
              ∷ wrote.sent)

  -- A call of `CreateRouter` that returned has added the routes and reloaded the deployment.
  pub create_router-Changed :
      (namespace service : String) (routes : List Route) (s t : Sys p)
      → Returns (create_router p namespace service routes) s tt t
      → Changed (add_routes namespace service routes) s t
  unfolding create_router
  create_router-Changed namespace service routes s t h =
      let (cfg, read, h₁, k₁) = >>=-Returns (read_config p) _ s tt t h in
      let (done, wrote, h₂, k₂) = >>=-Returns _ _ read tt t k₁ in
      let (decoded, fetched, same_lb) = read_config-Returns s read cfg h₁ in
      let (kept_lb, sent) = reload-Returns wrote t k₂ in
      record {
        cfg = cfg;
        read = read;
        wrote = wrote;
        decoded = decoded;
        answered = (read_config-loaded s read cfg h₁).1;
        fetched = fetched;
        same_lb = same_lb;
        stored = write_config-Wrote _ read wrote h₂;
        kept_lb = kept_lb;
        reloaded = inr sent;
      }

  reload_if-Returns :
      (reload : Bool) (s t : Sys p)
      → Returns (reload_if p reload) s tt t
      → (t.lb ≡ s.lb)
        × ((t.sent ≡ s.sent)
            ⊎ (t.sent ≡ patch_deployment s.lb.deployment (reload_patch p (p.now s.world)) ∷ s.sent))
  unfolding reload_if
  reload_if-Returns true s t h = let (kept, sent) = reload-Returns s t h in (kept, inr sent)
  reload_if-Returns false s t h =
      let (done, same) = pure-Returns tt s tt t h in
      (ap (λ x. x.lb) same, inl (ap (λ x. x.sent) same))

  -- A call of `RemoveRouter` that returned has removed the routes.
  pub remove_router-Changed :
      (namespace service : String) (reload : Bool) (s t : Sys p)
      → Returns (remove_router p namespace service reload) s tt t
      → Changed (remove_routes namespace service) s t
  unfolding remove_router
  remove_router-Changed namespace service reload s t h =
      let (cfg, read, h₁, k₁) = >>=-Returns (read_config p) _ s tt t h in
      let (done, wrote, h₂, k₂) = >>=-Returns _ _ read tt t k₁ in
      let (decoded, fetched, same_lb) = read_config-Returns s read cfg h₁ in
      let (kept_lb, sent) = reload_if-Returns reload wrote t k₂ in
      record {
        cfg = cfg;
        read = read;
        wrote = wrote;
        decoded = decoded;
        answered = (read_config-loaded s read cfg h₁).1;
        fetched = fetched;
        same_lb = same_lb;
        stored = write_config-Wrote _ read wrote h₂;
        kept_lb = kept_lb;
        reloaded = sent;
      }
