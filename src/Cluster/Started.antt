-- ===== src/Cluster/Started.antt =====
-- The configuration once the load balancer has started.
use kom_operator.Prelude.{
  String, ◌≡◌, refl, ap, sym, ◌∙◌, subst, false, none, some, List, [], ◌∷◌, ◌⊎◌, inl, inr,
}
use kom_operator.Errors.{Result, ok, err}
use kom_operator.Kube.{ConfigMap}
use kom_operator.Traefik.{TraefikConfig}
use kom_operator.Platform.{Platform}
use kom_operator.Util.Env.{get_loadbalancer_published_service, is_run_mode_local}
use kom_operator.Exec.{Exec, Sys, LoadBalancer, create_config_map, returns, try}
use kom_operator.Exec.Inversion.{
  Returns, >>=-Returns, lift-Returns, get_lb-Returns, set_lb-Returns, send-Returns, pure-Returns,
  panic-Returns, try-Returns,
}
use kom_operator.LoadBalancer.{config_of, send_config, write_config, load_config}
use kom_operator.LoadBalancer.Deploy.{
  must, or_panic, start_config, create_config, start, find_owner,
}
use kom_operator.LoadBalancer.Deploy.Kept.{
  Keeps-find_owner, Keeps-must, Keeps-create_config, Keeps-deploy_load_balancer,
  Keeps-deploy_load_balancer_service,
}
use kom_operator.LoadBalancer.Init.{init_load_balancer, init_load_balancer_config}
use kom_operator.LoadBalancer.Controller.Held.{StoresConfigs}
use kom_operator.Cluster.{ConfigStore, Copies, Holds, Written}
use kom_operator.Cluster.Laws.{Lawful, Decodes, Decodes-law, config_of_text}
use kom_operator.Cluster.Config.{config_of_names, Keeps-load_config}
use kom_operator.Cluster.Steps.{boot}

module _ {p : Platform} where
  or_panic-Returns :
      {A : Type 0} (m : Exec p A) (reply : Result A) (s u t : Sys p) (a : A)
      → Returns (try m) s reply u
      → Returns (or_panic p reply) u a t
      → Returns m s a t
  unfolding or_panic
  or_panic-Returns m (ok b) s u t a first second =
      let (same, kept) = pure-Returns b u a t second in
      try-Returns m s a t
        (first ∙ (ap (λ x. (returns (ok x), u)) same ∙ ap (λ x. (returns (ok a), x)) (sym kept)))
  or_panic-Returns m (err e) s u t a first second =
      absurd (panic-Returns (p.error_text e) u a t second)

  must-Returns :
      {A : Type 0} (m : Exec p A) (s : Sys p) (a : A) (t : Sys p)
      → Returns (must p m) s a t
      → Returns m s a t
  unfolding must
  must-Returns m s a t h =
      let (reply, u, first, second) = >>=-Returns _ _ s a t h in
      or_panic-Returns m reply s u t a first second

module _ {p : Platform} {namespace name : String} (store : ConfigStore p namespace name)
    (v : StoresConfigs p) where
  -- The configuration can be decoded, or is still the empty one of a new process.
  abbrev pub Booting : ConfigMap → Type 0
  Booting c = Decodes p c ⊎ (c.entries ≡ [])

  Booting-law : Lawful p Booting (Decodes p) (λ h. Unit {0})
  Booting-law = record {
    entries = (Decodes-law v).entries;
    text = (Decodes-law v).text;
    found = λ c h. inl h;
    decoded = λ c cfg h e. tt;
  }

  written_Decodes :
      (cfg : TraefikConfig) (s t : Sys p)
      → s.lb.namespace ≡ namespace
      → s.lb.config_name ≡ name
      → Returns (write_config p cfg false) s tt t
      → Decodes p t.lb.config
  unfolding write_config send_config
  written_Decodes cfg s t ns n h =
      let (text, s₁, h₁, k₁) = >>=-Returns _ _ s tt t h in
      let (e, same₁) = lift-Returns (p.marshal cfg) s text s₁ h₁ in
      let (lb, s₂, h₂, k₂) = >>=-Returns _ _ s₁ tt t k₁ in
      let (got, same₂) = get_lb-Returns s₁ lb s₂ h₂ in
      let (done, s₃, h₃, k₃) = >>=-Returns _ _ s₂ tt t k₂ in
      let (stored, s₄, h₄, k₄) = >>=-Returns _ _ s₃ tt t k₃ in
      let c = config_of p lb text in
      let own = got ∙ ap (λ (x : Sys p). x.lb) same₁ in
      let (c_ns, c_n) = config_of_names store Booting-law lb text in
      let answered =
        (send-Returns (create_config_map c) (p.config_maps.create c) s₃ stored s₄ h₄).0 in
      let written =
        store.creates c s₃.world (c_ns ∙ (ap (λ (x : LoadBalancer). x.namespace) own ∙ ns))
          (c_n ∙ (ap (λ (x : LoadBalancer). x.config_name) own ∙ n)) in
      let same =
        (subst
          (λ r. Written c r (store.held s₃.world) (store.held (p.config_maps.create c s₃.world).1))
          answered written).1 in
      let decodes =
        (Decodes-law v).entries c stored same
          ((Decodes-law v).text c cfg text (config_of_text p lb text) tt e) in
      subst (λ (x : LoadBalancer). Decodes p x.config)
        (sym (set_lb-Returns (record lb { config = stored }) s₄ tt t k₄).0) decodes

  created_Decodes :
      (entries : List (String × String)) (s t : Sys p)
      → entries ≡ s.lb.config.entries
      → Copies store Booting (Decodes p) s
      → Returns (create_config p entries) s tt t
      → Decodes p t.lb.config
  unfolding create_config
  created_Decodes [] s t e i h =
      written_Decodes (start_config p (get_loadbalancer_published_service p)) s t i.namespace_kept
        i.name_kept (must-Returns _ s tt t h)
  created_Decodes (x ∷ rest) s t e i h = elim i.local [
    | inl decodes ↦
        subst (λ (u : Sys p). Decodes p u.lb.config) (sym (pure-Returns tt s tt t h).1) decodes
    | inr empty ↦ absurd (cc (e, empty))
  ]

  start-Holds :
      (s t : Sys p)
      → Copies store Booting (Decodes p) s
      → Returns (start p) s tt t
      → Holds store (Decodes p) t
  unfolding start
  start-Holds s t i h =
      let (d₁, s₁, h₁, k₁) = >>=-Returns (find_owner p (is_run_mode_local p)) _ s tt t h in
      let i₁ =
        subst (λ r. Copies store Booting (Decodes p) r.1) h₁
          ((Keeps-find_owner store Booting-law (is_run_mode_local p)).state s i) in
      let (d₂, s₂, h₂, k₂) = >>=-Returns (must p (load_config p)) _ s₁ tt t k₁ in
      let i₂ =
        subst (λ r. Copies store Booting (Decodes p) r.1) h₂
          ((Keeps-must store Booting-law (Keeps-load_config store Booting-law)).state s₁ i₁) in
      let (lb, s₃, h₃, k₃) = >>=-Returns _ _ s₂ tt t k₂ in
      let (got, same) = get_lb-Returns s₂ lb s₃ h₃ in
      let i₃ = subst (Copies store Booting (Decodes p)) (sym same) i₂ in
      let (d₄, s₄, h₄, k₄) = >>=-Returns (create_config p lb.config.entries) _ s₃ tt t k₃ in
      let i₄ =
        subst (λ r. Copies store Booting (Decodes p) r.1) h₄
          ((Keeps-create_config store Booting-law tt lb.config.entries).state s₃ i₃) in
      let decodes =
        created_Decodes lb.config.entries s₃ s₄
          (ap (λ (x : LoadBalancer). x.config.entries) (got ∙ ap (λ (x : Sys p). x.lb) (sym same)))
          i₃ h₄ in
      let j₄ : Holds store (Decodes p) s₄ = record {
        namespace_kept = i₄.namespace_kept;
        name_kept = i₄.name_kept;
        local = decodes;
        remote = i₄.remote;
      } in
      let (d₅, s₅, h₅, k₅) = >>=-Returns _ _ s₄ tt t k₄ in
      let j₅ =
        subst (λ r. Holds store (Decodes p) r.1) h₅
          ((Keeps-deploy_load_balancer store (Decodes-law v)).state s₄ j₄) in
      subst (λ r. Holds store (Decodes p) r.1) k₅
        ((Keeps-deploy_load_balancer_service store (Decodes-law v)).state s₅ j₅)

-- When `Start` returns for the load balancer that `InitLoadBalancer` made, the configuration that
-- the operator holds can be decoded, and so can the one that the server holds if there is one,
-- provided that the server's could be at first if there was one. The server keeps the ConfigMap as
-- documented, reads of it are not behind, and `Unmarshal` reads what `Marshal` wrote.
pub start-Decodes :
    {p : Platform} (title : String) (lb : LoadBalancer)
    (store : ConfigStore p lb.namespace lb.config_name) (w : p.World) (t : Sys p)
    → StoresConfigs p
    → init_load_balancer p title none ≡ returns lb
    → ((c : ConfigMap) → store.held w ≡ some c → Decodes p c)
    → Returns (start p) (boot lb w) tt t
    → Holds store (Decodes p) t
start-Decodes {p = p} title lb store w t v init remote h =
    start-Holds store v (boot lb w) t
      (record {
        namespace_kept = refl;
        name_kept = refl;
        local = inr (ap (λ (c : ConfigMap). c.entries) (init_load_balancer_config p title lb init));
        remote = remote;
      })
      h
