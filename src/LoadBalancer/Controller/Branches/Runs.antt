-- ===== src/LoadBalancer/Controller/Branches/Runs.antt =====
-- The steps of a change of the configuration, by what each request is answered.
use kom_operator.Prelude.{
  String, ◌≡◌, refl, sym, ap, ◌∙◌, subst, Bool, true, false, none, some, ◌∷◌, Bool-cases, inl, inr,
  ◌⊎◌, Option-cases,
}
use kom_operator.Errors.{Error, Result, ok, err, is_not_found, Result-cases}
use kom_operator.Kube.{ConfigMap}
use kom_operator.Traefik.{TraefikConfig}
use kom_operator.Platform.{Platform}
use kom_operator.Exec.{
  Exec, Sys, of_result, returns, fails, panics, update_config_map, patch_deployment, get_lb, set_lb,
  send, try, lift, pure, panic, fail, ◌>>=◌,
}
use kom_operator.LoadBalancer.{
  find_existing_object, keep_config, config_of, load_config, write_config, send_config, now,
  reload_patch, reload_deployment,
}
use kom_operator.LoadBalancer.Controller.{raw_config, read_config, deref, reload_if}
use kom_operator.LoadBalancer.Controller.Branches.{loaded, answer, asked, ask, decoded, IsRead}

abbrev pub write_and_reload : (p : Platform) → TraefikConfig → Bool → Exec p (Unit {0})
write_and_reload p cfg reload = write_config p cfg true >>= λ done. reload_if p reload

module _ {p : Platform} (s : Sys p) where
  abbrev pub after_load : ConfigMap → Sys p
  after_load c = record s {
    world = asked s;
    sent = ask s ∷ s.sent;
    lb = record s.lb { config = c };
  }

  abbrev pub after_read : Sys p
  after_read = after_load (loaded (answer s) s.lb.config)

  load_found :
      (c : ConfigMap)
      → answer s ≡ ok c
      → read_config p s ≡ deref p (p.unmarshal (raw_config c)) (after_load c)
  unfolding read_config load_config keep_config find_existing_object ◌>>=◌ send get_lb set_lb try
      pure fail
  load_found c e = rw e refl

  load_missing :
      (e : Error)
      → answer s ≡ err e
      → is_not_found e ≡ true
      → read_config p s ≡ deref p (p.unmarshal (raw_config s.lb.config)) (after_load s.lb.config)
  unfolding read_config load_config keep_config find_existing_object ◌>>=◌ send get_lb set_lb try
      pure fail
  load_missing e eq missing = rw (eq, missing) refl

  abbrev Reads : Result ConfigMap → Type 0
  Reads r =
      read_config p s
      ≡ deref p (p.unmarshal (raw_config (loaded r s.lb.config)))
          (after_load (loaded r s.lb.config))

  pub read_run : IsRead (answer s) → read_config p s ≡ deref p (decoded s) after_read
  read_run h = elim (Result-cases (answer s)) [
    | inl (c, e) ↦ subst Reads (sym e) (load_found c e)
    | inr (e, eq) ↦ subst Reads (sym eq) (load_missing e eq (subst IsRead eq h))
  ]

  pub read_fails :
      (e : Error)
      → answer s ≡ err e
      → is_not_found e ≡ false
      → read_config p s ≡ (fails e, record s { world = asked s; sent = ask s ∷ s.sent })
  unfolding read_config load_config keep_config find_existing_object ◌>>=◌ send get_lb set_lb try
      pure fail
  read_fails e eq other = rw (eq, other) refl

  pub IsRead-cases :
      ((e : Error) × (answer s ≡ err e) × (is_not_found e ≡ false)) ⊎ IsRead (answer s)
  IsRead-cases = elim (Result-cases (answer s)) [
    | inl (c, e) ↦ inr (subst IsRead (sym e) tt)
    | inr (e, eq) ↦ elim (Bool-cases (is_not_found e)) [
      | inl missing ↦ inr (subst IsRead (sym eq) missing)
      | inr other ↦ inl (e, eq, other)
    ]
  ]

  pub deref-some :
      (cfg : TraefikConfig)
      → decoded s ≡ some cfg
      → deref p (decoded s) after_read ≡ (returns cfg, after_read)
  unfolding deref pure
  deref-some cfg e = rw e refl

  pub deref-none :
      decoded s ≡ none
      → deref p (decoded s) after_read
        ≡ (panics "invalid memory address or nil pointer dereference", after_read)
  unfolding deref panic
  deref-none e = rw e refl

  -- `writeConfig` and the reload after it.
  module _ (cfg : TraefikConfig) (reload : Bool) (u : Sys p) where
    pub write_unwritable :
        (e : Error) → p.marshal cfg ≡ err e → write_and_reload p cfg reload u ≡ (fails e, u)
    unfolding write_config ◌>>=◌ lift
    write_unwritable e eq = rw eq refl

    pub write_refused :
        (text : String) (e : Error)
        → p.marshal cfg ≡ ok text
        → (p.config_maps.update (config_of p u.lb text) u.world).0 ≡ err e
        → write_and_reload p cfg reload u ≡ (
          fails e,
          record u {
            world = (p.config_maps.update (config_of p u.lb text) u.world).1;
            sent = update_config_map (config_of p u.lb text) ∷ u.sent;
            lb = record u.lb { config = config_of p u.lb text };
          },
        )
    unfolding write_config send_config ◌>>=◌ lift send get_lb set_lb
    write_refused text e eq refuses = rw (eq, refuses) refl

    pub write_stored :
        (text : String) (c : ConfigMap)
        → p.marshal cfg ≡ ok text
        → (p.config_maps.update (config_of p u.lb text) u.world).0 ≡ ok c
        → write_and_reload p cfg reload u
          ≡ reload_if p reload (record u {
            world = (p.config_maps.update (config_of p u.lb text) u.world).1;
            sent = update_config_map (config_of p u.lb text) ∷ u.sent;
            lb = record u.lb { config = c };
          })
    unfolding write_config send_config ◌>>=◌ lift send get_lb set_lb
    write_stored text c eq takes = rw (eq, takes) refl

  pub reload_patched :
      (u : Sys p) (r : Result (Unit {0}))
      → (p.patch_deployment u.lb.deployment (reload_patch p (p.now u.world)) u.world).0 ≡ r
      → reload_if p true u ≡ (
        of_result r,
        record u {
          world = (p.patch_deployment u.lb.deployment (reload_patch p (p.now u.world)) u.world).1;
          sent = patch_deployment u.lb.deployment (reload_patch p (p.now u.world)) ∷ u.sent;
        },
      )
  unfolding reload_if reload_deployment now ◌>>=◌ send get_lb
  reload_patched u r e = rw e refl

  pub reload_none : (u : Sys p) → reload_if p false u ≡ (returns tt, u)
  unfolding reload_if pure
  reload_none u = refl

module _ {p : Platform} (s u : Sys p) (cfg : TraefikConfig)
    (h : read_config p s ≡ (returns cfg, u)) where
  -- A read that returns gives what was loaded.
  pub read_config-loaded : (decoded s ≡ some cfg) × (u.lb.config ≡ loaded (answer s) s.lb.config)
  read_config-loaded = elim (IsRead-cases s) [
    | inl (e, eq, other) ↦ absurd (cc (ap (λ r. r.0) (sym (read_fails s e eq other) ∙ h)))
    | inr read ↦ elim (Option-cases (decoded s)) [
      | inl e ↦ absurd (cc (ap (λ r. r.0) (sym (read_run s read ∙ deref-none s e) ∙ h)))
      | inr (c, e) ↦
          let same = sym (read_run s read ∙ deref-some s c e) ∙ h in
          (e ∙ ap (λ x. some x) (cc (ap (λ r. r.0) same)), sym (ap (λ r. r.1.lb.config) same))
    ]
  ]
