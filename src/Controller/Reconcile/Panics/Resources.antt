-- ===== src/Controller/Reconcile/Panics/Resources.antt =====
-- Panics while the objects of a microservice are created or updated.
use kom_operator.Prelude.{
  String, Bool, true, false, Option, none, some, List, [], ◌∷◌, ◌≡◌, refl, inl, inr,
}
use kom_operator.Errors.{Result, ok, err, is_not_found}
use kom_operator.Kube.{Deployment, KubeService}
use kom_operator.Api.{Microservice}
use kom_operator.Platform.{Platform}
use kom_operator.Routes.{Route}
use kom_operator.Exec.{Sys, delete_service, ◌>>=◌, try, lift}
use kom_operator.Exec.Inversion.{send-Returns}
use kom_operator.Exec.Panics.{
  PanicsIn, PanicsIn-bind, PanicsIn-try, PanicsIn-pure, PanicsIn-fail, PanicsIn-lift, PanicsIn-send,
  PanicsIn-panic, PanicsIn-if, PanicsIn-returns,
}
use kom_operator.LoadBalancer.Controller.Panics.{create_router_panics, remove_router_panics}
use kom_operator.AutoScaling
use kom_operator.AutoScaling.Safety.{run_lem}
use kom_operator.Controller.Objects.{InstanceObjects}
use kom_operator.Controller.Changes.{has_changes}
use kom_operator.Controller.Changes.Decision.{uncounted}
use kom_operator.Controller.Status.{update_status}
use kom_operator.Controller.Status.Stored.{update_status_lem}
use kom_operator.Controller.Reconcile.{
  nil_pointer, create_routes, create_service_with_routes, create_all, forget, after_create,
  create_resources, smart_reload_off, changes_or_panic, find_changes, update_deployment_if,
  has_no_routes, renew_service, replace_service, replace_service_if, apply_changes,
  update_resources, resources_for,
}
use kom_operator.Controller.Reconcile.Panics.{Cause, Unrouted, Deleting}

module _ {p : Platform} (namespace name : String) where
  abbrev B : Sys p → Type 0
  B = Cause p namespace name

  run_panics :
      {s : Sys p} (m : Microservice) (d : Deployment) → PanicsIn B (AutoScaling.run p m d) s
  run_panics {s = s} m d = PanicsIn-returns (run_lem p m d s).0

  status_panics :
      {s : Sys p} (m : Microservice) (r : Result (Unit {0})) → PanicsIn B (update_status p m r) s
  status_panics {s = s} m r = PanicsIn-returns (update_status_lem m r s).0

  create_routes_panics :
      {s : Sys p} (service : KubeService) (routes : List Route)
      → PanicsIn B (create_routes p service routes) s
  unfolding create_routes
  create_routes_panics service [] = PanicsIn-pure tt
  create_routes_panics service (route ∷ rest) =
      create_router_panics B (λ s e. inl e) service.meta.namespace service.meta.name (route ∷ rest)

  create_service_panics :
      {s : Sys p} (service : Option KubeService) (routes : List Route)
      → PanicsIn B (create_service_with_routes p service routes) s
  unfolding create_service_with_routes
  create_service_panics none routes = PanicsIn-pure tt
  create_service_panics (some service) routes =
      PanicsIn-bind (PanicsIn-send _ _) λ created u _. create_routes_panics created routes

  create_all_panics : {s : Sys p} (o : InstanceObjects) → PanicsIn B (create_all p o) s
  unfolding create_all
  create_all_panics o = PanicsIn-bind (PanicsIn-send _ _) λ created u _.
      PanicsIn-bind (create_service_panics o.service o.routers) λ done v _. PanicsIn-pure created

  after_create_panics :
      {s : Sys p} (m : Microservice) (r : Result Deployment) → PanicsIn B (after_create p m r) s
  unfolding after_create
  after_create_panics m (ok d) = run_panics m d
  after_create_panics m (err e) = PanicsIn-fail e

  create_resources_panics :
      {s : Sys p} (m : Microservice) (o : InstanceObjects) → PanicsIn B (create_resources p m o) s
  unfolding create_resources
  create_resources_panics m o = PanicsIn-bind (PanicsIn-try (create_all_panics o)) λ result u _.
      PanicsIn-bind (status_panics m (forget p result))
        λ stored v _. after_create_panics stored result

  module _ (m : Microservice) (d : Deployment) (a b : String) (w : p.World)
      (found : (p.deployments.get a b w).0 ≡ ok d) where
    changes_panics :
        {s : Sys p} (c : Option (Bool × Bool))
        → has_changes m d ≡ c
        → PanicsIn B (changes_or_panic p c) s
    unfolding changes_or_panic
    changes_panics none e =
        PanicsIn-panic nil_pointer (inr (inl (d, a, b, w, found, uncounted m d e)))
    changes_panics (some c) e = PanicsIn-pure c

    find_changes_panics : {s : Sys p} → PanicsIn B (find_changes p m d) s
    unfolding find_changes
    find_changes_panics =
        PanicsIn-if (smart_reload_off p (p.lookup_env "SMART_RELOAD"))
          (λ _. PanicsIn-pure (true, true)) (λ _. changes_panics (has_changes m d) refl)

  module _ (service : Option KubeService) (bare : service ≡ none → Unrouted p namespace name) where
    renew_service_panics :
        {s : Sys p} (x : Option KubeService) (routes : List Route)
        → service ≡ x
        → Deleting p s
        → PanicsIn B (renew_service p x routes) s
    unfolding renew_service
    renew_service_panics none routes e deleting =
        PanicsIn-panic nil_pointer (inr (inr (bare e, deleting)))
    renew_service_panics (some x) routes e deleting =
        PanicsIn-bind
          (remove_router_panics B (λ s e. inl e) x.meta.namespace x.meta.name
            (has_no_routes p routes))
          λ done u _.
            PanicsIn-bind (PanicsIn-send _ _) λ created v _. create_routes_panics created routes

    replace_service_panics :
        {s : Sys p} (d : Deployment) (routes : List Route)
        → PanicsIn B (replace_service p d service routes) s
    unfolding replace_service
    replace_service_panics d routes = PanicsIn-bind (PanicsIn-send _ _) λ existing u _.
        PanicsIn-bind (PanicsIn-send _ _) λ done v deleted.
          renew_service_panics service routes refl
            (existing, u.sent, (send-Returns (delete_service existing) _ u done v deleted).1)

  module _ (m : Microservice) (o : InstanceObjects)
      (bare : o.service ≡ none → Unrouted p namespace name) where
    replace_service_if_panics :
        {s : Sys p} (b : Bool) (r : Result Deployment) → PanicsIn B (replace_service_if p b r o) s
    unfolding replace_service_if
    replace_service_if_panics true (ok d) =
        PanicsIn-bind (PanicsIn-try (replace_service_panics o.service bare d o.routers))
          λ dropped u _. PanicsIn-pure tt
    replace_service_if_panics true (err e) = PanicsIn-pure tt
    replace_service_if_panics false (ok d) = PanicsIn-pure tt
    replace_service_if_panics false (err e) = PanicsIn-pure tt

    update_deployment_panics :
        {s : Sys p} (b : Bool) (d : Deployment) → PanicsIn B (update_deployment_if p b d) s
    unfolding update_deployment_if
    update_deployment_panics false d = PanicsIn-pure d
    update_deployment_panics true d = PanicsIn-send _ _

    apply_some_panics :
        {s : Sys p} (b c : Bool)
        → PanicsIn B
            (try (update_deployment_if p b o.deployment) >>= λ updated.
              replace_service_if p c updated o >>= λ _.
              update_status p m (forget p updated) >>= λ stored. lift (forget p updated))
            s
    apply_some_panics b c =
        PanicsIn-bind (PanicsIn-try (update_deployment_panics b o.deployment)) λ updated u _.
          PanicsIn-bind (replace_service_if_panics c updated) λ done v _.
            PanicsIn-bind (status_panics m (forget p updated))
              λ stored x _. PanicsIn-lift (forget p updated)

    apply_changes_panics :
        {s : Sys p} (changes : Bool × Bool) → PanicsIn B (apply_changes p m o changes) s
    unfolding apply_changes
    apply_changes_panics (false, false) = PanicsIn-pure tt
    apply_changes_panics (false, true) = apply_some_panics false true
    apply_changes_panics (true, c) = apply_some_panics true c

    pub resources_panics :
        {s : Sys p} (a b : String) (w : p.World) (reply : Result Deployment)
        → (p.deployments.get a b w).0 ≡ reply
        → PanicsIn B (resources_for p m o reply) s
    unfolding resources_for update_resources
    resources_panics a b w (ok d) found = PanicsIn-bind (run_panics m d) λ done u _.
        PanicsIn-bind (find_changes_panics m d a b w found)
          λ changes v _. apply_changes_panics changes
    resources_panics a b w (err e) found =
        PanicsIn-if (is_not_found e) (λ _. create_resources_panics m o) (λ _. PanicsIn-fail e)
