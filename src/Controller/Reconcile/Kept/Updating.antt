-- ===== src/Controller/Reconcile/Kept/Updating.antt =====
-- Updating the objects of a microservice keeps what its requests keep.
use kom_operator.Prelude.{String, Bool, true, false, Option, none, some, List}
use kom_operator.Errors.{Result, ok, err}
use kom_operator.Kube.{Deployment, KubeService}
use kom_operator.Api.{Microservice}
use kom_operator.Platform.{Platform}
use kom_operator.Routes.{Route}
use kom_operator.Exec.{◌>>=◌, Sys, lift, try}
use kom_operator.Exec.Keeps.{
  Keeps, Any, OnSuccess, Keeps-bind, Keeps-try, Keeps-pure, Keeps-panic, Keeps-lift, Keeps-if,
}
use kom_operator.AutoScaling.Kept.{Keeps-run}
use kom_operator.Controller.Objects.{InstanceObjects}
use kom_operator.Controller.Changes.{has_changes}
use kom_operator.Controller.Status.{update_status}
use kom_operator.Controller.Status.Kept.{Keeps-update_status}
use kom_operator.Controller.Reconcile.{
  nil_pointer, forget, smart_reload_off, changes_or_panic, find_changes, update_deployment_if,
  has_no_routes, renew_service, replace_service, replace_service_if, apply_changes,
  update_resources,
}
use kom_operator.Controller.Reconcile.Kept.Interface.{
  Rules, OwnInstance, OwnDeployment, OwnService, OwnObjects,
}
use kom_operator.Controller.Reconcile.Kept.Creating.{Keeps-create_routes}

module _ {p : Platform} {I : Sys p → Type 0} {Own : String → String → Type 0}
    (r : Rules p I Own) where
  Keeps-changes_or_panic :
      (changes : Option (Bool × Bool)) → Keeps I (changes_or_panic p changes) Any
  unfolding changes_or_panic
  Keeps-changes_or_panic none = Keeps-panic nil_pointer
  Keeps-changes_or_panic (some c) = Keeps-pure c tt

  Keeps-find_changes : (m : Microservice) (d : Deployment) → Keeps I (find_changes p m d) Any
  unfolding find_changes
  Keeps-find_changes m d =
      Keeps-if (smart_reload_off p (p.lookup_env "SMART_RELOAD")) (λ _. Keeps-pure (true, true) tt)
        (λ _. Keeps-changes_or_panic (has_changes m d))

  Keeps-update_deployment_if :
      (b : Bool) (d : Deployment)
      → OwnDeployment Own d
      → Keeps I (update_deployment_if p b d) (OwnDeployment Own)
  unfolding update_deployment_if
  Keeps-update_deployment_if false d own = Keeps-pure d own
  Keeps-update_deployment_if true d own = r.update_deployment d own

  pub Keeps-renew_service :
      (service : Option KubeService) (routes : List Route)
      → OwnService Own service
      → Keeps I (renew_service p service routes) Any
  unfolding renew_service
  Keeps-renew_service none routes own = Keeps-panic nil_pointer
  Keeps-renew_service (some s) routes own =
      Keeps-bind (r.remove_router s.meta.namespace s.meta.name (has_no_routes p routes) own)
        λ done _.
          Keeps-bind (r.create_service s own)
            λ created own'. Keeps-create_routes r created routes own'

  Keeps-replace_service :
      (d : Deployment) (service : Option KubeService) (routes : List Route)
      → OwnDeployment Own d
      → OwnService Own service
      → Keeps I (replace_service p d service routes) Any
  unfolding replace_service
  Keeps-replace_service d service routes own own_s =
      Keeps-bind (r.get_service d.meta.namespace d.meta.name own) λ existing own_e.
        Keeps-bind (r.delete_service existing own_e)
          λ done _. Keeps-renew_service service routes own_s

  pub Keeps-replace_service_if :
      (b : Bool) (result : Result Deployment) (o : InstanceObjects)
      → OnSuccess (OwnDeployment Own) result
      → OwnObjects Own o
      → Keeps I (replace_service_if p b result o) Any
  unfolding replace_service_if
  Keeps-replace_service_if true (ok d) o own own_o =
      Keeps-bind (Keeps-try (Keeps-replace_service d o.service o.routers own own_o.1))
        λ dropped _. Keeps-pure tt tt
  Keeps-replace_service_if true (err e) o own own_o = Keeps-pure tt tt
  Keeps-replace_service_if false (ok d) o own own_o = Keeps-pure tt tt
  Keeps-replace_service_if false (err e) o own own_o = Keeps-pure tt tt

  Keeps-apply_some :
      (m : Microservice) (o : InstanceObjects) (deployment_changed service_changed : Bool)
      → OwnInstance Own m
      → OwnObjects Own o
      → Keeps I
          (try (update_deployment_if p deployment_changed o.deployment) >>= λ updated.
            replace_service_if p service_changed updated o >>= λ _.
            update_status p m (forget p updated) >>= λ stored. lift (forget p updated))
          Any
  Keeps-apply_some m o b c own own_o =
      Keeps-bind (Keeps-try (Keeps-update_deployment_if b o.deployment own_o.0)) λ updated own_u.
        Keeps-bind (Keeps-replace_service_if c updated o own_u own_o) λ done _.
          Keeps-bind (Keeps-update_status Own r.update_status m (forget p updated) own)
            λ stored _. Keeps-lift (forget p updated) (λ a e. tt)

  Keeps-apply_changes :
      (m : Microservice) (o : InstanceObjects) (changes : Bool × Bool)
      → OwnInstance Own m
      → OwnObjects Own o
      → Keeps I (apply_changes p m o changes) Any
  unfolding apply_changes
  Keeps-apply_changes m o (false, false) own own_o = Keeps-pure tt tt
  Keeps-apply_changes m o (false, true) own own_o = Keeps-apply_some m o false true own own_o
  Keeps-apply_changes m o (true, c) own own_o = Keeps-apply_some m o true c own own_o

  pub Keeps-update_resources :
      (m : Microservice) (o : InstanceObjects) (existing : Deployment)
      → OwnInstance Own m
      → OwnObjects Own o
      → OwnDeployment Own existing
      → Keeps I (update_resources p m o existing) Any
  unfolding update_resources
  Keeps-update_resources m o existing own own_o own_e =
      Keeps-bind (Keeps-run r.names Own r.scalers m existing own_e) λ done _.
        Keeps-bind (Keeps-find_changes m existing)
          λ changes _. Keeps-apply_changes m o changes own own_o
