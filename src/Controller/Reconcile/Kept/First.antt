-- ===== src/Controller/Reconcile/Kept/First.antt =====
-- What the first request of an update brings about stays so to the end of the reconciliation.
use kom_operator.Prelude.{String, Bool, true, false}
use kom_operator.Errors.{Result, ok}
use kom_operator.Kube.{Deployment, KubeService}
use kom_operator.Api.{Microservice}
use kom_operator.Platform.{Platform}
use kom_operator.Exec.{Exec, Sys, update_deployment, get_service, pure, send, try, lift, ◌>>=◌}
use kom_operator.Exec.Keeps.{
  Keeps, Any, Keeps-bind, Keeps-lift, Keeps-pure, Keeps-try, bind_reaches, try_reaches,
}
use kom_operator.Controller.Objects.{InstanceObjects}
use kom_operator.Controller.Status.{update_status}
use kom_operator.Controller.Status.Kept.{Keeps-update_status}
use kom_operator.Controller.Reconcile.{
  forget, update_deployment_if, replace_service, replace_service_if, apply_changes,
}
use kom_operator.Controller.Reconcile.Kept.Interface.{Rules, OwnInstance, OwnObjects}
use kom_operator.Controller.Reconcile.Kept.Updating.{Keeps-replace_service_if, Keeps-renew_service}

module _ {p : Platform} {I : Sys p → Type 0} {Own : String → String → Type 0} (r : Rules p I Own)
    (m : Microservice) (own : OwnInstance Own m) (o : InstanceObjects) (own_o : OwnObjects Own o)
    (t : Sys p) where
  -- The end of an update, from the reply for the deployment.
  Keeps-finish :
      (reply : Result Deployment)
      → Keeps I (update_status p m (forget p reply) >>= λ stored. lift (forget p reply)) Any
  Keeps-finish reply =
      Keeps-bind (Keeps-update_status Own r.update_status m (forget p reply) own)
        λ stored _. Keeps-lift (forget p reply) (λ a e. tt)

  -- What holds before the request says whose the objects are that the server answers.
  module _ {J : Sys p → Type 0} (q : Rules p J Own) (j : J t) where
    pub deployment_reaches :
        (c : Bool)
        → I (send (update_deployment o.deployment) (p.deployments.update o.deployment) t).1
        → I (apply_changes p m o (true, c) t).1
    unfolding apply_changes update_deployment_if
    deployment_reaches c i =
        bind_reaches _ _ t (try_reaches I (send _ _) t i)
          ((Keeps-try (q.update_deployment o.deployment own_o.0)).value t j)
          λ updated own_u.
            Keeps-bind (Keeps-replace_service_if r c updated o own_u own_o)
              λ done _. Keeps-finish updated

    abbrev pub ask_service : Exec p KubeService
    ask_service =
        send (get_service o.deployment.meta.namespace o.deployment.meta.name)
          (p.services.get o.deployment.meta.namespace o.deployment.meta.name)

    replace_reaches :
        I (ask_service t).1 → I (replace_service p o.deployment o.service o.routers t).1
    unfolding replace_service
    replace_reaches i =
        bind_reaches ask_service _ t i ((q.get_service _ _ own_o.0).value t j) λ existing own_e.
          Keeps-bind (r.delete_service existing own_e)
            λ done _. Keeps-renew_service r o.service o.routers own_o.1

    replacement_reaches :
        I (ask_service t).1
        → I ((try (replace_service p o.deployment o.service o.routers) >>= λ dropped. pure tt) t).1
    replacement_reaches i =
        bind_reaches {I = I} {Q = Any} (try (replace_service p o.deployment o.service o.routers)) _
          t
          (try_reaches I (replace_service p o.deployment o.service o.routers) t (replace_reaches i))
          (λ a e. tt) λ dropped _. Keeps-pure {Q = Any} tt tt

    pub service_reaches : I (ask_service t).1 → I (apply_changes p m o (false, true) t).1
    unfolding apply_changes update_deployment_if replace_service_if pure try ◌>>=◌
    service_reaches i =
        bind_reaches {I = I} {Q = Any}
          (try (replace_service p o.deployment o.service o.routers) >>= λ dropped. pure tt) _ t
          (replacement_reaches i) (λ a e. tt) λ done _. Keeps-finish (ok o.deployment)
