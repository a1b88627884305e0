-- ===== src/Controller/Reconcile/Kept/Creating.antt =====
-- Making the objects of a microservice keeps what its requests keep.
use kom_operator.Prelude.{String, Option, none, some, List, [], ◌∷◌}
use kom_operator.Errors.{Result, ok, err}
use kom_operator.Kube.{Deployment, KubeService}
use kom_operator.Api.{Microservice}
use kom_operator.Platform.{Platform}
use kom_operator.Routes.{Route}
use kom_operator.Exec.{Sys}
use kom_operator.Exec.Keeps.{Keeps, Any, OnSuccess, Keeps-bind, Keeps-try, Keeps-pure, Keeps-fail}
use kom_operator.AutoScaling.Kept.{OwnMeta, Keeps-run}
use kom_operator.Controller.Objects.{InstanceObjects}
use kom_operator.Controller.Status.Kept.{Keeps-update_status}
use kom_operator.Controller.Reconcile.{
  create_routes, create_service_with_routes, create_all, forget, after_create, create_resources,
}
use kom_operator.Controller.Reconcile.Kept.Interface.{
  Rules, OwnInstance, OwnDeployment, OwnService, OwnObjects,
}

module _ {p : Platform} {I : Sys p → Type 0} {Own : String → String → Type 0}
    (r : Rules p I Own) where
  pub Keeps-create_routes :
      (s : KubeService) (routes : List Route)
      → OwnMeta Own s.meta
      → Keeps I (create_routes p s routes) Any
  unfolding create_routes
  Keeps-create_routes s [] own = Keeps-pure tt tt
  Keeps-create_routes s (x ∷ xs) own = r.create_router s.meta.namespace s.meta.name (x ∷ xs) own

  Keeps-create_service_with_routes :
      (service : Option KubeService) (routes : List Route)
      → OwnService Own service
      → Keeps I (create_service_with_routes p service routes) Any
  unfolding create_service_with_routes
  Keeps-create_service_with_routes none routes own = Keeps-pure tt tt
  Keeps-create_service_with_routes (some s) routes own =
      Keeps-bind (r.create_service s own) λ created own'. Keeps-create_routes created routes own'

  Keeps-create_all :
      (o : InstanceObjects) → OwnObjects Own o → Keeps I (create_all p o) (OwnDeployment Own)
  unfolding create_all
  Keeps-create_all o (own, own_s) =
      Keeps-bind (r.create_deployment o.deployment own) λ created own'.
        Keeps-bind (Keeps-create_service_with_routes o.service o.routers own_s)
          λ done _. Keeps-pure created own'

  Keeps-after_create :
      (m : Microservice) (result : Result Deployment)
      → OnSuccess (OwnDeployment Own) result
      → Keeps I (after_create p m result) Any
  unfolding after_create
  Keeps-after_create m (ok d) own = Keeps-run r.names Own r.scalers m d own
  Keeps-after_create m (err e) own = Keeps-fail e

  pub Keeps-create_resources :
      (m : Microservice) (o : InstanceObjects)
      → OwnInstance Own m
      → OwnObjects Own o
      → Keeps I (create_resources p m o) Any
  unfolding create_resources
  Keeps-create_resources m o own own_o =
      Keeps-bind (Keeps-try (Keeps-create_all o own_o)) λ result own'.
        Keeps-bind (Keeps-update_status Own r.update_status m (forget p result) own)
          λ stored own_m. Keeps-after_create stored result own'
