-- ===== src/Controller/Reconcile/Kept/Interface.antt =====
-- The rules for the requests of a reconciliation, as an interface: what keeps a property of the state,
-- for the objects that the reconciliation may touch.
use kom_operator.Prelude.{String, Bool, Option, none, some, List}
use kom_operator.Kube.{Deployment, KubeService}
use kom_operator.Api.{Microservice}
use kom_operator.Platform.{Platform}
use kom_operator.Routes.{Route}
use kom_operator.Exec.{
  Sys, get_microservice, update_status as status_request, get_deployment, create_deployment,
  update_deployment, get_service, create_service, delete_service, send,
}
use kom_operator.Exec.Keeps.{Keeps, Any}
use kom_operator.LoadBalancer.Controller.{create_router, remove_router}
use kom_operator.AutoScaling.Kept.{OwnMeta, KeepsNames, ScalerRules}
use kom_operator.Controller.Objects.{InstanceObjects}
use kom_operator.Controller.Reconcile.{update_instance}

module _ (Own : String → String → Type 0) where
  abbrev pub OwnInstance : Microservice → Type 0
  OwnInstance m = OwnMeta Own m.meta

  abbrev pub OwnDeployment : Deployment → Type 0
  OwnDeployment d = OwnMeta Own d.meta

  abbrev pub OwnService : Option KubeService → Type 0
  OwnService none = Unit
  OwnService (some s) = OwnMeta Own s.meta

  abbrev pub OwnObjects : InstanceObjects → Type 0
  OwnObjects o = OwnDeployment o.deployment × OwnService o.service

pub record Rules (p : Platform) (I : Sys p → Type 0) (Own : String → String → Type 0) : Type 0 where
  pub names : KeepsNames p
  pub scalers : ScalerRules p I Own
  pub get_microservice :
      (namespace name : String)
      → Own namespace name
      → Keeps I
          (send (get_microservice namespace name) (p.microservices.get namespace name))
          (OwnInstance Own)
  pub update_instance :
      (m : Microservice) → OwnInstance Own m → Keeps I (update_instance p m) (OwnInstance Own)
  pub update_status :
      (m : Microservice)
      → OwnInstance Own m
      → Keeps I (send (status_request m) (p.update_status m)) (OwnInstance Own)
  pub get_deployment :
      (namespace name : String)
      → Own namespace name
      → Keeps I
          (send (get_deployment namespace name) (p.deployments.get namespace name))
          (OwnDeployment Own)
  pub create_deployment :
      (d : Deployment)
      → OwnDeployment Own d
      → Keeps I (send (create_deployment d) (p.deployments.create d)) (OwnDeployment Own)
  pub update_deployment :
      (d : Deployment)
      → OwnDeployment Own d
      → Keeps I (send (update_deployment d) (p.deployments.update d)) (OwnDeployment Own)
  pub get_service :
      (namespace name : String)
      → Own namespace name
      → Keeps I
          (send (get_service namespace name) (p.services.get namespace name))
          (λ s. OwnMeta Own s.meta)
  pub create_service :
      (s : KubeService)
      → OwnMeta Own s.meta
      → Keeps I (send (create_service s) (p.services.create s)) (λ s. OwnMeta Own s.meta)
  pub delete_service :
      (s : KubeService)
      → OwnMeta Own s.meta
      → Keeps I (send (delete_service s) (p.services.delete s)) Any
  pub create_router :
      (namespace name : String) (routes : List Route)
      → Own namespace name
      → Keeps I (create_router p namespace name routes) Any
  pub remove_router :
      (namespace name : String) (reload : Bool)
      → Own namespace name
      → Keeps I (remove_router p namespace name reload) Any
