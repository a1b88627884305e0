-- ===== src/Controller/Reconcile.antt =====
-- internal/controller/microservice_controller.go: `Reconcile` and `finalize`.
pub mod Deletion
pub mod Creation
pub mod Updating
pub mod Settled
pub mod Replacing
pub mod Panics
pub mod Kept
use text.Mathlib.Text.{◌==◌ as str_eq}
use kom_operator.Prelude.{
  String, Bool, true, false, not, ◌||◌, ◌&&◌, Option, none, some, List, [], ◌∷◌, append,
  if◌then◌else◌,
}
use kom_operator.Errors.{Error, Result, ok, err, is_not_found}
use kom_operator.Kube.{Deployment, KubeService, ObjectMeta}
use kom_operator.Api.{Microservice}
use kom_operator.Platform.{Platform}
use kom_operator.Util.{contains_string, remove_string}
use kom_operator.Routes.{Route}
use kom_operator.Exec.{
  Exec, get_microservice, update_microservice, get_deployment, create_deployment, update_deployment,
  get_service, create_service, delete_service, pure, fail, panic, send, try, lift, ◌>>=◌, ◌>>◌,
}
use kom_operator.LoadBalancer.Controller.{create_router, remove_router}
use kom_operator.AutoScaling
use kom_operator.Controller.Objects.{InstanceObjects, get_instance_objects}
use kom_operator.Controller.Changes.{has_changes}
use kom_operator.Controller.Status.{update_status}

abbrev pub finalizer_name : String
finalizer_name = "router.finalizers.kom.kaiso.github.io"

abbrev pub nil_pointer : String
nil_pointer = "invalid memory address or nil pointer dereference"

abbrev pub with_finalizers : Microservice → Option (List String) → Microservice
with_finalizers instance finalizers = record instance {
  meta = record instance.meta { finalizers = finalizers };
}

module _ (p : Platform) where
  unfoldable pub finalize_service : Option KubeService → Exec p (Unit {0})
  finalize_service none = pure tt
  finalize_service (some service) = remove_router p service.meta.namespace service.meta.name true

  -- `finalize`
  unfoldable pub finalize : Microservice → Exec p (Unit {0})
  finalize instance = finalize_service (get_instance_objects instance).service

  unfoldable pub update_instance : Microservice → Exec p Microservice
  update_instance instance = send (update_microservice instance) (p.microservices.update instance)

  -- The object under deletion: the routes go first, then the finalizer.
  unfoldable pub delete_instance : Microservice → Exec p (Unit {0})
  delete_instance instance =
      if contains_string instance.meta.finalizers finalizer_name
      then (do
        finalize instance
        updated ←
            update_instance
              (with_finalizers instance (remove_string instance.meta.finalizers finalizer_name))
        pure tt)
      else pure tt

  -- The finalizer is registered before anything else is done.
  pub register_finalizer : Microservice → Exec p Microservice
  register_finalizer instance =
      if not (contains_string instance.meta.finalizers finalizer_name)
      then update_instance
          (with_finalizers instance (append instance.meta.finalizers finalizer_name))
      else pure instance

  unfoldable pub create_routes : KubeService → List Route → Exec p (Unit {0})
  create_routes service [] = pure tt
  create_routes service (route ∷ rest) =
      create_router p service.meta.namespace service.meta.name (route ∷ rest)

  unfoldable pub create_service_with_routes : Option KubeService → List Route → Exec p (Unit {0})
  create_service_with_routes none routers = pure tt
  create_service_with_routes (some service) routers = do
    created ← send (create_service service) (p.services.create service)
    create_routes created routers

  unfoldable pub create_all : InstanceObjects → Exec p Deployment
  create_all o = do
    created ← send (create_deployment o.deployment) (p.deployments.create o.deployment)
    create_service_with_routes o.service o.routers
    pure created

  abbrev forget {ℓ} : {A : Type ℓ} → Result A → Result (Unit {0})
  forget (ok a) = ok tt
  forget (err e) = err e

  after_create : Microservice → Result Deployment → Exec p (Unit {0})
  after_create instance (ok deployment) = AutoScaling.run p instance deployment
  after_create instance (err e) = fail e

  -- The deployment does not exist yet.
  pub create_resources : Microservice → InstanceObjects → Exec p (Unit {0})
  create_resources instance o = do
    result ← try (create_all o)
    stored ← update_status p instance (forget result)
    after_create stored result

  smart_reload_off : Option String → Bool
  smart_reload_off none = false
  smart_reload_off (some setting) = str_eq setting "false"

  changes_or_panic : Option (Bool × Bool) → Exec p (Bool × Bool)
  changes_or_panic none = panic nil_pointer
  changes_or_panic (some changes) = pure changes

  pub find_changes : Microservice → Deployment → Exec p (Bool × Bool)
  find_changes instance existing =
      if smart_reload_off (p.lookup_env "SMART_RELOAD")
      then pure (true, true)
      else changes_or_panic (has_changes instance existing)

  pub update_deployment_if : Bool → Deployment → Exec p Deployment
  update_deployment_if false deployment = pure deployment
  update_deployment_if true deployment =
      send (update_deployment deployment) (p.deployments.update deployment)

  abbrev pub has_no_routes : List Route → Bool
  has_no_routes [] = true
  has_no_routes (route ∷ rest) = false

  -- A microservice without routes has no service: its use is a nil dereference.
  unfoldable pub renew_service : Option KubeService → List Route → Exec p (Unit {0})
  renew_service none routers = panic nil_pointer
  renew_service (some service) routers = do
    remove_router p service.meta.namespace service.meta.name (has_no_routes routers)
    created ← send (create_service service) (p.services.create service)
    create_routes created routers

  unfoldable pub replace_service : Deployment → Option KubeService → List Route → Exec p (Unit {0})
  replace_service deployment service routers = do
    existing ←
        send (get_service deployment.meta.namespace deployment.meta.name)
          (p.services.get deployment.meta.namespace deployment.meta.name)
    send (delete_service existing) (p.services.delete existing)
    renew_service service routers

  -- `err` is declared anew for the service, so its errors end here.
  pub replace_service_if : Bool → Result Deployment → InstanceObjects → Exec p (Unit {0})
  replace_service_if true (ok deployment) o = do
    dropped ← try (replace_service deployment o.service o.routers)
    pure tt
  replace_service_if _ _ o = pure tt

  pub apply_changes : Microservice → InstanceObjects → Bool × Bool → Exec p (Unit {0})
  apply_changes instance o (false, false) = pure tt
  apply_changes instance o (deployment_changed, service_changed) = do
    updated ← try (update_deployment_if deployment_changed o.deployment)
    replace_service_if service_changed updated o
    stored ← update_status p instance (forget updated)
    lift (forget updated)

  -- The deployment exists.
  pub update_resources : Microservice → InstanceObjects → Deployment → Exec p (Unit {0})
  update_resources instance o existing = do
    AutoScaling.run p instance existing
    changes ← find_changes instance existing
    apply_changes instance o changes

  pub resources_for : Microservice → InstanceObjects → Result Deployment → Exec p (Unit {0})
  resources_for instance o (ok existing) = update_resources instance o existing
  resources_for instance o (err e) = if is_not_found e then create_resources instance o else fail e

  pub own_service : Microservice → Option KubeService → Exec p (Option KubeService)
  own_service instance none = pure none
  own_service instance (some service) = do
    meta ← lift (p.set_controller_reference instance service.meta)
    pure (some (record service { meta = meta }))

  -- The objects with the microservice as their owner.
  pub own_objects : Microservice → InstanceObjects → Exec p InstanceObjects
  own_objects instance o = do
    meta ← lift (p.set_controller_reference instance o.deployment.meta)
    service ← own_service instance o.service
    pure (record o { deployment = record o.deployment { meta = meta }; service = service })

  pub apply_instance : Microservice → Exec p (Unit {0})
  apply_instance instance = do
    o ← own_objects instance (get_instance_objects instance)
    reply ← try (
        send (get_deployment o.deployment.meta.namespace o.deployment.meta.name)
          (p.deployments.get o.deployment.meta.namespace o.deployment.meta.name))
    resources_for instance o reply

  -- By the deletion timestamp.
  unfoldable pub reconcile_by : Option String → Microservice → Exec p (Unit {0})
  reconcile_by (some time) instance = delete_instance instance
  reconcile_by none instance = register_finalizer instance >>= apply_instance

  unfoldable pub reconcile_instance : Microservice → Exec p (Unit {0})
  reconcile_instance instance = reconcile_by instance.meta.deletion_timestamp instance

  -- `isValid`, whose argument is always a `Microservice`.
  abbrev pub is_valid : Microservice → Result (Unit {0})
  is_valid instance = p.validate instance

  unfoldable pub reconcile_found : Result Microservice → Exec p (Unit {0})
  reconcile_found (err e) = if is_not_found e then pure tt else fail e
  reconcile_found (ok instance) = do lift (is_valid instance); reconcile_instance instance

  -- `Reconcile`
  unfoldable pub reconcile : String → String → Exec p (Unit {0})
  reconcile namespace name = do
    reply ← try (send (get_microservice namespace name) (p.microservices.get namespace name))
    reconcile_found reply
