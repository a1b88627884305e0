-- ===== src/Controller/Reconcile/Kept.antt =====
-- What a reconciliation keeps: the rules for its requests make a rule for the whole.
pub mod Interface
pub mod Creating
pub mod Updating
pub mod First
use kom_operator.Prelude.{
  String, ◌≡◌, refl, ap, sym, ◌∙◌, subst, Bool, true, false, not, Option, none, some, List, [], ◌∷◌,
  append, items, if◌then◌else◌, ◌==◌,
}
use kom_operator.Errors.{Error, Result, ok, err, is_not_found}
use kom_operator.Kube.{Deployment, KubeService, ObjectMeta}
use kom_operator.Api.{Microservice, Http}
use kom_operator.Platform.{Platform}
use kom_operator.Util.{contains_string, remove_string}
use kom_operator.Routes.{Route}
use kom_operator.Exec.{◌>>=◌, Exec, Sys, pure, fail, panic, lift, try, send}
use kom_operator.Exec.Keeps.{
  Keeps, Any, OnSuccess, Keeps-bind, Keeps-try, Keeps-pure, Keeps-fail, Keeps-panic, Keeps-lift,
  Keeps-if, Keeps-Any,
}
use kom_operator.AutoScaling.Kept.{OwnMeta, KeepsNames, own_reference, Keeps-run}
use kom_operator.Controller.Objects.{
  InstanceObjects, get_instance_objects, objects_of, new_deployment, new_service,
}
use kom_operator.Controller.Changes.{has_changes}
use kom_operator.Controller.Status.{update_status}
use kom_operator.Controller.Status.Kept.{Keeps-update_status}
use kom_operator.Controller.Reconcile.{
  finalizer_name, with_finalizers, nil_pointer, finalize, finalize_service, update_instance,
  delete_instance, register_finalizer, create_routes, create_service_with_routes, create_all,
  forget, after_create, create_resources, smart_reload_off, changes_or_panic, find_changes,
  update_deployment_if, has_no_routes, renew_service, replace_service, replace_service_if,
  apply_changes, update_resources, resources_for, own_service, own_objects, apply_instance,
  reconcile_by, reconcile_instance, reconcile_found, reconcile,
}
use kom_operator.Controller.Reconcile.Kept.Interface.{
  Rules, OwnInstance, OwnDeployment, OwnService, OwnObjects,
}
use kom_operator.Controller.Reconcile.Kept.Creating.{Keeps-create_resources}
use kom_operator.Controller.Reconcile.Kept.Updating.{Keeps-update_resources}

module _ {p : Platform} {I : Sys p → Type 0} {Own : String → String → Type 0}
    (r : Rules p I Own) where
  objects_Own :
      (m : Microservice) (hs : List Http) → OwnInstance Own m → OwnObjects Own (objects_of m hs)
  unfolding objects_of new_deployment new_service
  objects_Own m [] own = (own, tt)
  objects_Own m (h ∷ hs) own = (own, own)

  pub instance_objects_Own :
      (m : Microservice) → OwnInstance Own m → OwnObjects Own (get_instance_objects m)
  unfolding get_instance_objects
  instance_objects_Own m own = objects_Own m (items m.spec.container.routing.http) own

  Keeps-finalize_service :
      (service : Option KubeService)
      → OwnService Own service
      → Keeps I (finalize_service p service) Any
  unfolding finalize_service
  Keeps-finalize_service none own = Keeps-pure tt tt
  Keeps-finalize_service (some s) own = r.remove_router s.meta.namespace s.meta.name true own

  pub Keeps-finalize : (m : Microservice) → OwnInstance Own m → Keeps I (finalize p m) Any
  unfolding finalize
  Keeps-finalize m own =
      Keeps-finalize_service (get_instance_objects m).service (instance_objects_Own m own).1

  pub Keeps-delete_instance :
      (m : Microservice) → OwnInstance Own m → Keeps I (delete_instance p m) Any
  unfolding delete_instance
  Keeps-delete_instance m own =
      Keeps-if (contains_string m.meta.finalizers finalizer_name)
        (λ _. Keeps-bind (Keeps-finalize m own) λ done _.
          Keeps-bind
            (r.update_instance (with_finalizers m (remove_string m.meta.finalizers finalizer_name))
              own)
            λ updated _. Keeps-pure tt tt)
        (λ _. Keeps-pure tt tt)

  Keeps-register_finalizer :
      (m : Microservice) → OwnInstance Own m → Keeps I (register_finalizer p m) (OwnInstance Own)
  unfolding register_finalizer
  Keeps-register_finalizer m own =
      Keeps-if (not (contains_string m.meta.finalizers finalizer_name))
        (λ _. r.update_instance (with_finalizers m (append m.meta.finalizers finalizer_name)) own)
        (λ _. Keeps-pure m own)

  Keeps-resources_for :
      (m : Microservice) (o : InstanceObjects) (reply : Result Deployment)
      → OwnInstance Own m
      → OwnObjects Own o
      → OnSuccess (OwnDeployment Own) reply
      → Keeps I (resources_for p m o reply) Any
  unfolding resources_for
  Keeps-resources_for m o (ok d) own own_o own_d = Keeps-update_resources r m o d own own_o own_d
  Keeps-resources_for m o (err e) own own_o own_d =
      Keeps-if (is_not_found e) (λ _. Keeps-create_resources r m o own own_o) (λ _. Keeps-fail e)

  Keeps-own_service :
      (m : Microservice) (service : Option KubeService)
      → OwnService Own service
      → Keeps I (own_service p m service) (OwnService Own)
  unfolding own_service
  Keeps-own_service m none own = Keeps-pure none tt
  Keeps-own_service m (some s) own =
      Keeps-bind
        (Keeps-lift {Q = OwnMeta Own} (p.set_controller_reference m s.meta)
          (λ a e. own_reference r.names Own m s.meta a e own))
        λ meta own'. Keeps-pure (some (record s { meta = meta })) own'

  pub Keeps-own_objects :
      (m : Microservice) (o : InstanceObjects)
      → OwnObjects Own o
      → Keeps I (own_objects p m o) (OwnObjects Own)
  unfolding own_objects
  Keeps-own_objects m o (own, own_s) =
      Keeps-bind
        (Keeps-lift {Q = OwnMeta Own} (p.set_controller_reference m o.deployment.meta)
          (λ a e. own_reference r.names Own m o.deployment.meta a e own))
        λ meta own'. Keeps-bind (Keeps-own_service m o.service own_s) λ service own_s'.
          Keeps-pure
            (record o { deployment = record o.deployment { meta = meta }; service = service })
            (own', own_s')

  Keeps-apply_instance : (m : Microservice) → OwnInstance Own m → Keeps I (apply_instance p m) Any
  unfolding apply_instance
  Keeps-apply_instance m own =
      Keeps-bind (Keeps-own_objects m (get_instance_objects m) (instance_objects_Own m own))
        λ o own_o.
          Keeps-bind
            (Keeps-try
              (r.get_deployment o.deployment.meta.namespace o.deployment.meta.name own_o.0))
            λ reply own_d. Keeps-resources_for m o reply own own_o own_d

  Keeps-reconcile_by :
      (deleted : Option String) (m : Microservice)
      → OwnInstance Own m
      → Keeps I (reconcile_by p deleted m) Any
  unfolding reconcile_by
  Keeps-reconcile_by (some time) m own = Keeps-delete_instance m own
  Keeps-reconcile_by none m own =
      Keeps-bind (Keeps-register_finalizer m own) λ m' own'. Keeps-apply_instance m' own'

  Keeps-reconcile_found :
      (reply : Result Microservice)
      → OnSuccess (OwnInstance Own) reply
      → Keeps I (reconcile_found p reply) Any
  unfolding reconcile_found reconcile_instance
  Keeps-reconcile_found (err e) own =
      Keeps-if (is_not_found e) (λ _. Keeps-pure tt tt) (λ _. Keeps-fail e)
  Keeps-reconcile_found (ok m) own =
      Keeps-bind (Keeps-lift {Q = Any} (p.validate m) (λ a e. tt))
        λ valid _. Keeps-reconcile_by m.meta.deletion_timestamp m own

  -- A reconciliation of an object that may be touched keeps what its requests keep.
  pub Keeps-reconcile :
      (namespace name : String) → Own namespace name → Keeps I (reconcile p namespace name) Any
  unfolding reconcile
  Keeps-reconcile namespace name own =
      Keeps-bind (Keeps-try (r.get_microservice namespace name own))
        λ reply own_m. Keeps-reconcile_found reply own_m
