-- ===== src/Controller/Changes/Fresh.antt =====
-- What `hasChanges` says of a deployment that the operator has just created.
use mathlib.Core.Logic.Or
use mathlib.Core.List.{mem-cons}
use kom_operator.Prelude.{
  String, ◌≡◌, ◌↔◌, refl, ap, subst, sym, true, false, List, [], ◌∷◌, items, ℤ, pos, int_lt, inl,
  inr, Bool-cases,
}
use kom_operator.Errors.{Result, ok, err}
use kom_operator.Kube.{ContainerPort}
use kom_operator.Api.{Microservice, Http}
use kom_operator.Platform.{Platform}
use kom_operator.Util.Equality.{equals_refl}
use kom_operator.Controller.Objects.{
  get_instance_objects, objects_of, initial_replicas, new_deployment, pod_container,
}
use kom_operator.Controller.Objects.Shape.{initial_replicas_positive}
use kom_operator.Controller.Status.{new_status}
use kom_operator.Controller.Changes.{deployment_changed, service_changed}
use kom_operator.Controller.Changes.Decision.{IsCurrent, deployment_changed_iff}

pub new_deployment-IsCurrent :
    (cr : Microservice) (ports : List ContainerPort) (replicas : ℤ)
    → replicas ≡ cr.spec.autoscaling.min
    → IsCurrent cr (new_deployment cr ports) replicas
unfolding new_deployment pod_container
new_deployment-IsCurrent cr ports replicas e = record {
  replicas_wanted = e;
  account = refl;
  image = mem-cons.1 (Or.inl refl);
  runs = (λ _. record { args = refl; command = refl; resources = refl }, tt);
}

objects_of-deployment :
    (cr : Microservice) (hs : List Http)
    → (ports : List ContainerPort) × ((objects_of cr hs).deployment ≡ new_deployment cr ports)
unfolding objects_of
objects_of-deployment cr [] = ([], refl)
objects_of-deployment cr (x ∷ xs) = (_, refl)

-- The deployment that `getInstanceObjects` builds counts as unchanged for the same microservice
-- exactly when its initial replica count is the minimum of the specification.
pub fresh_deployment_iff :
    (cr : Microservice)
    → (deployment_changed cr (get_instance_objects cr).deployment (initial_replicas cr) ≡ false)
      ↔ (initial_replicas cr ≡ cr.spec.autoscaling.min)
unfolding get_instance_objects
fresh_deployment_iff cr =
    let (ports, e) = objects_of-deployment cr (items cr.spec.container.routing.http) in
    let decide =
      deployment_changed_iff cr (get_instance_objects cr).deployment (initial_replicas cr) in
    (
      λ h. (decide.0 h).replicas_wanted,
      λ same. decide.1 (
          subst (λ d. IsCurrent cr d (initial_replicas cr)) (sym e)
            (new_deployment-IsCurrent cr ports (initial_replicas cr) same)),
    )

-- When the minimum of the specification is not positive, the deployment that `getInstanceObjects`
-- builds counts as changed for the same microservice.
pub unset_min_never_settles :
    (cr : Microservice)
    → int_lt (pos 0) cr.spec.autoscaling.min ≡ false
    → deployment_changed cr (get_instance_objects cr).deployment (initial_replicas cr) ≡ true
unset_min_never_settles cr unset =
    elim (Bool-cases
      (deployment_changed cr (get_instance_objects cr).deployment (initial_replicas cr))) [
        | inl changed ↦ changed
        | inr current ↦
            let same = (fresh_deployment_iff cr).0 current in
            absurd (cc (unset, initial_replicas_positive cr, ap (int_lt (pos 0)) same))
      ]

-- With the status that `udpateStatus` makes, for a success or a failure, the service of the same
-- specification counts as unchanged.
pub stored_status_hides_routing :
    (p : Platform) (instance : Microservice) (now : String) (r : Result (Unit {0}))
    → service_changed (record instance { status = new_status p instance now r }) ≡ false
unfolding service_changed new_status
stored_status_hides_routing p instance now (ok done) =
    rw (equals_refl instance.spec.container.routing) refl
stored_status_hides_routing p instance now (err e) =
    rw (equals_refl instance.spec.container.routing) refl
