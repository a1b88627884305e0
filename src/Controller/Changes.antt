-- ===== src/Controller/Changes.antt =====
-- internal/controller/microservice_controller.go: `hasChanges`.
pub mod Decision
pub mod Fresh
use text.Mathlib.Text.{◌==◌ as str_eq}
use kom_operator.Prelude.{
  String, Bool, true, false, not, ◌||◌, ◌&&◌, Option, none, some, List, [], ◌∷◌, ℤ, int_eq, ◌==◌,
  string_eq, list_eq, option_eq, Slice, if◌then◌else◌,
}
use kom_operator.Kube.{Deployment, PodContainer, ResourceRequirements}
use kom_operator.Api.{Microservice, Container}
use kom_operator.Util.{equals}

-- `reflect.DeepEqual` on resource requirements
pub resources_beq : ResourceRequirements → ResourceRequirements → Bool
resources_beq a b = a.limits == b.limits && (a.requests == b.requests && a.claims == b.claims)

-- The arguments, the command or the resources differ.
pub container_differs : Container → PodContainer → Bool
container_differs wanted container =
    not (wanted.args == container.args)
    || not (wanted.command == container.command)
    || not (resources_beq wanted.resources container.resources)

-- The loop over the containers, with its variables `found` and `deploymentChanged`.
pub scan_containers : Container → List PodContainer → Bool → Bool → Bool × Bool
scan_containers wanted [] found changed = (found, changed)
scan_containers wanted (container ∷ rest) found changed =
    let same_image = str_eq wanted.image container.image in
    scan_containers wanted rest (if same_image then true else found)
      (if same_image && container_differs wanted container then true else changed)

pub containers_changed : Container → List PodContainer → Bool
containers_changed wanted containers =
    let (found, changed) = scan_containers wanted containers false false in
    if not found then true else changed

pub deployment_changed : Microservice → Deployment → ℤ → Bool
deployment_changed instance existing replicas =
    if not (int_eq replicas instance.spec.autoscaling.min)
    then true
    else if not (str_eq existing.pod.service_account_name instance.spec.service_account_name)
    then true
    else containers_changed instance.spec.container existing.pod.containers

pub service_changed : Microservice → Bool
service_changed instance = not (equals instance.status.routing instance.spec.container.routing)

-- `hasChanges`: whether the deployment and whether the service changed. `none` is the panic on a
-- deployment without a replica count.
pub has_changes : Microservice → Deployment → Option (Bool × Bool)
has_changes instance existing = elim existing.replicas [
  | none ↦ none
  | some replicas ↦ some (deployment_changed instance existing replicas, service_changed instance)
]
