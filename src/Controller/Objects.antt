-- ===== src/Controller/Objects.antt =====
-- internal/controller/microservice_controller.go: `getInstanceObjects`, the deployment, service and
-- routes that a microservice asks for.
pub mod Shape
pub mod Ports
use text.Mathlib.Text.{◌==◌ as str_eq}
use kom_operator.Prelude.{
  String, Bool, true, false, ◌||◌, ◌&&◌, Option, none, some, List, [], ◌∷◌, ◌++◌, map, ℤ, pos,
  int_eq, int_lt, items, if◌then◌else◌,
}
use kom_operator.Kube.{
  ContainerPort, Deployment, KubeService, ServicePort, PodContainer, Labels, ObjectMeta,
}
use kom_operator.Api.{Microservice, Http, Scaler}
use kom_operator.Routes.{Route}
use kom_operator.Version.{creator}

abbrev pub instance_labels : Microservice → Labels
instance_labels cr = ("app", cr.meta.name) ∷ ("provider", "kom-operator") ∷ []

unfoldable pub is_empty {ℓ} : {A : Type ℓ} → List A → Bool
is_empty [] = true
is_empty (x ∷ xs) = false

unfoldable pub initial_replicas : Microservice → ℤ
unfolding is_empty
initial_replicas cr =
    let min = cr.spec.autoscaling.min in
    if (int_eq min cr.spec.autoscaling.max || is_empty cr.spec.autoscaling.scaler)
      && int_lt (pos 0) min
    then min
    else pos 1

abbrev pub instance_meta : Microservice → ObjectMeta
instance_meta cr = record {
  name = cr.meta.name;
  namespace = cr.meta.namespace;
  annotations = creator;
  labels = instance_labels cr;
  owner_references = [];
  finalizers = none;
  deletion_timestamp = none;
  generation = pos 0;
}

unfoldable pub pod_container : Microservice → List ContainerPort → PodContainer
pod_container cr ports = record {
  image = cr.spec.container.image;
  name = cr.meta.name;
  command = cr.spec.container.command;
  args = cr.spec.container.args;
  ports = ports;
  volume_mounts = cr.spec.container.volume_mounts;
  resources = cr.spec.container.resources;
  image_pull_policy = cr.spec.container.image_pull_policy;
}

unfoldable pub new_deployment : Microservice → List ContainerPort → Deployment
unfolding pod_container
new_deployment cr ports = record {
  type_meta = record { kind = ""; api_version = "" };
  meta = instance_meta cr;
  replicas = some (initial_replicas cr);
  selector = instance_labels cr;
  template_labels = instance_labels cr;
  pod = record {
    security_context = cr.spec.security_context;
    node_selector = cr.spec.node_selector;
    containers = pod_container cr ports ∷ [];
    volumes = cr.spec.volumes;
    service_account_name = cr.spec.service_account_name;
  };
}

unfoldable pub service_port : Http → ServicePort
service_port element = record {
  name = element.port.name;
  protocol = "TCP";
  port = element.port.container_port;
  target_port = element.port.name;
}

unfoldable pub new_service : Microservice → List ServicePort → KubeService
new_service cr ports = record {
  meta = instance_meta cr;
  ports = ports;
  selector = instance_labels cr;
  service_type = "";
}

-- `routers[port] = rule`
unfoldable pub put_route : ℤ → String → List Route → List Route
put_route port rule [] = (port, rule) ∷ []
put_route port rule ((q, r) ∷ rest) =
    if int_eq q port then (port, rule) ∷ rest else (q, r) ∷ put_route port rule rest

-- What the loop over the routes fills.
pub record Loop : Type 0 where
  pub ports : List ContainerPort
  pub service_ports : List ServicePort
  pub routers : List Route

-- One round of the loop.
unfoldable pub add_element : Http → Loop → Loop
unfolding service_port put_route
add_element element l = record {
  ports = l.ports ++ element.port ∷ [];
  service_ports = l.service_ports ++ service_port element ∷ [];
  routers =
      if str_eq element.rule ""
      then l.routers
      else put_route element.port.container_port element.rule l.routers;
}

unfoldable pub run_loop : List Http → Loop → Loop
unfolding add_element
run_loop [] l = l
run_loop (element ∷ rest) l = run_loop rest (add_element element l)

pub record InstanceObjects : Type 0 where
  pub deployment : Deployment
  pub service : Option KubeService
  pub routers : List Route

abbrev pub empty_loop : Loop
empty_loop = record { ports = []; service_ports = []; routers = [] }

unfoldable pub objects_of : Microservice → List Http → InstanceObjects
unfolding new_deployment new_service run_loop
objects_of cr [] = record { deployment = new_deployment cr []; service = none; routers = [] }
objects_of cr (element ∷ rest) =
    let l = run_loop (element ∷ rest) empty_loop in
    record {
      deployment = new_deployment cr l.ports;
      service = some (new_service cr l.service_ports);
      routers = l.routers;
    }

-- `getInstanceObjects`
unfoldable pub get_instance_objects : Microservice → InstanceObjects
unfolding objects_of
get_instance_objects cr = objects_of cr (items cr.spec.container.routing.http)
