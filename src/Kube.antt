-- ===== src/Kube.antt =====
-- The Kubernetes objects that the operator sends and reads, with the fields that its source names.
-- What the source only copies from one object to another is a text that stands for the value.
use kom_operator.Prelude.{
  String, Bool, true, ◌&&◌, string_eq, int32_eq, ◌≡◌, ◌↔◌, Option, List, ℤ, Eq, ◌==◌, Slice, arith,
  eq_iff, int_eq_iff,
}

pub record OwnerReference : Type 0 where
  pub api_version : String
  pub kind : String
  pub name : String
  pub uid : String

pub record TypeMeta : Type 0 where
  pub kind : String
  pub api_version : String

abbrev pub Labels : Type 0
Labels = List (String × String)

pub record ObjectMeta : Type 0 where
  pub name : String
  pub namespace : String
  pub annotations : Labels
  pub labels : Labels
  pub owner_references : List OwnerReference
  pub finalizers : Slice String
  pub deletion_timestamp : Option String
  pub generation : ℤ

-- `Protocol` and the other text types of the API are their texts.
pub record ContainerPort : Type 0 where
  pub name : String
  pub host_port : ℤ
  pub container_port : ℤ
  pub protocol : String
  pub host_ip : String

-- A resource list by the text of its entries; a claim list likewise. `none` is nil.
pub record ResourceRequirements : Type 0 where
  pub limits : Option String
  pub requests : Option String
  pub claims : Option String

pub record VolumeMount : Type 0 where
  pub name : String
  pub mount_path : String

-- A volume that takes its files from a ConfigMap, or any other source by its text.
pub data VolumeSource : Type 0 where
  config_map : String → VolumeSource
  other_source : String → VolumeSource

pub record Volume : Type 0 where
  pub name : String
  pub source : VolumeSource

-- `corev1.Container`; the operator's own `Container` is in `Api`.
pub record PodContainer : Type 0 where
  pub name : String
  pub image : String
  pub command : Slice String
  pub args : Slice String
  pub ports : List ContainerPort
  pub volume_mounts : List VolumeMount
  pub resources : ResourceRequirements
  pub image_pull_policy : String

pub record PodSpec : Type 0 where
  pub containers : List PodContainer
  pub volumes : List Volume
  pub service_account_name : String
  pub node_selector : Labels
  pub security_context : Option String

pub record Deployment : Type 0 where
  pub type_meta : TypeMeta
  pub meta : ObjectMeta
  pub replicas : Option ℤ
  pub selector : Labels
  pub template_labels : Labels
  pub pod : PodSpec

pub record ServicePort : Type 0 where
  pub name : String
  pub protocol : String
  pub port : ℤ
  pub target_port : String

pub record KubeService : Type 0 where
  pub meta : ObjectMeta
  pub ports : List ServicePort
  pub selector : Labels
  pub service_type : String

pub record ConfigMap : Type 0 where
  pub meta : ObjectMeta
  pub entries : List (String × String)

pub record Pod : Type 0 where
  pub name : String
  pub uid : String

-- A quantity by its text.
abbrev pub Quantity : Type 0
Quantity = String

-- `autoscaling.MetricTarget` by its type.
pub data MetricTarget : Type 0 where
  average_value value : Quantity → MetricTarget
  average_utilization : ℤ → MetricTarget

-- A metric of type `Resource`.
pub record MetricSpec : Type 0 where
  pub resource : String
  pub target : MetricTarget

pub record HorizontalPodAutoscaler : Type 0 where
  pub type_meta : TypeMeta
  pub meta : ObjectMeta
  pub target_api_version : String
  pub target_kind : String
  pub target_name : String
  pub min_replicas : ℤ
  pub max_replicas : ℤ
  pub metrics : List MetricSpec

-- Go's `==` on ports, field by field.
abbrev port_beq : ContainerPort → ContainerPort → Bool
port_beq a b =
    a.name == b.name
    && (a.host_port == b.host_port
        && (a.container_port == b.container_port
            && (a.protocol == b.protocol && a.host_ip == b.host_ip)))

module _ (a b : ContainerPort) where
  pub port_beq_iff : (port_beq a b ≡ true) ↔ (a ≡ b)
  port_beq_iff = ground (
    arith,
    eq_iff a.name b.name,
    int_eq_iff a.host_port b.host_port,
    int_eq_iff a.container_port b.container_port,
    eq_iff a.protocol b.protocol,
    eq_iff a.host_ip b.host_ip,
  )

instance abbrev pub port_eq : Eq ContainerPort
port_eq = record { beq = port_beq; beq_iff = port_beq_iff }
