-- ===== src/Api.antt =====
-- api/v1alpha1/microservice_types.go: the custom resource that the operator reconciles.
use text.Mathlib.Text.{◌==◌ as str_eq}
use kom_operator.Prelude.{
  String, Bool, true, ◌&&◌, ◌≡◌, ◌↔◌, Option, List, ℤ, Eq, ◌==◌, option_eq, option_beq_iff, list_eq,
  string_eq, false, Slice, arith, eq_iff,
}
use kom_operator.Kube.{
  ContainerPort, port_eq, port_beq_iff, VolumeMount, Volume, ResourceRequirements, Labels,
  ObjectMeta, TypeMeta,
}

-- `Status`; `unset` is the empty text of a resource that has not been reconciled.
pub data Status : Type 0 where
  unset success failure : Status

-- `Resource`: the targets that the operator knows, or any other text.
pub data Resource : Type 0 where
  cpu memory : Resource
  other_resource : String → Resource

-- `ScalerType`
pub data ScalerType : Type 0 where
  utilization value average_value : ScalerType
  other_type : String → ScalerType

-- `HTTP`, one route
pub record Http : Type 0 where
  pub port : ContainerPort
  pub rule : String

pub record Routing : Type 0 where
  pub http : Slice Http

pub record Scaler : Type 0 where
  pub resource : Resource
  pub type : ScalerType
  pub value : String

pub record MicroservicesAutoscaling : Type 0 where
  pub scaler : List Scaler
  pub max : ℤ
  pub min : ℤ

pub record Container : Type 0 where
  pub image : String
  pub command : Slice String
  pub args : Slice String
  pub routing : Routing
  pub image_pull_policy : String
  pub volume_mounts : List VolumeMount
  pub resources : ResourceRequirements

pub record MicroserviceSpec : Type 0 where
  pub container : Container
  pub autoscaling : MicroservicesAutoscaling
  pub volumes : List Volume
  pub service_account_name : String
  pub node_selector : Labels
  pub security_context : Option String

pub record MicroserviceStatus : Type 0 where
  pub routing : Routing
  pub status : Status
  pub last_update : String
  pub reason : String

pub record Microservice : Type 0 where
  pub type_meta : TypeMeta
  pub meta : ObjectMeta
  pub spec : MicroserviceSpec
  pub status : MicroserviceStatus

-- `reflect.DeepEqual` on routes and on routings
abbrev http_beq : Http → Http → Bool
http_beq a b = a.port == b.port && str_eq a.rule b.rule

module _ (a b : Http) where
  pub http_beq_iff : (http_beq a b ≡ true) ↔ (a ≡ b)
  http_beq_iff = ground (arith, eq_iff a.rule b.rule, port_beq_iff a.port b.port)

instance abbrev pub http_eq : Eq Http
http_eq = record { beq = http_beq; beq_iff = http_beq_iff }

module _ (a b : Routing) where
  abbrev pub routing_beq : Bool
  routing_beq = a.http == b.http

  pub routing_beq_iff : (routing_beq ≡ true) ↔ (a ≡ b)
  routing_beq_iff = ground (arith, option_beq_iff a.http b.http)

instance abbrev pub routing_eq : Eq Routing
routing_eq = record { beq = routing_beq; beq_iff = routing_beq_iff }

abbrev status_beq : Status → Status → Bool
status_beq unset unset = true
status_beq success success = true
status_beq failure failure = true
status_beq _ _ = false

pub status_beq_iff : (a b : Status) → (status_beq a b ≡ true) ↔ (a ≡ b)
status_beq_iff unset b = ground arith
status_beq_iff success b = ground arith
status_beq_iff failure b = ground arith

instance abbrev pub status_eq : Eq Status
status_eq = record { beq = status_beq; beq_iff = status_beq_iff }
