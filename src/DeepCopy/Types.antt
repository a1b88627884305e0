-- ===== src/DeepCopy/Types.antt =====
-- api/v1alpha1/microservice_types.go in Go's memory: slices, maps and pointers are addresses.
use kom_operator.Prelude.{String, refl, Option, none, some, List, ℤ}
use kom_operator.Kube.{TypeMeta}
use kom_operator.Api.{Http, Scaler, Status}
use kom_operator.DeepCopy.Memory.{Address, Kind}

-- The types of other packages that the resource is made of, and what their own cells hold.
pub record Foreign : Type 1 where
  pub Contents : Type 0
  pub ObjectMeta : Type 0
  pub ListMeta : Type 0
  pub Time : Type 0
  pub VolumeMount : Type 0
  pub Volume : Type 0
  pub ResourceRequirements : Type 0
  pub PodSecurityContext : Type 0

pub record Routing : Type 0 where
  pub http : Address

pub record MicroservicesAutoscaling : Type 0 where
  pub scaler : Address
  pub max : ℤ
  pub min : ℤ

pub record Container (F : Foreign) : Type 0 where
  pub image : String
  pub command : Address
  pub args : Address
  pub routing : Routing
  pub image_pull_policy : String
  pub volume_mounts : Address
  pub resources : F.ResourceRequirements

pub record MicroserviceSpec (F : Foreign) : Type 0 where
  pub container : Container F
  pub autoscaling : MicroservicesAutoscaling
  pub volumes : Address
  pub service_account_name : String
  pub node_selector : Address
  pub security_context : Address

pub record MicroserviceStatus (F : Foreign) : Type 0 where
  pub routing : Routing
  pub status : Status
  pub last_update : F.Time
  pub reason : String

pub record Microservice (F : Foreign) : Type 0 where
  pub type_meta : TypeMeta
  pub meta : F.ObjectMeta
  pub spec : MicroserviceSpec F
  pub status : MicroserviceStatus F

pub record MicroserviceList (F : Foreign) : Type 0 where
  pub type_meta : TypeMeta
  pub meta : F.ListMeta
  pub items : Address

-- What a cell holds: the array of a slice, the entries of a map, or the struct of a pointer, as an
-- array of one.
pub data Cell (F : Foreign) : Type 0 where
  strings : List String → Cell F
  https : List Http → Cell F
  scalers : List Scaler → Cell F
  entries : List (String × String) → Cell F
  routings : List Routing → Cell F
  containers : List (Container F) → Cell F
  autoscalings : List MicroservicesAutoscaling → Cell F
  specs : List (MicroserviceSpec F) → Cell F
  statuses : List (MicroserviceStatus F) → Cell F
  microservices : List (Microservice F) → Cell F
  lists : List (MicroserviceList F) → Cell F
  mounts : List F.VolumeMount → Cell F
  volumes : List F.Volume → Cell F
  security_contexts : List F.PodSecurityContext → Cell F
  others : F.Contents → Cell F

module _ {F : Foreign} where
  abbrev pub string_kind : Kind (Cell F) String
  string_kind = record { inject = λ xs. strings xs; project = project; project-inject = λ xs. refl }
    where
      project : Cell F → Option (List String)
      project (strings xs) = some xs
      project _ = none

  abbrev pub http_kind : Kind (Cell F) Http
  http_kind = record { inject = λ xs. https xs; project = project; project-inject = λ xs. refl }
    where
      project : Cell F → Option (List Http)
      project (https xs) = some xs
      project _ = none

  abbrev pub scaler_kind : Kind (Cell F) Scaler
  scaler_kind = record { inject = λ xs. scalers xs; project = project; project-inject = λ xs. refl }
    where
      project : Cell F → Option (List Scaler)
      project (scalers xs) = some xs
      project _ = none

  abbrev pub entry_kind : Kind (Cell F) (String × String)
  entry_kind = record { inject = λ xs. entries xs; project = project; project-inject = λ xs. refl }
    where
      project : Cell F → Option (List (String × String))
      project (entries xs) = some xs
      project _ = none

  abbrev pub routing_kind : Kind (Cell F) Routing
  routing_kind = record {
    inject = λ xs. routings xs;
    project = project;
    project-inject = λ xs. refl;
  }
    where
      project : Cell F → Option (List Routing)
      project (routings xs) = some xs
      project _ = none

  abbrev pub container_kind : Kind (Cell F) (Container F)
  container_kind = record {
    inject = λ xs. containers xs;
    project = project;
    project-inject = λ xs. refl;
  }
    where
      project : Cell F → Option (List (Container F))
      project (containers xs) = some xs
      project _ = none

  abbrev pub autoscaling_kind : Kind (Cell F) MicroservicesAutoscaling
  autoscaling_kind = record {
    inject = λ xs. autoscalings xs;
    project = project;
    project-inject = λ xs. refl;
  }
    where
      project : Cell F → Option (List MicroservicesAutoscaling)
      project (autoscalings xs) = some xs
      project _ = none

  abbrev pub spec_kind : Kind (Cell F) (MicroserviceSpec F)
  spec_kind = record { inject = λ xs. specs xs; project = project; project-inject = λ xs. refl }
    where
      project : Cell F → Option (List (MicroserviceSpec F))
      project (specs xs) = some xs
      project _ = none

  abbrev pub status_kind : Kind (Cell F) (MicroserviceStatus F)
  status_kind = record {
    inject = λ xs. statuses xs;
    project = project;
    project-inject = λ xs. refl;
  }
    where
      project : Cell F → Option (List (MicroserviceStatus F))
      project (statuses xs) = some xs
      project _ = none

  abbrev pub microservice_kind : Kind (Cell F) (Microservice F)
  microservice_kind = record {
    inject = λ xs. microservices xs;
    project = project;
    project-inject = λ xs. refl;
  }
    where
      project : Cell F → Option (List (Microservice F))
      project (microservices xs) = some xs
      project _ = none

  abbrev pub list_kind : Kind (Cell F) (MicroserviceList F)
  list_kind = record { inject = λ xs. lists xs; project = project; project-inject = λ xs. refl }
    where
      project : Cell F → Option (List (MicroserviceList F))
      project (lists xs) = some xs
      project _ = none

  abbrev pub mount_kind : Kind (Cell F) F.VolumeMount
  mount_kind = record { inject = λ xs. mounts xs; project = project; project-inject = λ xs. refl }
    where
      project : Cell F → Option (List F.VolumeMount)
      project (mounts xs) = some xs
      project _ = none

  abbrev pub volume_kind : Kind (Cell F) F.Volume
  volume_kind = record { inject = λ xs. volumes xs; project = project; project-inject = λ xs. refl }
    where
      project : Cell F → Option (List F.Volume)
      project (volumes xs) = some xs
      project _ = none

  abbrev pub security_context_kind : Kind (Cell F) F.PodSecurityContext
  security_context_kind = record {
    inject = λ xs. security_contexts xs;
    project = project;
    project-inject = λ xs. refl;
  }
    where
      project : Cell F → Option (List F.PodSecurityContext)
      project (security_contexts xs) = some xs
      project _ = none
