-- ===== src/DeepCopy/Functions.antt =====
-- api/v1alpha1/zz_generated.deepcopy.go: `DeepCopyInto`, which returns the struct that it fills,
-- and `DeepCopy`, for each type of the resource.
use kom_operator.Prelude.{none, some}
use kom_operator.Api.{Http, Scaler}
use kom_operator.DeepCopy.Memory.{Address, Copy, pure, ◌>>=◌, copy_array}
use kom_operator.DeepCopy.Types.{
  Foreign, Routing, MicroservicesAutoscaling, Container, MicroserviceSpec, MicroserviceStatus,
  Microservice, MicroserviceList, Cell, string_kind, http_kind, scaler_kind, entry_kind,
  routing_kind, container_kind, autoscaling_kind, spec_kind, status_kind, microservice_kind,
  list_kind, mount_kind, volume_kind, security_context_kind,
}

-- `DeepCopyInto` of the types of other packages.
pub record Externals (F : Foreign) : Type 0 where
  pub meta : F.ObjectMeta → Copy (Cell F) F.ObjectMeta
  pub list_meta : F.ListMeta → Copy (Cell F) F.ListMeta
  pub time : F.Time → Copy (Cell F) F.Time
  pub volume_mount : F.VolumeMount → Copy (Cell F) F.VolumeMount
  pub volume : F.Volume → Copy (Cell F) F.Volume
  pub resources : F.ResourceRequirements → Copy (Cell F) F.ResourceRequirements
  pub security_context : F.PodSecurityContext → Copy (Cell F) F.PodSecurityContext

module _ {F : Foreign} where
  -- A slice whose elements are assigned, by `copy` or in a loop; a map likewise, by its entries.
  unfoldable pub copy_strings : Address → Copy (Cell F) Address
  copy_strings a = copy_array string_kind pure a

  unfoldable pub copy_entries : Address → Copy (Cell F) Address
  copy_entries a = copy_array entry_kind pure a

  unfoldable pub http_deep_copy_into : Http → Copy (Cell F) Http
  http_deep_copy_into from = pure (record from { port = from.port })

  unfoldable pub scaler_deep_copy_into : Scaler → Copy (Cell F) Scaler
  scaler_deep_copy_into from = pure from

  unfoldable pub routing_deep_copy_into : Routing → Copy (Cell F) Routing
  routing_deep_copy_into from = do
    http ← copy_array http_kind pure from.http
    pure (record from { http = http })

  unfoldable pub autoscaling_deep_copy_into :
      MicroservicesAutoscaling → Copy (Cell F) MicroservicesAutoscaling
  autoscaling_deep_copy_into from = do
    scaler ← copy_array scaler_kind pure from.scaler
    pure (record from { scaler = scaler })

  pub http_deep_copy : Address → Copy (Cell F) Address
  http_deep_copy from = copy_array http_kind http_deep_copy_into from

  pub scaler_deep_copy : Address → Copy (Cell F) Address
  scaler_deep_copy from = copy_array scaler_kind scaler_deep_copy_into from

  pub routing_deep_copy : Address → Copy (Cell F) Address
  routing_deep_copy from = copy_array routing_kind routing_deep_copy_into from

  pub autoscaling_deep_copy : Address → Copy (Cell F) Address
  autoscaling_deep_copy from = copy_array autoscaling_kind autoscaling_deep_copy_into from

  -- `if c := in.DeepCopy(); c != nil { return c }; return nil`
  abbrev pub object_of : Address → Copy (Cell F) Address
  object_of none = pure none
  object_of (some c) = pure (some c)

module _ {F : Foreign} (e : Externals F) where
  unfoldable pub container_deep_copy_into : Container F → Copy (Cell F) (Container F)
  container_deep_copy_into from = do
    command ← copy_strings from.command
    args ← copy_strings from.args
    routing ← routing_deep_copy_into from.routing
    volume_mounts ← copy_array mount_kind e.volume_mount from.volume_mounts
    resources ← e.resources from.resources
    pure (record from {
      command = command;
      args = args;
      routing = routing;
      volume_mounts = volume_mounts;
      resources = resources;
    })

  unfoldable pub spec_deep_copy_into : MicroserviceSpec F → Copy (Cell F) (MicroserviceSpec F)
  spec_deep_copy_into from = do
    container ← container_deep_copy_into from.container
    autoscaling ← autoscaling_deep_copy_into from.autoscaling
    volumes ← copy_array volume_kind e.volume from.volumes
    node_selector ← copy_entries from.node_selector
    security_context ← copy_array security_context_kind e.security_context from.security_context
    pure (record from {
      container = container;
      autoscaling = autoscaling;
      volumes = volumes;
      node_selector = node_selector;
      security_context = security_context;
    })

  unfoldable pub status_deep_copy_into : MicroserviceStatus F → Copy (Cell F) (MicroserviceStatus F)
  status_deep_copy_into from = do
    routing ← routing_deep_copy_into from.routing
    last_update ← e.time from.last_update
    pure (record from { routing = routing; last_update = last_update })

  unfoldable pub microservice_deep_copy_into : Microservice F → Copy (Cell F) (Microservice F)
  microservice_deep_copy_into from = do
    meta ← e.meta from.meta
    spec ← spec_deep_copy_into from.spec
    status ← status_deep_copy_into from.status
    pure (record from { meta = meta; spec = spec; status = status })

  unfoldable pub list_deep_copy_into : MicroserviceList F → Copy (Cell F) (MicroserviceList F)
  list_deep_copy_into from = do
    meta ← e.list_meta from.meta
    items ← copy_array microservice_kind microservice_deep_copy_into from.items
    pure (record from { meta = meta; items = items })

  -- The receiver of `DeepCopy` is a pointer; nil stays nil, also as a `runtime.Object`.
  pub container_deep_copy : Address → Copy (Cell F) Address
  container_deep_copy from = copy_array container_kind container_deep_copy_into from

  pub spec_deep_copy : Address → Copy (Cell F) Address
  spec_deep_copy from = copy_array spec_kind spec_deep_copy_into from

  pub status_deep_copy : Address → Copy (Cell F) Address
  status_deep_copy from = copy_array status_kind status_deep_copy_into from

  unfoldable pub microservice_deep_copy : Address → Copy (Cell F) Address
  microservice_deep_copy from = copy_array microservice_kind microservice_deep_copy_into from

  unfoldable pub list_deep_copy : Address → Copy (Cell F) Address
  list_deep_copy from = copy_array list_kind list_deep_copy_into from

  unfoldable pub microservice_deep_copy_object : Address → Copy (Cell F) Address
  microservice_deep_copy_object from = microservice_deep_copy from >>= object_of

  unfoldable pub list_deep_copy_object : Address → Copy (Cell F) Address
  list_deep_copy_object from = list_deep_copy from >>= object_of
