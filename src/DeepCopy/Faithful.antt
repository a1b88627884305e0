-- ===== src/DeepCopy/Faithful.antt =====
-- What the generated functions copy.
pub mod Whole
use kom_operator.Prelude.{String, ◌≡◌, refl, Option, none, some, List, ℤ, subst}
use kom_operator.Kube.{TypeMeta}
use kom_operator.Api
use kom_operator.Api.{Http, Scaler}
use kom_operator.DeepCopy.Memory.{
  Memory, Address, Copy, pure, ◌>>=◌, copy_array, Deep, Kind, Below, Between, Same,
}
use kom_operator.DeepCopy.Copies.{
  Copied, Copies, Plain, Plain-Copies, Both, copy_both, Both-Copies, Fields, Fields-Copies,
}
use kom_operator.DeepCopy.Copies.Arrays.{Array, Array-Copies}
use kom_operator.DeepCopy.Types.{
  Foreign, Routing, MicroservicesAutoscaling, Container, MicroserviceSpec, MicroserviceStatus,
  Microservice, MicroserviceList, Cell, string_kind, http_kind, scaler_kind, entry_kind,
  routing_kind, container_kind, autoscaling_kind, spec_kind, status_kind, microservice_kind,
  list_kind, mount_kind, volume_kind, security_context_kind,
}
use kom_operator.DeepCopy.Functions.{
  Externals, copy_strings, copy_entries, routing_deep_copy_into, autoscaling_deep_copy_into,
  container_deep_copy_into, spec_deep_copy_into, status_deep_copy_into, microservice_deep_copy_into,
  list_deep_copy_into, microservice_deep_copy, list_deep_copy,
}

-- How the values of a type of another package are read, and that its `DeepCopyInto` copies them.
pub record Documented (F : Foreign) {T : Type 0} (copy_into : T → Copy (Cell F) T) : Type 1 where
  pub Value : Type 0
  pub deep : Deep (Cell F) T Value
  pub copies : Copies deep copy_into

-- What the other packages document of their `DeepCopyInto`.
pub record DeepCopies {F : Foreign} (e : Externals F) : Type 1 where
  pub meta : Documented F e.meta
  pub list_meta : Documented F e.list_meta
  pub time : Documented F e.time
  pub volume_mount : Documented F e.volume_mount
  pub volume : Documented F e.volume
  pub resources : Documented F e.resources
  pub security_context : Documented F e.security_context

abbrev pub autoscaling_fields : MicroservicesAutoscaling → Address × (ℤ × ℤ)
autoscaling_fields x = (x.scaler, (x.max, x.min))

module _ {F : Foreign} where
  -- An array whose elements lead to no cells.
  abbrev pub PlainArray : {T : Type 0} → Kind (Cell F) T → Deep (Cell F) Address (Option (List T))
  PlainArray k = Array (Plain _) k

  pub PlainArray-Copies :
      {T : Type 0} (k : Kind (Cell F) T) → Copies (PlainArray k) (copy_array k pure)
  PlainArray-Copies k = Array-Copies (Plain _) k pure Plain-Copies

  abbrev pub RoutingDeep : Deep (Cell F) Routing (Option (List Http))
  RoutingDeep = Fields (λ (r : Routing). r.http) (PlainArray http_kind)

  pub routing_copied : Copies RoutingDeep routing_deep_copy_into
  unfolding routing_deep_copy_into
  routing_copied =
      Fields-Copies (λ (r : Routing). r.http) (PlainArray http_kind) (copy_array http_kind pure)
        routing_deep_copy_into (λ x m. refl) (PlainArray-Copies http_kind)

  abbrev pub AutoscalingDeep :
      Deep (Cell F) MicroservicesAutoscaling (Option (List Scaler) × (ℤ × ℤ))
  AutoscalingDeep = Fields autoscaling_fields (Both (PlainArray scaler_kind) (Plain (ℤ × ℤ)))

  pub autoscaling_copied : Copies AutoscalingDeep autoscaling_deep_copy_into
  unfolding autoscaling_deep_copy_into
  autoscaling_copied =
      Fields-Copies autoscaling_fields (Both (PlainArray scaler_kind) (Plain (ℤ × ℤ))) _
        autoscaling_deep_copy_into (λ x m. refl)
        (Both-Copies (PlainArray scaler_kind) (Plain (ℤ × ℤ)) _ _ (PlainArray-Copies scaler_kind)
          Plain-Copies)

  abbrev pub Strings : Deep (Cell F) Address (Option (List String))
  Strings = PlainArray string_kind

module _ {F : Foreign} {e : Externals F} (d : DeepCopies e) where
  -- The values of a container: its image and pull policy, its command, its arguments and the rest.
  abbrev pub ContainerFields : Type 0
  ContainerFields =
      (String × String) × (Address × (Address × (Routing × (Address × F.ResourceRequirements))))

  abbrev pub container_fields : Container F → ContainerFields
  container_fields x = (
    (x.image, x.image_pull_policy),
    (x.command, (x.args, (x.routing, (x.volume_mounts, x.resources)))),
  )

  abbrev pub ContainerValue : Type 0
  ContainerValue =
      (String × String)
      × (Option (List String)
          × (Option (List String)
              × (Option (List Http) × (Option (List d.volume_mount.Value) × d.resources.Value))))

  abbrev mounts_deep : Deep (Cell F) Address (Option (List d.volume_mount.Value))
  mounts_deep = Array d.volume_mount.deep mount_kind

  abbrev container_tuple : Deep (Cell F) ContainerFields ContainerValue
  container_tuple =
      Both (Plain (String × String))
        (Both Strings (Both Strings (Both RoutingDeep (Both mounts_deep d.resources.deep))))

  abbrev pub ContainerDeep : Deep (Cell F) (Container F) ContainerValue
  ContainerDeep = Fields container_fields container_tuple

  pub container_copied : Copies ContainerDeep (container_deep_copy_into e)
  unfolding container_deep_copy_into copy_strings
  container_copied =
      Fields-Copies container_fields container_tuple _ (container_deep_copy_into e) (λ x m. refl)
        (Both-Copies _ _ _ _ Plain-Copies (
          Both-Copies _ _ _ _ (PlainArray-Copies string_kind) (
            Both-Copies _ _ _ _ (PlainArray-Copies string_kind) (
              Both-Copies _ _ _ _ routing_copied (
                Both-Copies _ _ _ _
                  (Array-Copies d.volume_mount.deep mount_kind e.volume_mount d.volume_mount.copies)
                  d.resources.copies)))))
