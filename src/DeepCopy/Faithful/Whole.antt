-- ===== src/DeepCopy/Faithful/Whole.antt =====
-- Copies of a whole microservice, and of a list of them.
use kom_operator.Prelude.{String, refl, Option, List}
use kom_operator.Kube.{TypeMeta}
use kom_operator.Api.{Http, Scaler, Status}
use kom_operator.Prelude.{ℤ}
use kom_operator.DeepCopy.Memory.{Address, Deep}
use kom_operator.DeepCopy.Copies.{
  Copies, Plain, Plain-Copies, Both, Both-Copies, Fields, Fields-Copies,
}
use kom_operator.DeepCopy.Copies.Arrays.{Array, Array-Copies}
use kom_operator.DeepCopy.Types.{
  Foreign, Routing, MicroservicesAutoscaling, Container, MicroserviceSpec, MicroserviceStatus,
  Microservice, MicroserviceList, Cell, entry_kind, microservice_kind, list_kind, volume_kind,
  security_context_kind,
}
use kom_operator.DeepCopy.Functions.{
  Externals, copy_entries, spec_deep_copy_into, status_deep_copy_into, microservice_deep_copy_into,
  list_deep_copy_into, microservice_deep_copy, list_deep_copy,
}
use kom_operator.DeepCopy.Faithful.{
  DeepCopies, PlainArray, PlainArray-Copies, RoutingDeep, routing_copied, AutoscalingDeep,
  autoscaling_copied, ContainerValue, ContainerDeep, container_copied,
}

module _ {F : Foreign} {e : Externals F} (d : DeepCopies e) where
  abbrev pub SpecFields : Type 0
  SpecFields = String × (Container F × (MicroservicesAutoscaling × (Address × (Address × Address))))

  abbrev pub spec_fields : MicroserviceSpec F → SpecFields
  spec_fields x = (
    x.service_account_name,
    (x.container, (x.autoscaling, (x.volumes, (x.node_selector, x.security_context)))),
  )

  abbrev pub SpecValue : Type 0
  SpecValue =
      String
      × (ContainerValue d
          × ((Option (List Scaler) × (ℤ × ℤ))
              × (Option (List d.volume.Value)
                  × (Option (List (String × String)) × Option (List d.security_context.Value)))))

  abbrev pub spec_tuple : Deep (Cell F) SpecFields SpecValue
  spec_tuple = Both (Plain String) (
      Both (ContainerDeep d) (
        Both AutoscalingDeep (
          Both (Array d.volume.deep volume_kind)
            (Both (PlainArray entry_kind) (Array d.security_context.deep security_context_kind)))))

  abbrev pub SpecDeep : Deep (Cell F) (MicroserviceSpec F) SpecValue
  SpecDeep = Fields spec_fields spec_tuple

  spec_copied : Copies SpecDeep (spec_deep_copy_into e)
  unfolding spec_deep_copy_into copy_entries
  spec_copied =
      Fields-Copies spec_fields spec_tuple _ (spec_deep_copy_into e) (λ x m. refl)
        (Both-Copies _ _ _ _ Plain-Copies (
          Both-Copies _ _ _ _ (container_copied d) (
            Both-Copies _ _ _ _ autoscaling_copied (
              Both-Copies _ _ _ _ (Array-Copies d.volume.deep volume_kind e.volume d.volume.copies)
                (Both-Copies _ _ _ _ (PlainArray-Copies entry_kind) (
                  Array-Copies d.security_context.deep security_context_kind e.security_context
                    d.security_context.copies))))))

  abbrev pub status_fields : MicroserviceStatus F → (Status × String) × (Routing × F.Time)
  status_fields x = ((x.status, x.reason), (x.routing, x.last_update))

  abbrev pub StatusValue : Type 0
  StatusValue = (Status × String) × (Option (List Http) × d.time.Value)

  abbrev pub status_tuple : Deep (Cell F) ((Status × String) × (Routing × F.Time)) StatusValue
  status_tuple = Both (Plain (Status × String)) (Both RoutingDeep d.time.deep)

  abbrev pub StatusDeep : Deep (Cell F) (MicroserviceStatus F) StatusValue
  StatusDeep = Fields status_fields status_tuple

  status_copied : Copies StatusDeep (status_deep_copy_into e)
  unfolding status_deep_copy_into
  status_copied =
      Fields-Copies status_fields status_tuple _ (status_deep_copy_into e) (λ x m. refl)
        (Both-Copies _ _ _ _ Plain-Copies (Both-Copies _ _ _ _ routing_copied d.time.copies))

  abbrev pub MicroserviceFields : Type 0
  MicroserviceFields = TypeMeta × (F.ObjectMeta × (MicroserviceSpec F × MicroserviceStatus F))

  abbrev pub microservice_fields : Microservice F → MicroserviceFields
  microservice_fields x = (x.type_meta, (x.meta, (x.spec, x.status)))

  abbrev pub MicroserviceValue : Type 0
  MicroserviceValue = TypeMeta × (d.meta.Value × (SpecValue × StatusValue))

  abbrev pub microservice_tuple : Deep (Cell F) MicroserviceFields MicroserviceValue
  microservice_tuple = Both (Plain TypeMeta) (Both d.meta.deep (Both SpecDeep StatusDeep))

  -- All that a microservice leads to.
  abbrev pub MicroserviceDeep : Deep (Cell F) (Microservice F) MicroserviceValue
  MicroserviceDeep = Fields microservice_fields microservice_tuple

  microservice_copied : Copies MicroserviceDeep (microservice_deep_copy_into e)
  unfolding microservice_deep_copy_into
  microservice_copied =
      Fields-Copies microservice_fields microservice_tuple _ (microservice_deep_copy_into e)
        (λ x m. refl)
        (Both-Copies _ _ _ _ Plain-Copies
          (Both-Copies _ _ _ _ d.meta.copies (Both-Copies _ _ _ _ spec_copied status_copied)))

  abbrev pub list_fields : MicroserviceList F → TypeMeta × (F.ListMeta × Address)
  list_fields x = (x.type_meta, (x.meta, x.items))

  abbrev pub ListValue : Type 0
  ListValue = TypeMeta × (d.list_meta.Value × Option (List MicroserviceValue))

  abbrev pub list_tuple : Deep (Cell F) (TypeMeta × (F.ListMeta × Address)) ListValue
  list_tuple =
      Both (Plain TypeMeta) (Both d.list_meta.deep (Array MicroserviceDeep microservice_kind))

  -- All that a list leads to.
  abbrev pub ListDeep : Deep (Cell F) (MicroserviceList F) ListValue
  ListDeep = Fields list_fields list_tuple

  list_copied : Copies ListDeep (list_deep_copy_into e)
  unfolding list_deep_copy_into
  list_copied =
      Fields-Copies list_fields list_tuple _ (list_deep_copy_into e) (λ x m. refl)
        (Both-Copies _ _ _ _ Plain-Copies (
          Both-Copies _ _ _ _ d.list_meta.copies (
            Array-Copies MicroserviceDeep microservice_kind (microservice_deep_copy_into e)
              microservice_copied)))

  -- A pointer to a microservice, and one to a list.
  abbrev pub MicroservicePointer : Deep (Cell F) Address (Option (List MicroserviceValue))
  MicroservicePointer = Array MicroserviceDeep microservice_kind

  abbrev pub ListPointer : Deep (Cell F) Address (Option (List ListValue))
  ListPointer = Array ListDeep list_kind

  pub microservice_pointer_copied : Copies MicroservicePointer (microservice_deep_copy e)
  unfolding microservice_deep_copy
  microservice_pointer_copied =
      Array-Copies MicroserviceDeep microservice_kind (microservice_deep_copy_into e)
        microservice_copied

  pub list_pointer_copied : Copies ListPointer (list_deep_copy e)
  unfolding list_deep_copy
  list_pointer_copied = Array-Copies ListDeep list_kind (list_deep_copy_into e) list_copied
