-- ===== src/AutoScaling/Scaler.antt =====
-- process/autoscaling_handler.go: `createScaler`.
pub mod Validity
use kom_operator.Prelude.{
  String, Bool, true, false, not, ◌||◌, Option, none, some, List, [], ◌∷◌, ◌++◌, ℤ, pos, int_lt,
  if◌then◌else◌, ◌≡◌,
}
use text.Mathlib.Text.{◌==◌ as str_eq}
use kom_operator.Decimal.{parse_int}
use kom_operator.Errors.{
  Error, Fault, Result, ok, err, bad_request, missing_cpu_limits, missing_memory_limits, no_metrics,
  unsupported_resource, unsupported_type, invalid_quantity, invalid_number, not_a_percentage,
  no_owner_reference, ◌>>=◌, ◌>>◌, guard,
}
use kom_operator.Kube.{
  Deployment, HorizontalPodAutoscaler, MetricSpec, MetricTarget, average_value, value,
  average_utilization, ObjectMeta,
}
use kom_operator.Api.{
  Microservice, Scaler, Resource, ScalerType, cpu, memory, other_resource, utilization, other_type,
}
use kom_operator.Platform.{Platform}
use kom_operator.Version.{creator}

module _ (p : Platform) where
  -- `Limits != nil && !Limits.Cpu().IsZero()`, and likewise for the memory
  unfoldable pub has_limit : (String → Bool) → Option String → Bool
  has_limit is_zero none = false
  has_limit is_zero (some limits) = not (is_zero limits)

  -- The first `switch` of the loop: the resource's name, if the container limits it.
  unfoldable pub resource_name : String → Option String → Resource → Result String
  resource_name deployment limits cpu = do
    guard (has_limit p.cpu_is_zero limits) (missing_cpu_limits deployment)
    ok "cpu"
  resource_name deployment limits memory = do
    guard (has_limit p.memory_is_zero limits) (missing_memory_limits deployment)
    ok "memory"
  resource_name deployment limits (other_resource r) = err (bad_request (unsupported_resource r))

  -- The error of a library, as the operator's bad request.
  abbrev pub or_fault {ℓ} : {A : Type ℓ} → Result A → Fault → Result A
  or_fault (ok a) fault = ok a
  or_fault (err e) fault = err (bad_request fault)

  unfoldable pub percentage : String → String → Option ℤ → Result MetricTarget
  percentage deployment text none = err (bad_request (invalid_number deployment text))
  percentage deployment text (some n) =
      if not (int_lt (pos 0) n) || int_lt (pos 100) n
      then err (bad_request (not_a_percentage deployment text))
      else ok (average_utilization n)

  -- The second `switch`. `ParseInt` with 32 bits gives a number that `int32` keeps.
  unfoldable pub metric_target : String → String → ScalerType → Result MetricTarget
  metric_target deployment text ScalerType.average_value = do
    quantity ← or_fault (p.parse_quantity text) (invalid_quantity deployment text)
    ok (average_value quantity)
  metric_target deployment text ScalerType.value = do
    quantity ← or_fault (p.parse_quantity text) (invalid_quantity deployment text)
    ok (value quantity)
  metric_target deployment text utilization = percentage deployment text (parse_int text 32)
  metric_target deployment text (other_type t) = err (bad_request (unsupported_type t))

  -- One round of the loop.
  unfoldable pub scaler_metric : String → Option String → Scaler → Result MetricSpec
  scaler_metric deployment limits scaler = do
    resource ← resource_name deployment limits scaler.resource
    target ← metric_target deployment scaler.value scaler.type
    ok (record { resource = resource; target = target })

  -- The loop, which stops at the first error.
  unfoldable pub scaler_metrics :
      String → Option String → List Scaler → List MetricSpec → Result (List MetricSpec)
  scaler_metrics deployment limits [] metrics = ok metrics
  scaler_metrics deployment limits (scaler ∷ rest) metrics = do
    metric ← scaler_metric deployment limits scaler
    scaler_metrics deployment limits rest (metrics ++ metric ∷ [])

  unfoldable pub new_scaler :
      Deployment → Microservice → List MetricSpec → ObjectMeta → HorizontalPodAutoscaler
  new_scaler deployment instance metrics meta = record {
    type_meta = record { kind = "HorizontalPodAutoscaler"; api_version = "autoscaling/v2" };
    meta = meta;
    target_api_version = deployment.type_meta.api_version;
    target_kind =
        if str_eq deployment.type_meta.kind "" then "Deployment" else deployment.type_meta.kind;
    target_name = deployment.meta.name;
    min_replicas = instance.spec.autoscaling.min;
    max_replicas = instance.spec.autoscaling.max;
    metrics = metrics;
  }

  abbrev pub scaler_meta : Deployment → ObjectMeta
  scaler_meta deployment = record {
    name = deployment.meta.name;
    namespace = deployment.meta.namespace;
    annotations = creator;
    labels = [];
    owner_references = [];
    finalizers = none;
    deletion_timestamp = none;
    generation = pos 0;
  }

  unfoldable pub finish_scaler :
      Deployment → Microservice → List MetricSpec → Result HorizontalPodAutoscaler
  finish_scaler deployment instance [] = err (bad_request (no_metrics deployment.meta.name))
  finish_scaler deployment instance (metric ∷ metrics) = do
    meta ←
        or_fault (p.set_controller_reference instance (scaler_meta deployment))
          (no_owner_reference deployment.meta.name)
    ok (new_scaler deployment instance (metric ∷ metrics) meta)

  -- `createScaler`
  unfoldable pub create_scaler : Deployment → Microservice → Result HorizontalPodAutoscaler
  create_scaler deployment instance = do
    metrics ←
        scaler_metrics deployment.meta.name instance.spec.container.resources.limits
          instance.spec.autoscaling.scaler []
    finish_scaler deployment instance metrics
