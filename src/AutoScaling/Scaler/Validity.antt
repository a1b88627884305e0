-- ===== src/AutoScaling/Scaler/Validity.antt =====
-- What an accepted autoscaler looks like.

use text.Mathlib.Text.{◌==◌ as str_eq}
use kom_operator.Prelude.{
  ℕ, ◌+◌, ◌≤◌, String, ◌≡◌, refl, subst, true, List, [], ◌∷◌, ◌++◌, Option, none, some, arith, ℤ,
  pos, negsuc, length, length-append, ◌≢◌, if◌then◌else◌, Bool-cases, inl, inr, eq_iff, All,
  All-append, ◌⊎◌,
}
use kom_operator.Errors.{
  Fault, Result, ok, err, invalid_quantity, no_owner_reference, ok_inj, >>=-eq-ok, ◌>>=◌,
}
use kom_operator.Decimal.{parse_int}
use kom_operator.Kube.{
  Quantity, Deployment, HorizontalPodAutoscaler, MetricSpec, MetricTarget, average_value, value,
  average_utilization,
}
use kom_operator.Api.{
  Microservice, Scaler, Resource, ScalerType, cpu, memory, other_resource, utilization, other_type,
}
use kom_operator.Platform.{Platform}
use kom_operator.AutoScaling.Scaler.{
  has_limit, resource_name, metric_target, percentage, scaler_metric, scaler_metrics, finish_scaler,
  create_scaler, or_fault, new_scaler, scaler_meta,
}

-- A utilization is a percentage from 1 to 100.
abbrev pub InRange : MetricTarget → Type 0
InRange (average_utilization (pos n)) = (1 ≤ n) × (n ≤ 100)
InRange (average_utilization (negsuc n)) = ⊥
InRange _ = Unit

module _ (p : Platform) (limits : Option String) where
  -- The container limits the resource of the metric.
  pub record IsSound (m : MetricSpec) : Type 0 where
    pub limited :
        ((m.resource ≡ "cpu") × (has_limit p p.cpu_is_zero limits ≡ true))
        ⊎ ((m.resource ≡ "memory") × (has_limit p p.memory_is_zero limits ≡ true))
    pub in_range : InRange m.target

  module _ (deployment : String) where
    resource_name_sound :
        (r : Resource) (name : String)
        → resource_name p deployment limits r ≡ ok name
        → ((name ≡ "cpu") × (has_limit p p.cpu_is_zero limits ≡ true))
          ⊎ ((name ≡ "memory") × (has_limit p p.memory_is_zero limits ≡ true))
    unfolding resource_name
    resource_name_sound cpu name h = ground arith
    resource_name_sound memory name h = ground arith
    resource_name_sound (other_resource r) name h = ground arith

    percentage_sound :
        (text : String) (n : Option ℤ) (t : MetricTarget)
        → percentage p deployment text n ≡ ok t
        → InRange t
    unfolding percentage
    percentage_sound text none t h = cc
    percentage_sound text (some (pos n)) t h = subst InRange (accepted n t h).0 ((accepted n t h).1)
      where
        accepted :
            (n : ℕ) (t : MetricTarget)
            → percentage p deployment text (some (pos n)) ≡ ok t
            → (average_utilization (pos n) ≡ t) × ((1 ≤ n) × (n ≤ 100))
        accepted n t h = (ground arith, (ground arith, ground arith))
    percentage_sound text (some (negsuc n)) t h = absurd (ground arith)

    average_sound :
        (r : Result Quantity) (fault : Fault) (t : MetricTarget)
        → (or_fault p r fault >>= λ q. ok (average_value q)) ≡ ok t
        → InRange t
    average_sound (ok q) fault t h = subst InRange (ok_inj h) tt
    average_sound (err e) fault t h = cc

    value_sound :
        (r : Result Quantity) (fault : Fault) (t : MetricTarget)
        → (or_fault p r fault >>= λ q. ok (value q)) ≡ ok t
        → InRange t
    value_sound (ok q) fault t h = subst InRange (ok_inj h) tt
    value_sound (err e) fault t h = cc

    metric_target_sound :
        (text : String) (type : ScalerType) (t : MetricTarget)
        → metric_target p deployment text type ≡ ok t
        → InRange t
    unfolding metric_target
    metric_target_sound text utilization t h = percentage_sound text (parse_int text 32) t h
    metric_target_sound text ScalerType.average_value t h =
        average_sound (p.parse_quantity text) (invalid_quantity deployment text) t h
    metric_target_sound text ScalerType.value t h =
        value_sound (p.parse_quantity text) (invalid_quantity deployment text) t h
    metric_target_sound text (other_type x) t h = cc

    scaler_metric-IsSound :
        (scaler : Scaler) (m : MetricSpec)
        → scaler_metric p deployment limits scaler ≡ ok m
        → IsSound m
    unfolding scaler_metric
    scaler_metric-IsSound scaler m h =
        let (name, e, h') = >>=-eq-ok (resource_name p deployment limits scaler.resource) _ h in
        let (t, e', h'') = >>=-eq-ok (metric_target p deployment scaler.value scaler.type) _ h' in
        subst IsSound (ok_inj h'') (record {
          limited = resource_name_sound scaler.resource name e;
          in_range = metric_target_sound scaler.value scaler.type t e';
        })

    scaler_metrics-IsSound :
        (scalers : List Scaler) (metrics result : List MetricSpec)
        → All IsSound metrics
        → scaler_metrics p deployment limits scalers metrics ≡ ok result
        → All IsSound result × (length result ≡ length metrics + length scalers)
    unfolding scaler_metrics
    scaler_metrics-IsSound [] metrics result sound h =
        subst (λ r. All IsSound r × (length r ≡ length metrics + 0)) (ok_inj h) (sound, omega arith)
    scaler_metrics-IsSound (scaler ∷ rest) metrics result sound h =
        let (m, e, h') = >>=-eq-ok (scaler_metric p deployment limits scaler) _ h in
        let (sound', size) =
          scaler_metrics-IsSound rest (metrics ++ m ∷ []) result
            (All-append IsSound metrics (m ∷ []) sound (scaler_metric-IsSound scaler m e, tt)) h' in
        (sound', omega (arith, size, length-append metrics (m ∷ [])))

kind_given : (kind : String) → (if str_eq kind "" then "Deployment" else kind) ≢ ""
kind_given kind e = elim (Bool-cases (str_eq kind "")) [
  | inl empty ↦ cc (rw empty at e)
  | inr other ↦ cc (other, (eq_iff kind "").1 (rw other at e))
]

module _ (p : Platform) (deployment : Deployment) (instance : Microservice) where
  abbrev limits : Option String
  limits = instance.spec.container.resources.limits

  -- `hpa` is the autoscaler that the specification describes.
  pub record IsFaithful (hpa : HorizontalPodAutoscaler) : Type 0 where
    pub sound : All (IsSound p limits) hpa.metrics
    pub all_scalers : length hpa.metrics ≡ length instance.spec.autoscaling.scaler
    pub not_empty : 1 ≤ length hpa.metrics
    pub has_kind : hpa.target_kind ≢ ""
    pub target : hpa.target_name ≡ deployment.meta.name
    pub min : hpa.min_replicas ≡ instance.spec.autoscaling.min
    pub max : hpa.max_replicas ≡ instance.spec.autoscaling.max

  finish_scaler_sound :
      (metrics : List MetricSpec) (hpa : HorizontalPodAutoscaler)
      → All (IsSound p limits) metrics
      → length metrics ≡ length instance.spec.autoscaling.scaler
      → finish_scaler p deployment instance metrics ≡ ok hpa
      → IsFaithful hpa
  unfolding finish_scaler new_scaler
  finish_scaler_sound [] hpa sound size h = cc
  finish_scaler_sound (m ∷ ms) hpa sound size h =
      let (meta, e, h') =
        >>=-eq-ok
          (or_fault p (p.set_controller_reference instance (scaler_meta p deployment))
            (no_owner_reference deployment.meta.name))
          _ h in
      subst IsFaithful (ok_inj h') (record {
        sound = sound;
        all_scalers = size;
        not_empty = omega arith;
        has_kind = kind_given deployment.type_meta.kind;
        target = refl;
        min = refl;
        max = refl;
      })

  -- An autoscaler that is accepted targets the deployment, by its name and a kind that is not
  -- empty, has the replica bounds of the specification and one metric for each of its scalers, at
  -- least one; each metric is on the processor or the memory, which the container limits, and a
  -- utilization is from 1 to 100.
  pub create_scaler_sound :
      (hpa : HorizontalPodAutoscaler)
      → create_scaler p deployment instance ≡ ok hpa
      → IsFaithful hpa
  unfolding create_scaler
  create_scaler_sound hpa h =
      let scalers = instance.spec.autoscaling.scaler in
      let (metrics, e, h') =
        >>=-eq-ok (scaler_metrics p deployment.meta.name limits scalers []) _ h in
      let (sound, size) =
        scaler_metrics-IsSound p limits deployment.meta.name scalers [] metrics tt e in
      finish_scaler_sound metrics hpa sound (omega (arith, size)) h'
