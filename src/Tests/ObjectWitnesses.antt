-- ===== src/Tests/ObjectWitnesses.antt =====
-- The theorems on what a reconciliation creates and compares, at concrete inputs.

use kom_operator.Prelude.{◌≡◌, ◌≢◌, ◌↔◌, refl, false, none, some, [], ◌∷◌, pos, items}
use kom_operator.Errors.{ok}
use kom_operator.Decimal.{parse_int}
use kom_operator.Kube.{HorizontalPodAutoscaler, average_utilization}
use kom_operator.Api.{Microservice, Resource, ScalerType}
use kom_operator.AutoScaling.Scaler.{
  has_limit, resource_name, metric_target, percentage, scaler_metric, scaler_metrics, finish_scaler,
  create_scaler, new_scaler, scaler_meta,
}
use kom_operator.AutoScaling.Scaler.Validity.{IsFaithful, create_scaler_sound}
use kom_operator.Controller.Changes.{deployment_changed}
use kom_operator.Controller.Changes.Decision.{IsCurrent, deployment_changed_iff}
use kom_operator.Tests.Demo.{demo, replies}
use kom_operator.Tests.Cart.{cart, lb_deployment}

cart_routed : items cart.spec.container.routing.http ≢ []
cart_routed e = cc (e)

deployment_changed_example :
    (deployment_changed cart lb_deployment (pos 1) ≡ false) ↔ IsCurrent cart lb_deployment (pos 1)
deployment_changed_example = deployment_changed_iff cart lb_deployment (pos 1)

abbrev scaled_cart : Microservice
scaled_cart = record cart {
  spec = record cart.spec {
    container = record cart.spec.container {
      resources = record { limits = some "cpu: 1"; requests = none; claims = none };
    };
    autoscaling = record {
      scaler = record { resource = Resource.cpu; type = ScalerType.utilization; value = "75" } ∷ [];
      max = pos 3;
      min = pos 1;
    };
  };
}

abbrev cart_scaler : HorizontalPodAutoscaler
cart_scaler = record {
  type_meta = record { kind = "HorizontalPodAutoscaler"; api_version = "autoscaling/v2" };
  meta = scaler_meta (demo replies) lb_deployment;
  target_api_version = "kom.kaiso.github.io/v1alpha1";
  target_kind = "Microservice";
  target_name = "cart";
  min_replicas = pos 1;
  max_replicas = pos 3;
  metrics = record { resource = "cpu"; target = average_utilization (pos 75) } ∷ [];
}

accepted : create_scaler (demo replies) lb_deployment scaled_cart ≡ ok cart_scaler
unfolding create_scaler scaler_metrics scaler_metric resource_name has_limit metric_target
    percentage parse_int finish_scaler new_scaler
accepted = refl

create_scaler_example : IsFaithful (demo replies) lb_deployment scaled_cart cart_scaler
create_scaler_example =
    create_scaler_sound (demo replies) lb_deployment scaled_cart cart_scaler accepted
