-- ===== src/Tests/RestingWitnesses.antt =====
-- The theorems on when a reconciliation rests, for a microservice with and without autoscaling.
use kom_operator.Prelude.{true, ◌≡◌, ◌≢◌, ◌↔◌, refl, some, none, List, [], ◌∷◌, ◌++◌, ℤ, pos}
use kom_operator.Errors.{err}
use kom_operator.Kube.{Deployment}
use kom_operator.Api.{
  Microservice, MicroserviceSpec, MicroserviceStatus, Status, Resource, ScalerType,
}
use kom_operator.Platform.{Platform}
use kom_operator.Exec.{Sys, Request, update_deployment}
use kom_operator.AutoScaling.{autoscaling_enabled}
use kom_operator.Util.{contains_string, equals}
use kom_operator.Controller.Objects.{initial_replicas, new_deployment}
use kom_operator.Controller.Changes.Decision.{IsCurrent}
use kom_operator.Controller.Reconcile.{reconcile}
use kom_operator.Controller.Reconcile.Settled.{IsPresent, quiet}
use kom_operator.Cluster.Names.{NamesKept}
use kom_operator.Cluster.Resting.Missed.{failed_routes_stay_away, unset_min_never_rests}
use kom_operator.Controller.Changes.Fresh.{new_deployment-IsCurrent}
use kom_operator.Controller.Status.{new_status}
use kom_operator.Tests.Runs.{conflict}
use kom_operator.Cluster.Resting.{resting_iff, scaled_deployment_reset}
use kom_operator.Tests.Demo.{demo}
use kom_operator.Tests.DemoLaws.{lookup_by, lookup_by_names, with_one, with_one_names}
use kom_operator.Tests.Cart.{cart, cart_routing, config_map, load_balancer}

-- A server with one microservice and its deployment.
abbrev pub deployed : Microservice → Deployment → Platform
deployed m d = record (demo (with_one m)) {
  deployments = record (demo (with_one m)).deployments {
    get = λ namespace name w. (lookup_by (λ x. x.meta) d namespace name, w);
  };
}

deployed_names : (m : Microservice) (d : Deployment) → NamesKept (deployed m d)
deployed_names m d =
    let named = with_one_names m in
    record {
      owners = record { referenced = named.owners.referenced };
      microservices = record {
        get = named.microservices.get;
        create = named.microservices.create;
        update = named.microservices.update;
      };
      status = named.status;
      deployments = record {
        get = λ namespace name w x e.
            lookup_by_names (λ (z : Deployment). z.meta) d x namespace name e;
        create = named.deployments.create;
        update = named.deployments.update;
      };
      services = record {
        get = named.services.get;
        create = named.services.create;
        update = named.services.update;
      };
      scalers = record {
        get = named.scalers.get;
        create = named.scalers.create;
        update = named.scalers.update;
      };
    }

-- `cart`, registered and not under deletion, with a specification and a status, and its deployment.
abbrev pub cart_with : MicroserviceSpec → MicroserviceStatus → Microservice
cart_with spec status = record cart {
  meta = record cart.meta { deletion_timestamp = none };
  spec = spec;
  status = status;
}

abbrev pub built : Microservice → ℤ → Deployment
built m replicas = record (new_deployment m []) { replicas = some replicas }

abbrev before : (m : Microservice) (replicas : ℤ) → Sys (deployed m (built m replicas))
before m replicas = record { world = config_map "busy"; sent = []; lb = load_balancer }

cart_with-IsPresent :
    (spec : MicroserviceSpec) (status : MicroserviceStatus) (replicas : ℤ)
    → IsPresent
        (deployed (cart_with spec status) (built (cart_with spec status) replicas))
        "shop"
        "cart"
        (cart_with spec status)
        (built (cart_with spec status) replicas)
        replicas
        (before (cart_with spec status) replicas)
unfolding contains_string new_deployment
cart_with-IsPresent spec status replicas = record {
  present = refl;
  valid = refl;
  alive = refl;
  registered = refl;
  owns = λ meta. (meta, refl, refl, refl);
  deployed = refl;
}

abbrev pub stored : MicroserviceStatus
stored = record cart.status { routing = cart_routing; status = Status.success }

abbrev live : Microservice
live = cart_with cart.spec stored

abbrev live_built : Deployment
live_built = built live (pos 1)

abbrev live_server : Platform
live_server = deployed live live_built

abbrev live_before : Sys live_server
live_before = before live (pos 1)

-- With autoscaling, where the autoscaler has raised the count to 2.
abbrev scaling_spec : MicroserviceSpec
scaling_spec = record cart.spec {
  autoscaling = record {
    scaler = record { resource = Resource.cpu; type = ScalerType.utilization; value = "75" } ∷ [];
    max = pos 3;
    min = pos 1;
  };
}

abbrev scaling : Microservice
scaling = cart_with scaling_spec stored

abbrev scaling_built : Deployment
scaling_built = built scaling (pos 2)

abbrev scaling_server : Platform
scaling_server = deployed scaling scaling_built

abbrev scaling_before : Sys scaling_server
scaling_before = before scaling (pos 2)

-- Without replica bounds.
abbrev unset : Microservice
unset =
    cart_with (record cart.spec { autoscaling = record { scaler = []; max = pos 0; min = pos 0 } })
      stored

abbrev unset_built : Deployment
unset_built = built unset (pos 1)

abbrev unset_server : Platform
unset_server = deployed unset unset_built

abbrev unset_before : Sys unset_server
unset_before = before unset (pos 1)

-- After a failure.
abbrev failed : Microservice
failed =
    cart_with cart.spec
      (record stored { last_update = "12:00"; reason = "error"; status = Status.failure })

abbrev failed_built : Deployment
failed_built = built failed (pos 1)

abbrev failed_server : Platform
failed_server = deployed failed failed_built

abbrev failed_before : Sys failed_server
failed_before = before failed (pos 1)

resting_example :
    ((reconcile live_server "shop" "cart" live_before).1.sent
      ≡ quiet live_server "shop" "cart" live live_built (pos 1) live_before)
    ↔ (IsCurrent live live_built (pos 1)
        × (equals live.status.routing live.spec.container.routing ≡ true))
resting_example =
    resting_iff (deployed_names live live_built) "shop" "cart" live live_built (pos 1) live_before
      (cart_with-IsPresent live.spec live.status (pos 1)) refl (λ e. cc (e))

scales : autoscaling_enabled scaling ≡ true
unfolding autoscaling_enabled
scales = refl

scaled_deployment_reset_example :
    (reset : Deployment) × (extra : List Request) × ((reconcile scaling_server "shop" "cart"
        scaling_before).1.sent
      ≡ extra
        ++ update_deployment reset
          ∷ quiet scaling_server "shop" "cart" scaling scaling_built (pos 2) scaling_before)
    × (reset.replicas ≡ some (pos 1))
scaled_deployment_reset_example =
    scaled_deployment_reset (deployed_names scaling scaling_built) "shop" "cart" scaling
      scaling_built (pos 2) scaling_before (cart_with-IsPresent scaling.spec scaling.status (pos 2))
      refl (λ e. cc (e)) (λ e. cc (e)) scales

unset_built_count : pos 1 ≡ initial_replicas unset
unfolding initial_replicas
unset_built_count = refl

unset_min_example :
    (reconcile unset_server "shop" "cart" unset_before).1.sent
    ≢ quiet unset_server "shop" "cart" unset unset_built (pos 1) unset_before
unset_min_example =
    unset_min_never_rests (deployed_names unset unset_built) "shop" "cart" unset unset_built (pos 1)
      unset_before (cart_with-IsPresent unset.spec unset.status (pos 1)) refl (λ e. cc (e))
      unset_built_count refl

failed_stored : failed.status ≡ new_status failed_server cart "12:00" (err conflict)
unfolding new_status
failed_stored = refl

failed-IsCurrent : IsCurrent failed failed_built (pos 1)
unfolding new_deployment initial_replicas
failed-IsCurrent = new_deployment-IsCurrent failed [] (pos 1) refl

failed_routes_example :
    (reconcile failed_server "shop" "cart" failed_before).1.sent
    ≡ quiet failed_server "shop" "cart" failed failed_built (pos 1) failed_before
failed_routes_example =
    failed_routes_stay_away (deployed_names failed failed_built) "shop" "cart" failed failed_built
      (pos 1) failed_before (cart_with-IsPresent failed.spec failed.status (pos 1)) refl
      (λ e. cc (e)) cart "12:00" conflict failed_stored refl failed-IsCurrent
