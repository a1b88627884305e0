-- ===== src/Tests/SettledWitnesses.antt =====
-- The theorem on settled microservices, for one that the operator has just created.
use kom_operator.Prelude.{◌≡◌, refl, none, ◌∷◌, ◌++◌}
use kom_operator.Errors.{ok}
use kom_operator.Kube.{Deployment}
use kom_operator.Api.{Microservice, Status}
use kom_operator.Exec.{Sys, get_microservice, get_deployment, get_scaler, returns}
use kom_operator.AutoScaling.Safety.{wanted_change, found}
use kom_operator.Util.{contains_string, equals}
use kom_operator.Controller.Objects.{
  get_instance_objects, objects_of, initial_replicas, new_deployment,
}
use kom_operator.Controller.Changes.Decision.{deployment_changed_iff}
use kom_operator.Controller.Changes.Fresh.{fresh_deployment_iff}
use kom_operator.Controller.Reconcile.{reconcile}
use kom_operator.Controller.Reconcile.Settled.{IsSettled, read_both, settled_reconcile}
use kom_operator.Tests.Demo.{Replies, demo, replies}
use kom_operator.Tests.Cart.{cart, cart_routing, system}

-- `cart` once its status is stored, and its deployment.
abbrev live : Microservice
live = record cart {
  meta = record cart.meta { deletion_timestamp = none };
  status = record cart.status { routing = cart_routing; status = Status.success };
}

abbrev built : Deployment
built = (get_instance_objects live).deployment

abbrev serves : Replies
serves = record replies { microservice = λ namespace name. ok live; deployment = ok built }

abbrev before : Sys (demo serves)
before = system serves "busy"

live-IsSettled : IsSettled (demo serves) "shop" "cart" live built (initial_replicas live) before
unfolding contains_string equals get_instance_objects objects_of new_deployment initial_replicas
live-IsSettled = record {
  there = record {
    present = refl;
    valid = refl;
    alive = refl;
    registered = refl;
    owns = λ meta. (meta, refl, refl, refl);
    deployed = refl;
  };
  has_replicas = refl;
  current =
      (deployment_changed_iff live built (initial_replicas live)).0
        ((fresh_deployment_iff live).1 refl);
  routed = refl;
  compares = λ e. cc (e);
}

settled_example :
    ((reconcile (demo serves) "shop" "cart" before).0 ≡ returns tt)
    × ((reconcile (demo serves) "shop" "cart" before).1.sent
        ≡ wanted_change
            (demo serves)
            live
            built
            (read_both (demo serves) "shop" "cart" live built (initial_replicas live) before)
            (found
              (demo serves)
              live
              built
              (read_both (demo serves) "shop" "cart" live built (initial_replicas live) before))
          ++ get_scaler built.meta.namespace built.meta.name
            ∷ get_deployment "shop" "cart"
            ∷ get_microservice "shop" "cart"
            ∷ before.sent)
    × ((reconcile (demo serves) "shop" "cart" before).1.lb ≡ before.lb)
settled_example =
    settled_reconcile (demo serves) "shop" "cart" live built (initial_replicas live) before
      live-IsSettled
