-- ===== src/Tests/ErrorWitnesses.antt =====
-- The theorems on the replacement of a service, at concrete inputs.
use kom_operator.Prelude.{◌≡◌, refl, false, none, [], ◌∷◌, pos, ◌≢◌, some}
use kom_operator.Errors.{Result, ok, err, not_found}
use kom_operator.Kube.{KubeService, Deployment}
use kom_operator.Api.{Microservice}
use kom_operator.Platform.{Platform}
use kom_operator.Exec.{
  Sys, returns, panics, get_service, delete_service, update_status as status_request,
}
use kom_operator.Util.{equals}
use kom_operator.Controller.Objects.{initial_replicas, new_deployment}
use kom_operator.Controller.Changes.Decision.{IsCurrent}
use kom_operator.Controller.Changes.Fresh.{new_deployment-IsCurrent}
use kom_operator.Controller.Status.Reported.{reported}
use kom_operator.Controller.Reconcile.{nil_pointer, reconcile}
use kom_operator.Controller.Reconcile.Settled.{IsPresent, quiet}
use kom_operator.Controller.Reconcile.Replacing.{
  last_route_panics, service_error_is_success, unread,
}
use kom_operator.Util.{contains_string}
use kom_operator.Tests.Cart.{cart, config_map, load_balancer}
use kom_operator.Tests.RestingWitnesses.{deployed, cart_with, built, stored}

-- `cart`, once its only route has gone from the specification, and its deployment.
abbrev plain_cart : Microservice
plain_cart =
    cart_with
      (record cart.spec {
        container = record cart.spec.container { routing = record { http = none } };
      })
      stored

abbrev plain_built : Deployment
plain_built = built plain_cart (pos 1)

-- The server answers every request for a service so.
abbrev answering : Result KubeService → Platform
answering reply = record (deployed plain_cart plain_built) {
  services = record (deployed plain_cart plain_built).services {
    get = λ namespace name w. (reply, w);
  };
}

abbrev start : (reply : Result KubeService) → Sys (answering reply)
start reply = record { world = config_map "busy"; sent = []; lb = load_balancer }

plain-IsPresent :
    (reply : Result KubeService)
    → IsPresent (answering reply) "shop" "cart" plain_cart plain_built (pos 1) (start reply)
unfolding contains_string new_deployment
plain-IsPresent reply = record {
  present = refl;
  valid = refl;
  alive = refl;
  registered = refl;
  owns = λ meta. (meta, refl, refl, refl);
  deployed = refl;
}

plain-IsCurrent : IsCurrent plain_cart plain_built (pos 1)
unfolding new_deployment initial_replicas
plain-IsCurrent = new_deployment-IsCurrent plain_cart [] (pos 1) refl

plain_routing_changed : equals plain_cart.status.routing plain_cart.spec.container.routing ≡ false
unfolding equals
plain_routing_changed = refl

-- Smart reload is on.
smart : (reply : Result KubeService) → (answering reply).lookup_env "SMART_RELOAD" ≢ some "false"
smart reply e = cc (e)

abbrev old_service : KubeService
old_service = record { meta = cart.meta; ports = []; selector = []; service_type = "" }

abbrev found_service : Result KubeService
found_service = ok old_service

last_route_panics_example :
    ((reconcile (answering found_service) "shop" "cart" (start found_service)).0
      ≡ panics nil_pointer)
    × ((reconcile (answering found_service) "shop" "cart" (start found_service)).1.sent
        ≡ delete_service old_service
          ∷ get_service "shop" "cart"
          ∷ quiet
              (answering found_service)
              "shop"
              "cart"
              plain_cart
              plain_built
              (pos 1)
              (start found_service))
last_route_panics_example =
    last_route_panics "shop" "cart" plain_cart plain_built (pos 1) (start found_service)
      (plain-IsPresent found_service) refl (smart found_service) plain-IsCurrent
      plain_routing_changed old_service refl refl refl

abbrev missing_service : Result KubeService
missing_service = err (not_found "no such object")

abbrev after_missing : Sys (answering missing_service)
after_missing =
    unread "shop" "cart" plain_cart plain_built (pos 1) (start missing_service)
      (plain-IsPresent missing_service) refl (smart missing_service) plain-IsCurrent
      plain_routing_changed

service_error_is_success_example :
    ((reconcile (answering missing_service) "shop" "cart" (start missing_service)).0 ≡ returns tt)
    × ((reconcile (answering missing_service) "shop" "cart" (start missing_service)).1.sent
        ≡ status_request (reported {p = answering missing_service} plain_cart (ok tt) after_missing)
          ∷ get_service "shop" "cart"
          ∷ quiet
              (answering missing_service)
              "shop"
              "cart"
              plain_cart
              plain_built
              (pos 1)
              (start missing_service))
service_error_is_success_example =
    service_error_is_success "shop" "cart" plain_cart plain_built (pos 1) (start missing_service)
      (plain-IsPresent missing_service) refl (smart missing_service) plain-IsCurrent
      plain_routing_changed (not_found "no such object") refl
