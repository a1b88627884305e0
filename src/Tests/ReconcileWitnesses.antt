-- ===== src/Tests/ReconcileWitnesses.antt =====
-- The theorems on reconciliations and on the load balancer, at concrete inputs.
use kom_operator.Prelude.{
  String, ◌≡◌, ◌≢◌, refl, true, false, none, some, List, ◌⊎◌, [], ◌∷◌, ◌++◌, items,
}
use kom_operator.Text.{has_prefix, contains}
use kom_operator.Errors.{ok, err, not_found}
use kom_operator.Dict.{get}
use kom_operator.Traefik
use kom_operator.Exec.{
  Sys, Outcome, Request, returns, get_microservice, update_microservice, get_deployment, get_scaler,
  update_status as status_request,
}
use kom_operator.Util.{contains_string}
use kom_operator.Routes.{is_internal, router_prefix, remove_routes}
use kom_operator.Routes.Create.{or_else, wanted_router, wanted_service}
use kom_operator.Routes.Lifecycle.{IsServed}
use kom_operator.LoadBalancer.Controller.{raw_config, create_router, remove_router}
use kom_operator.LoadBalancer.Controller.Stored.{Changed, remove_router-Changed}
use kom_operator.LoadBalancer.Controller.Held.{Holds, remove_router_clears, create_router_adds}
use kom_operator.LoadBalancer.Deploy.{deploy_load_balancer}
use kom_operator.LoadBalancer.Deploy.Reload.{deployment_change, deploy_sends}
use kom_operator.AutoScaling
use kom_operator.AutoScaling.Safety.{found}
use kom_operator.AutoScaling.Wanted.{Wants, run_sends}
use kom_operator.LoadBalancer.Controller.Branches.{Ended, loaded, answer}
use kom_operator.Traefik.{TraefikConfig}
use kom_operator.Controller.Status.{update_status}
use kom_operator.Controller.Status.Reported.{IsKnown, reported, update_status_reports}
use kom_operator.Controller.Reconcile.{finalizer_name, delete_instance, reconcile}
use kom_operator.Controller.Reconcile.Deletion.{
  delete_instance_clears, finalizer_after_routes, Releases, found as found_instance, released,
  routeless_deletion,
}
use kom_operator.Tests.Demo.{demo, replies, demo-StoresConfigs, unmarshal-IsServed}
use kom_operator.Tests.DemoLaws.{with_one}
use kom_operator.Api.{Microservice}
use kom_operator.Tests.Cart.{cart, system, lb_deployment}
use kom_operator.Tests.Runs.{cart_route, after, created, removed, deleted}

cart_registered : contains_string cart.meta.finalizers finalizer_name ≡ true
unfolding contains_string
cart_registered = refl

cart_routed : items cart.spec.container.routing.http ≢ []
cart_routed e = cc (e)

abbrev after_deletion : Sys (demo replies)
after_deletion = after (delete_instance (demo replies) cart) (system replies "busy")

delete_instance_example :
    (u : Sys (demo replies)) × Changed (remove_routes "shop" "cart") (system replies "busy") u
    × (after_deletion.sent ≡ update_microservice (released cart) ∷ u.sent)
    × (contains_string (released cart).meta.finalizers finalizer_name ≡ false)
delete_instance_example =
    delete_instance_clears cart cart_registered (system replies "busy") after_deletion cart_routed
      deleted

abbrev cart_read : Sys (demo (with_one cart))
cart_read =
    found_instance {p = demo (with_one cart)} cart "shop" "cart" (system (with_one cart) "busy")

abbrev cart_removal : Outcome (Unit {0}) × Sys (demo (with_one cart))
cart_removal = remove_router (demo (with_one cart)) "shop" "cart" true cart_read

finalizer_after_routes_example :
    Ended (remove_routes "shop" "cart") true cart_read cart_removal
    × Releases {p = demo (with_one cart)} cart cart_removal
        (reconcile (demo (with_one cart)) "shop" "cart" (system (with_one cart) "busy"))
finalizer_after_routes_example =
    finalizer_after_routes cart cart_registered cart_routed "shop" "cart" "12:00"
      (system (with_one cart) "busy") refl refl refl

-- `cart` after its last route has gone from the specification.
abbrev routeless : Microservice
routeless = record cart {
  spec = record cart.spec {
    container = record cart.spec.container { routing = record { http = none } };
  };
}

abbrev routeless_before : Sys (demo (with_one routeless))
routeless_before = system (with_one routeless) "busy"

abbrev routeless_after : Sys (demo (with_one routeless))
routeless_after = (reconcile (demo (with_one routeless)) "shop" "cart" routeless_before).1

routeless_deletion_example :
    (routeless_after.sent
      ≡ update_microservice (released routeless)
        ∷ get_microservice "shop" "cart"
        ∷ routeless_before.sent)
    × (routeless_after.lb ≡ routeless_before.lb)
routeless_deletion_example =
    routeless_deletion routeless cart_registered refl "shop" "cart" "12:00" routeless_before refl
      refl refl

cart_external : is_internal "cart" ≡ false
unfolding is_internal contains has_prefix
cart_external = refl

abbrev cleared : Sys (demo replies)
cleared = after (remove_router (demo replies) "shop" "cart" true) (system replies "busy")

abbrev clearing : Changed (remove_routes "shop" "cart") (system replies "busy") cleared
clearing = remove_router-Changed "shop" "cart" true (system replies "busy") cleared removed

remove_router_example :
    (http : Traefik.Http) × Holds (demo replies) cleared.lb http
    × IsServed http
    × ((k : String)
        → contains k (router_prefix "shop" "cart") ≡ true
        → (get k http.routers ≡ none) × (get k http.services ≡ none))
remove_router_example =
    remove_router_clears demo-StoresConfigs "shop" "cart" cart_external (system replies "busy")
      cleared true removed
      (unmarshal-IsServed (raw_config clearing.read.lb.config) clearing.cfg clearing.decoded)

abbrev extended : Sys (demo replies)
extended = after (create_router (demo replies) "shop" "cart" cart_route) (system replies "idle")

create_router_example :
    (cfg : TraefikConfig) × ((demo replies).unmarshal
        (raw_config (loaded (answer (system replies "idle")) (system replies "idle").lb.config))
      ≡ some cfg)
    × (http : Traefik.Http) × Holds (demo replies) extended.lb http
    × ((k : String)
        → (get k http.routers
            ≡ or_else (get k cfg.http.routers) (wanted_router "shop" "cart" k cart_route))
          × (get k http.services
              ≡ or_else (get k cfg.http.services) (wanted_service "shop" "cart" k cart_route)))
create_router_example =
    create_router_adds demo-StoresConfigs "shop" "cart" cart_external (system replies "idle")
      extended cart_route created

abbrev success_status : Sys (demo replies)
success_status = (update_status (demo replies) cart (ok tt) (system replies "idle")).1

update_status_reports_example :
    ((m : Microservice) × ((update_status (demo replies) cart (ok tt) (system replies "idle")).0
        ≡ returns m))
    × ((IsKnown {p = demo replies} cart (ok tt) (system replies "idle")
          × (success_status.sent ≡ []))
        ⊎ ((¬ IsKnown {p = demo replies} cart (ok tt) (system replies "idle"))
            × (success_status.sent
                ≡ status_request (reported {p = demo replies} cart (ok tt) (system replies "idle"))
                  ∷ [])))
    × (success_status.lb ≡ (system replies "idle").lb)
update_status_reports_example = update_status_reports cart (ok tt) (system replies "idle")

deploy_example :
    (deploy_load_balancer (demo replies) (system replies "idle")).1.sent
    ≡ deployment_change (system replies "idle") (err (not_found "no such object"))
      ++ get_deployment "kom" "kom-loadbalancer" ∷ []
deploy_example = deploy_sends (system replies "idle")

abbrev run_after : Sys (demo replies)
run_after = (AutoScaling.run (demo replies) cart lb_deployment (system replies "idle")).1

run_sends_example :
    ((AutoScaling.run (demo replies) cart lb_deployment (system replies "idle")).0 ≡ returns tt)
    × ((changes : List Request) × Wants
          (demo replies)
          cart
          lb_deployment
          (found (demo replies) cart lb_deployment (system replies "idle"))
          changes
        × (run_after.sent ≡ changes ++ get_scaler "shop" "cart" ∷ []))
    × (run_after.lb ≡ (system replies "idle").lb)
run_sends_example = run_sends (demo replies) cart lb_deployment (system replies "idle")
