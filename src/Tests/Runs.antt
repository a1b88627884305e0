-- ===== src/Tests/Runs.antt =====
-- Runs of the operator on the demonstration platform, computed.
use native.Mathlib.Decide.{ℕ_discrete}
use kom_operator.Prelude.{◌≡◌, refl, true, List, [], ◌∷◌, pos}
use kom_operator.Text.{has_prefix, contains}
use kom_operator.Decimal.{itoa, digits, format}
use kom_operator.Errors.{Error, err, api_error}
use kom_operator.Dict.{get, put, remove, keys, find_key}
use kom_operator.Dict.Loops.{delete_matching}
use kom_operator.Exec.{
  Exec, Sys, returns, pure, fail, panic, get_lb, set_lb, send, try, lift, ◌>>=◌,
}
use kom_operator.Util.{contains_string, remove_string}
use kom_operator.Routes.{
  Route, router_prefix, router_name, service_url, add_service, add_router, add_route, add_routes,
  is_internal, remove_loop, remove_routes,
}
use kom_operator.LoadBalancer.{
  find_existing_object, keep_config, load_config, config_of, send_config, write_config, now,
  reload_patch, reload_deployment,
}
use kom_operator.LoadBalancer.Controller.{
  text_or_empty, raw_config, deref, read_config, create_router, reload_if, remove_router,
}
use kom_operator.Controller.Objects.{
  get_instance_objects, objects_of, run_loop, add_element, put_route, service_port, new_service,
  new_deployment, pod_container,
}
use kom_operator.Controller.Reconcile.{finalize, finalize_service, update_instance, delete_instance}
use kom_operator.Tests.Demo.{Replies, demo, replies}
use kom_operator.Tests.Cart.{cart, system}

abbrev pub conflict : Error
conflict = api_error "conflict"

-- A server that takes no new configuration.
abbrev pub conflicting : Replies
conflicting = record replies { update_config = λ c. err conflict }

abbrev pub cart_route : List Route
cart_route = (pos 80, "Path(`/`)") ∷ []

-- The state after a run.
abbrev pub after : {A : Type 0} {r : Replies} → Exec (demo r) A → Sys (demo r) → Sys (demo r)
after m s = (m s).1

pub created : create_router (demo replies) "shop" "cart" cart_route (system replies "idle") ≡ (
  returns tt,
  after (create_router (demo replies) "shop" "cart" cart_route) (system replies "idle"),
)
unfolding ℕ_discrete create_router read_config deref raw_config text_or_empty load_config
    keep_config config_of send_config write_config now reload_patch reload_deployment
    find_existing_object add_routes add_route add_router add_service service_url router_name
    is_internal contains has_prefix itoa digits format get put keys find_key pure fail panic get_lb
    set_lb send try lift ◌>>=◌
created = refl

pub removed :
    remove_router (demo replies) "shop" "cart" true (system replies "busy")
    ≡ (returns tt, after (remove_router (demo replies) "shop" "cart" true) (system replies "busy"))
unfolding ℕ_discrete remove_router reload_if read_config deref raw_config text_or_empty load_config
    keep_config config_of send_config write_config now reload_patch reload_deployment
    find_existing_object remove_routes remove_loop is_internal router_prefix contains has_prefix get
    remove keys delete_matching pure fail panic get_lb set_lb send try lift ◌>>=◌
removed = refl

pub deleted :
    delete_instance (demo replies) cart (system replies "busy")
    ≡ (returns tt, after (delete_instance (demo replies) cart) (system replies "busy"))
unfolding ℕ_discrete delete_instance finalize finalize_service update_instance remove_router
    reload_if read_config deref raw_config text_or_empty load_config keep_config config_of
    send_config write_config now reload_patch reload_deployment find_existing_object remove_routes
    remove_loop is_internal router_prefix contains has_prefix get put remove keys find_key
    delete_matching contains_string remove_string get_instance_objects objects_of run_loop
    add_element put_route service_port new_service new_deployment pod_container pure fail panic
    get_lb set_lb send try lift ◌>>=◌
deleted = refl
