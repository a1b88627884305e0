-- ===== src/Tests/PanicWitnesses.antt =====
-- The theorem on panics, where the stored configuration cannot be decoded.
use kom_operator.Prelude.{◌≡◌, refl}
use kom_operator.Dict.{get}
use kom_operator.Exec.{Sys, panics, pure, panic, get_lb, set_lb, send, try, lift, ◌>>=◌}
use kom_operator.Util.{contains_string}
use kom_operator.LoadBalancer.{find_existing_object, keep_config, load_config}
use kom_operator.LoadBalancer.Controller.{
  text_or_empty, raw_config, deref, read_config, remove_router,
}
use kom_operator.Controller.Objects.{
  get_instance_objects, objects_of, run_loop, add_element, put_route, service_port, new_service,
  new_deployment, pod_container,
}
use kom_operator.Controller.Reconcile.{
  nil_pointer, finalize, finalize_service, delete_instance, reconcile_by, reconcile_instance,
  reconcile_found, reconcile,
}
use kom_operator.Controller.Reconcile.Panics.{Cause}
use kom_operator.Controller.Reconcile.Panics.Whole.{reconcile_panics}
use kom_operator.Tests.Demo.{Replies, demo}
use kom_operator.Tests.DemoLaws.{with_one}
use kom_operator.Tests.Cart.{cart, system}

-- The server has `cart`, which is under deletion.
abbrev deletes_cart : Replies
deletes_cart = with_one cart

abbrev last : Sys (demo deletes_cart)
last = (reconcile (demo deletes_cart) "shop" "cart" (system deletes_cart "broken")).1

panicked :
    reconcile (demo deletes_cart) "shop" "cart" (system deletes_cart "broken")
    ≡ (panics nil_pointer, last)
unfolding reconcile reconcile_found reconcile_instance reconcile_by delete_instance finalize
    finalize_service remove_router read_config deref raw_config text_or_empty load_config
    keep_config find_existing_object get contains_string get_instance_objects objects_of run_loop
    add_element put_route service_port new_service new_deployment pod_container pure panic get_lb
    set_lb send try lift ◌>>=◌
panicked = refl

reconcile_panics_example : Cause (demo deletes_cart) "shop" "cart" last
reconcile_panics_example =
    reconcile_panics "shop" "cart" (system deletes_cart "broken") last nil_pointer panicked
