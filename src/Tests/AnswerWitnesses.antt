-- ===== src/Tests/AnswerWitnesses.antt =====
-- The theorems on how the routers are made and removed, and on the routes, at concrete inputs.

use kom_operator.Prelude.{◌≡◌, true, false, none, pos, items}
use kom_operator.Routes.{add_routes, remove_routes}
use kom_operator.Routes.Order.{HasDistinctPorts}
use kom_operator.LoadBalancer.Controller.{create_router, remove_router}
use kom_operator.LoadBalancer.Controller.Branches.{Ended}
use kom_operator.LoadBalancer.Controller.Branches.Endings.{create_router-Ended, remove_router-Ended}
use kom_operator.Controller.Objects.{get_instance_objects}
use kom_operator.Controller.Objects.Ports.{rule_at, last_rule, instance_routers_lem}
use kom_operator.Tests.Demo.{demo, replies}
use kom_operator.Tests.Cart.{cart, system}
use kom_operator.Tests.Runs.{cart_route, conflicting}

create_router-Ended_example :
    Ended
      (add_routes "shop" "cart" cart_route)
      true
      (system replies "idle")
      (create_router (demo replies) "shop" "cart" cart_route (system replies "idle"))
create_router-Ended_example = create_router-Ended "shop" "cart" (system replies "idle") cart_route

remove_router-Ended_example :
    Ended
      (remove_routes "shop" "cart")
      false
      (system conflicting "busy")
      (remove_router (demo conflicting) "shop" "cart" false (system conflicting "busy"))
remove_router-Ended_example = remove_router-Ended "shop" "cart" (system conflicting "busy") false

instance_routers_example :
    HasDistinctPorts (get_instance_objects cart).routers
    × (rule_at (pos 80) (get_instance_objects cart).routers
        ≡ last_rule (pos 80) (items cart.spec.container.routing.http) none)
instance_routers_example = instance_routers_lem cart (pos 80)
