-- ===== src/Tests/RoutesWitnesses.antt =====
-- The theorems on the routes and on the helpers of `util`, at concrete inputs.
use text.Mathlib.Text.{◌==◌ as str_eq}
use Prim.Native.String.{◌++◌}
use mathlib.Core.List.{Permᴰ, Perm, Nodup, Nodup-cons, Nodup-nil, not-mem-nil}
use kom_operator.Prelude.{
  String, ◌≡◌, ◌≢◌, ◌↔◌, refl, ap, true, false, none, some, List, [], ◌∷◌, pos, arith,
  if◌then◌else◌,
}
use kom_operator.Text.{has_prefix, contains}
use kom_operator.Text.Underscores.{underscores}
use kom_operator.Dict.{get}
use kom_operator.Api.{Http}
use kom_operator.Traefik
use kom_operator.Util.{contains_string, equals}
use kom_operator.Util.Equality.{equals_not_symmetric, equals-Perm_iff, twice, pair}
use kom_operator.Routes.{Route, router_prefix, router_name, is_internal, add_routes, remove_routes}
use kom_operator.Routes.Names.{IsPlain, router_name-contains-prefix_iff}
use kom_operator.Routes.Create.{wanted_router}
use kom_operator.Routes.Order.{add_routes-perm}
use kom_operator.Routes.Lifecycle.{
  update_routes, remove_routes-add_routes, remove_routes-spares, remove_routes-takes_foreign,
}
use kom_operator.Tests.Demo.{serving, serving-IsServed}
use kom_operator.Tests.Cart.{web_port}

abbrev two_routes : List Route
two_routes = (pos 80, "Path(`/`)") ∷ (pos 81, "Path(`/b`)") ∷ []

abbrev shop : Traefik.Http
shop = serving "shop_cart_80"

cart_external : is_internal "cart" ≡ false
unfolding is_internal contains has_prefix
cart_external = refl

cat_external : is_internal "cat" ≡ false
unfolding is_internal contains has_prefix
cat_external = refl

shop-IsPlain : IsPlain "shop" × IsPlain "cart" × IsPlain "workshop" × IsPlain "cart"
unfolding underscores
shop-IsPlain = (refl, refl, refl, refl)

cat-IsPlain : IsPlain "shop" × IsPlain "cart" × IsPlain "shop" × IsPlain "cat"
unfolding underscores
cat-IsPlain = (refl, refl, refl, refl)

update_routes_example :
    get "shop_cart_81"
      (add_routes "shop" "cart" two_routes (remove_routes "shop" "cart" shop)).routers
    ≡ (if contains "shop_cart_81" (router_prefix "shop" "cart")
        then wanted_router "shop" "cart" "shop_cart_81" two_routes
        else get "shop_cart_81" shop.routers)
update_routes_example =
    update_routes "shop" "cart" cart_external shop (serving-IsServed "shop_cart_80") two_routes
      "shop_cart_81"

remove_routes-add_routes_example :
    get "shop_cart_80"
      (remove_routes "shop" "cart" (add_routes "shop" "cart" two_routes shop)).routers
    ≡ (if contains "shop_cart_80" (router_prefix "shop" "cart")
        then none
        else get "shop_cart_80" shop.routers)
remove_routes-add_routes_example =
    remove_routes-add_routes "shop" "cart" cart_external shop two_routes "shop_cart_80"
      (serving-IsServed "shop_cart_80")

abbrev cat : String
cat = "cat"

abbrev shop_name : String
shop_name = "shop"

abbrev cart_name : String
cart_name = "cart"

abbrev workshop : String
workshop = "workshop"

other_service : ¬ ((a : String) × (shop_name ≡ a ++ "shop") × (cat ≡ "cart"))
other_service (a, e, e') = cc (ap (λ x. str_eq x "cat") e')

remove_routes-spares_example :
    (get
        (router_name "shop" "cat" (pos 80))
        (remove_routes "shop" "cart" (serving "shop_cat_80")).routers
      ≡ get (router_name "shop" "cat" (pos 80)) (serving "shop_cat_80").routers)
    × (get
          (router_name "shop" "cat" (pos 80))
          (remove_routes "shop" "cart" (serving "shop_cat_80")).services
        ≡ get (router_name "shop" "cat" (pos 80)) (serving "shop_cat_80").services)
remove_routes-spares_example =
    remove_routes-spares "shop" "cart" "shop" "cat" (pos 80) cat-IsPlain cart_external cat_external
      (serving "shop_cat_80") (serving-IsServed "shop_cat_80") other_service

remove_routes-takes_foreign_example :
    (get
        (router_name "workshop" "cart" (pos 80))
        (remove_routes "shop" "cart" (serving "workshop_cart_80")).routers
      ≡ none)
    × (get
          (router_name "workshop" "cart" (pos 80))
          (remove_routes "shop" "cart" (serving "workshop_cart_80")).services
        ≡ none)
remove_routes-takes_foreign_example =
    remove_routes-takes_foreign "shop" "cart" "workshop" "cart" (pos 80) shop-IsPlain cart_external
      cart_external (serving "workshop_cart_80") (serving-IsServed "workshop_cart_80") "work" refl
      refl

router_name-contains-prefix_example :
    (contains (router_name "workshop" "cart" (pos 80)) (router_prefix "shop" "cart") ≡ true)
    ↔ ((a : String) × (workshop ≡ a ++ "shop") × (cart_name ≡ "cart"))
router_name-contains-prefix_example =
    router_name-contains-prefix_iff "shop" "cart" "workshop" "cart" (pos 80) shop-IsPlain
      cart_external

ports_differ : pos 80 ≢ pos 81
ports_differ e = ground arith

abbrev turned : List Route
turned = (pos 81, "Path(`/b`)") ∷ (pos 80, "Path(`/`)") ∷ []

add_routes-perm_example :
    (get "shop_cart_80" (add_routes "shop" "cart" two_routes shop).routers
      ≡ get "shop_cart_80" (add_routes "shop" "cart" turned shop).routers)
    × (get "shop_cart_80" (add_routes "shop" "cart" two_routes shop).services
        ≡ get "shop_cart_80" (add_routes "shop" "cart" turned shop).services)
add_routes-perm_example =
    add_routes-perm "shop" "cart" two_routes turned shop "shop_cart_80" cart_external
      (Permᴰ.swap refl refl) ((ports_differ, tt), (tt, tt))

b_missing : contains_string (some ("a" ∷ [])) "b" ≡ false
unfolding contains_string
b_missing = refl

abbrev home : Http
home = record { port = web_port; rule = "Path(`/`)" }

abbrev blog : Http
blog = record { port = web_port; rule = "Path(`/blog`)" }

home_differs : home ≢ blog
home_differs e = cc (ap (λ h. str_eq h.rule "Path(`/`)") e)

equals_not_symmetric_example :
    (equals (twice home) (pair home blog) ≡ true) × (equals (pair home blog) (twice home) ≡ false)
equals_not_symmetric_example = equals_not_symmetric home blog home_differs

home-Nodup : Nodup (home ∷ [])
home-Nodup = Nodup-cons.1 (not-mem-nil, Nodup-nil)

equals-Perm_example :
    (equals (record { http = some (home ∷ []) }) (record { http = some (home ∷ []) }) ≡ true)
    ↔ Perm (home ∷ []) (home ∷ [])
equals-Perm_example =
    equals-Perm_iff (record { http = some (home ∷ []) }) (record { http = some (home ∷ []) })
      home-Nodup
