-- ===== src/LoadBalancer/Controller.antt =====
-- process/loadbalancer_controller.go: routers of the load balancer. The mutex makes a call of
-- `CreateRouter` or `RemoveRouter` one step for the other calls.
pub mod Stored
pub mod Held
pub mod Panics
pub mod Early
pub mod Branches
use text.Mathlib.Text.{◌==◌ as str_eq}
use kom_operator.Prelude.{
  String, Bool, true, false, Option, none, some, List, [], ◌∷◌, if◌then◌else◌,
}
use kom_operator.Dict.{get}
use kom_operator.Kube.{ConfigMap}
use kom_operator.Traefik.{TraefikConfig}
use kom_operator.Platform.{Platform}
use kom_operator.Exec.{Exec, LoadBalancer, get_lb, pure, panic, ◌>>=◌, ◌>>◌}
use kom_operator.Routes.{Route, add_routes, remove_routes}
use kom_operator.LoadBalancer.{
  traefik_config_file_name, load_config, write_config, reload_deployment,
}

unfoldable pub text_or_empty : Option String → String
text_or_empty none = ""
text_or_empty (some text) = text

-- A missing key reads as the empty text.
unfoldable pub raw_config : ConfigMap → String
unfolding text_or_empty
raw_config config = text_or_empty (get traefik_config_file_name config.entries)

module _ (p : Platform) where
  -- The pointer that `Unmarshal` fills; using it while it is nil panics.
  unfoldable pub deref : Option TraefikConfig → Exec p TraefikConfig
  deref none = panic "invalid memory address or nil pointer dereference"
  deref (some cfg) = pure cfg

  unfoldable pub read_config : Exec p TraefikConfig
  read_config = do load_config p; lb ← get_lb; deref (p.unmarshal (raw_config lb.config))

  -- `CreateRouter`
  unfoldable pub create_router : String → String → List Route → Exec p (Unit {0})
  create_router namespace service routes = do
    cfg ← read_config
    write_config p (record cfg { http = add_routes namespace service routes cfg.http }) true
    reload_deployment p

  unfoldable pub reload_if : Bool → Exec p (Unit {0})
  reload_if true = reload_deployment p
  reload_if false = pure tt

  -- `RemoveRouter`
  unfoldable pub remove_router : String → String → Bool → Exec p (Unit {0})
  remove_router namespace service reload = do
    cfg ← read_config
    write_config p (record cfg { http = remove_routes namespace service cfg.http }) true
    reload_if reload
