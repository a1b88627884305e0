-- ===== src/Tests/Demo.antt =====
-- A platform to run the operator on: a server that keeps one ConfigMap and answers every other call
-- with a fixed reply, and a library that reads and writes the texts of two configurations.
use native.Mathlib.Decide.{ℕ_discrete}
use text.Mathlib.Text.{◌==◌ as str_eq}
use kom_operator.Prelude.{
  Bool-cases, inl, inr, eq_iff, String, ◌≡◌, refl, ap, subst, ◌≢◌, sym, Bool, true, false, Option,
  none, some, [], ◌∷◌, arith, if◌then◌else◌,
}
use kom_operator.Errors.{Result, ok, err, not_found, library_error, ok_inj}
use kom_operator.Kube.{Deployment, KubeService, ConfigMap, HorizontalPodAutoscaler}
use kom_operator.Api.{Microservice}
use kom_operator.Traefik
use kom_operator.Traefik.{TraefikConfig, new_traefik_config}
use kom_operator.Dict.{get}
use kom_operator.Routes.{new_router, new_service}
use kom_operator.Routes.Lifecycle.{IsServed}
use kom_operator.LoadBalancer.Controller.Held.{StoresConfigs}
use kom_operator.Platform.{Platform, Calls}

-- The configuration without routes, and with the route of `cart` in `shop`.
abbrev pub idle : TraefikConfig
idle = new_traefik_config

abbrev pub serving : String → Traefik.Http
serving key = record {
  routers = (key, new_router key "Path(`/`)") ∷ [];
  services = (key, new_service "http://cart.shop.svc.cluster.local:80") ∷ [];
}

abbrev pub busy : TraefikConfig
busy = record idle { http = serving "shop_cart_80" }

pub different : (x y : String) → str_eq x y ≡ false → x ≢ y
different x y e h = cc (e, (eq_iff x y).1 h)

abbrev decide_text : (x y : String) (same : Bool) → str_eq x y ≡ same → Dec (x ≡ y)
decide_text x y true e = yes ((eq_iff x y).0 e)
decide_text x y false e = no (different x y e)

abbrev String-discrete : Discrete String
String-discrete x y = decide_text x y (str_eq x y) refl

abbrev pub discrete : Discrete TraefikConfig
discrete = hlevel (ℕ_discrete, String-discrete)

-- The text of a configuration, if it is one of the two.
abbrev text_of : (cfg : TraefikConfig) → Dec (cfg ≡ idle) → Dec (cfg ≡ busy) → Result String
text_of cfg (yes e) second = ok "idle"
text_of cfg (no other) (yes e) = ok "busy"
text_of cfg (no other) (no neither) = err (library_error "unknown configuration")

abbrev marshal : TraefikConfig → Result String
marshal cfg = text_of cfg (discrete cfg idle) (discrete cfg busy)

abbrev unmarshal : String → Option TraefikConfig
unmarshal text =
    if str_eq text "idle" then some idle else if str_eq text "busy" then some busy else none

-- What a caller sees of a server that has no such object.
abbrev pub refused {ℓ} : {A : Type ℓ} → Result A
refused = err (not_found "no such object")

-- The fixed replies.
pub record Replies : Type 0 where
  pub microservice : String → String → Result Microservice
  pub valid : Result (Unit {0})
  pub update_microservice : Microservice → Result Microservice
  pub deployment : Result Deployment
  pub service : Result KubeService
  pub scaler : Result HorizontalPodAutoscaler
  pub update_config : ConfigMap → Result ConfigMap
  pub environment : String → Option String

abbrev constant : {T : Type 0} → (String → String → Result T) → (T → Result T) → Calls ConfigMap T
constant reply stored = record {
  get = λ namespace name w. (reply namespace name, w);
  create = λ x w. (stored x, w);
  update = λ x w. (stored x, w);
  delete = λ x w. (ok tt, w);
}

abbrev pub accept : {T : Type 0} → T → Result T
accept x = ok x

abbrev pub demo : Replies → Platform
demo r = record {
  World = ConfigMap;
  microservices = constant r.microservice r.update_microservice;
  update_status = λ m w. (ok m, w);
  deployments = constant (λ namespace name. r.deployment) accept;
  patch_deployment = λ d patch w. (ok tt, w);
  services = constant (λ namespace name. r.service) accept;
  config_maps = record {
    get = λ namespace name w. (ok w, w);
    create = λ c w. (ok c, c);
    update = λ c w. (r.update_config c, c);
    delete = λ c w. (ok tt, w);
  };
  scalers = constant (λ namespace name. r.scaler) accept;
  get_pod = λ namespace name w. (refused, w);
  now = λ w. "12:00";
  marshal = marshal;
  unmarshal = unmarshal;
  parse_quantity = λ text. ok text;
  cpu_is_zero = λ text. false;
  memory_is_zero = λ text. false;
  set_controller_reference = λ instance meta. ok meta;
  validate = λ m. r.valid;
  error_text = λ e. "error";
  lookup_env = r.environment;
  namespace_file = none;
}

abbrev pub replies : Replies
replies = record {
  microservice = λ namespace name. refused;
  valid = ok tt;
  update_microservice = accept;
  deployment = refused;
  service = refused;
  scaler = refused;
  update_config = accept;
  environment = λ name. none;
}

reads_back :
    (cfg : TraefikConfig) (text : String) (first : Dec (cfg ≡ idle)) (second : Dec (cfg ≡ busy))
    → text_of cfg first second ≡ ok text
    → unmarshal text ≡ some cfg
reads_back cfg text (yes e) second h =
    subst (λ t. unmarshal t ≡ some cfg) (ok_inj h) (ap (λ c. some c) (sym e))
reads_back cfg text (no other) (yes e) h =
    subst (λ t. unmarshal t ≡ some cfg) (ok_inj h) (ap (λ c. some c) (sym e))
reads_back cfg text (no other) (no neither) h = cc

pub demo-StoresConfigs : StoresConfigs (demo replies)
demo-StoresConfigs = record {
  reads_back = λ cfg text e. reads_back cfg text (discrete cfg idle) (discrete cfg busy) e;
  stores = λ c d w e. ap (λ x. x.entries) (sym (ok_inj e));
}

idle-IsServed : IsServed idle.http
unfolding get
idle-IsServed = record { served = λ k r e. cc }

pub serving-IsServed : (key : String) → IsServed (serving key)
unfolding get
serving-IsServed key = record { served = λ k r e. ground (arith, eq_iff key k) }

some_inj {ℓ} : {A : Type ℓ} {a b : A} → some a ≡ some b → a ≡ b
some_inj e = cc

pub unmarshal-IsServed :
    (text : String) (cfg : TraefikConfig) → unmarshal text ≡ some cfg → IsServed cfg.http
unmarshal-IsServed text cfg h = elim (Bool-cases (str_eq text "idle")) [
  | inl e ↦ subst (λ c. IsServed c.http) (some_inj (rw e at h)) idle-IsServed
  | inr e ↦ elim (Bool-cases (str_eq text "busy")) [
    | inl e' ↦
        subst (λ c. IsServed c.http) (some_inj (rw (e, e') at h)) (serving-IsServed "shop_cart_80")
    | inr e' ↦ absurd (cc (rw (e, e') at h))
  ]
]
