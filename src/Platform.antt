-- ===== src/Platform.antt =====
-- What the operator uses and does not implement: the Kubernetes API server behind the client of
-- controller-runtime, the YAML library, the validator, the quantities of the API, the clock, and
-- the environment of its process. Every definition that depends on them takes a `Platform`.
use kom_operator.Prelude.{String, Bool, Option, List}
use kom_operator.Errors.{Error, Result}
use kom_operator.Kube.{
  ObjectMeta, Deployment, KubeService, ConfigMap, Pod, HorizontalPodAutoscaler, Quantity,
}
use kom_operator.Api.{Microservice}
use kom_operator.Traefik.{TraefikConfig}

-- One entry of a JSON patch: `PatchInterfaceValue` of process/common.go, whose value is a map of
-- texts here.
pub record PatchInterfaceValue : Type 0 where
  pub op : String
  pub path : String
  pub value : List (String × String)

-- The client's calls on one kind of objects. A call may change the server's state, and so may
-- anybody else meanwhile. `create` and `update` give back the object as the server stored it,
-- which the client writes over the caller's.
pub record Calls (W T : Type 0) : Type 0 where
  pub get : String → String → W → Result T × W
  pub create : T → W → Result T × W
  pub update : T → W → Result T × W
  pub delete : T → W → Result (Unit {0}) × W

pub record Platform : Type 1 where
  -- the state of the API server
  pub World : Type 0
  pub microservices : Calls World Microservice
  pub update_status : Microservice → World → Result Microservice × World
  pub deployments : Calls World Deployment
  pub patch_deployment : Deployment → List PatchInterfaceValue → World → Result (Unit {0}) × World
  pub services : Calls World KubeService
  pub config_maps : Calls World ConfigMap
  pub scalers : Calls World HorizontalPodAutoscaler
  pub get_pod : String → String → World → Result Pod × World
  -- `time.Now()`, formatted
  pub now : World → String
  -- `yaml.Marshal`, and what `yaml.Unmarshal` leaves in the pointer, whose error is ignored
  pub marshal : TraefikConfig → Result String
  pub unmarshal : String → Option TraefikConfig
  -- `resource.ParseQuantity`, and `IsZero` of the entries of a resource list
  pub parse_quantity : String → Result Quantity
  pub cpu_is_zero : String → Bool
  pub memory_is_zero : String → Bool
  -- `controllerutil.SetControllerReference`: the metadata with the owner added
  pub set_controller_reference : Microservice → ObjectMeta → Result ObjectMeta
  -- `validate.Struct`
  pub validate : Microservice → Result (Unit {0})
  -- `err.Error()`
  pub error_text : Error → String
  -- `os.LookupEnv`, and the namespace file of the service account if it can be read
  pub lookup_env : String → Option String
  pub namespace_file : Option String
