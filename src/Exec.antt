-- ===== src/Exec.antt =====
-- Go code that calls the API server, returns errors and may panic. What was done before an error or
-- a panic stays done.
pub mod Inversion
pub mod Keeps
pub mod Panics
use kom_operator.Prelude.{String, Option, List, ◌∷◌}
use kom_operator.Errors.{Error, Result, ok, err}
use kom_operator.Kube.{OwnerReference, Deployment, KubeService, ConfigMap, HorizontalPodAutoscaler}
use kom_operator.Api.{Microservice}
use kom_operator.Platform.{Platform, PatchInterfaceValue}

-- The requests that the operator sends to the API server.
pub data Request : Type 0 where
  get_microservice get_deployment get_service get_config_map get_scaler get_pod :
      String → String → Request
  update_microservice update_status : Microservice → Request
  create_deployment update_deployment : Deployment → Request
  patch_deployment : Deployment → List PatchInterfaceValue → Request
  create_service delete_service : KubeService → Request
  create_config_map update_config_map : ConfigMap → Request
  create_scaler update_scaler delete_scaler : HorizontalPodAutoscaler → Request

-- `LoadBalancer` of process/loadbalancer.go, less its manager and context.
pub record LoadBalancer : Type 0 where
  pub name : String
  pub namespace : String
  pub config_name : String
  pub config : ConfigMap
  pub owner : Option OwnerReference
  pub deployment : Deployment

-- The API server, the requests sent to it so far, the last one first, and the load balancer, of
-- which the process has one.
pub record Sys (p : Platform) : Type 0 where
  pub world : p.World
  pub sent : List Request
  pub lb : LoadBalancer

pub data Outcome {ℓ} (A : Type ℓ) : Type ℓ where
  returns : A → Outcome A
  fails : Error → Outcome A
  panics : String → Outcome A

abbrev pub of_result : {A : Type 0} → Result A → Outcome A
of_result (ok a) = returns a
of_result (err e) = fails e

module _ (p : Platform) where
  abbrev pub Exec : Type 0 → Type 0
  Exec A = Sys p → Outcome A × Sys p

module _ {p : Platform} where
  unfoldable pub pure : {A : Type 0} → A → Exec p A
  pure a s = (returns a, s)

  unfoldable pub fail : {A : Type 0} → Error → Exec p A
  fail e s = (fails e, s)

  unfoldable pub panic : {A : Type 0} → String → Exec p A
  panic reason s = (panics reason, s)

  unfoldable pub get_lb : Exec p LoadBalancer
  get_lb s = (returns s.lb, s)

  unfoldable pub set_lb : LoadBalancer → Exec p (Unit {0})
  set_lb lb s = (returns tt, record s { lb = lb })

  -- One request, and the server's reply.
  unfoldable pub send : {A : Type 0} → Request → (p.World → Result A × p.World) → Exec p A
  send request call s =
      let (reply, world) = call s.world in
      (of_result reply, record s { world = world; sent = request ∷ s.sent })

  abbrev pub continue : {A B : Type 0} → Outcome A × Sys p → (A → Exec p B) → Outcome B × Sys p
  continue (returns a, s) f = f a s
  continue (fails e, s) f = (fails e, s)
  continue (panics reason, s) f = (panics reason, s)

  infixl 5 ◌>>=◌ ◌>>◌
  unfoldable pub ◌>>=◌ : {A B : Type 0} → Exec p A → (A → Exec p B) → Exec p B
  ◌>>=◌ m f s = continue (m s) f

  abbrev pub ◌>>◌ : {B : Type 0} → Exec p (Unit {0}) → Exec p B → Exec p B
  m >> n = m >>= λ _. n

  abbrev pub caught : {A : Type 0} → Outcome A × Sys p → Outcome (Result A) × Sys p
  caught (returns a, s) = (returns (ok a), s)
  caught (fails e, s) = (returns (err e), s)
  caught (panics reason, s) = (panics reason, s)

  -- For code that looks at the error: `value, err := m`.
  unfoldable pub try : {A : Type 0} → Exec p A → Exec p (Result A)
  try m s = caught (m s)

  unfoldable pub lift : {A : Type 0} → Result A → Exec p A
  lift r s = (of_result r, s)

  pub ruleset exec = (pure, fail, panic, get_lb, set_lb, send, ◌>>=◌, try, lift)
