-- ===== src/AutoScaling/Safety.antt =====
-- What `Run` may send to the API server.
use kom_operator.Prelude.{
  ◌≡◌, ◌≢◌, ap, true, false, int_eq, List, [], ◌∷◌, ◌++◌, arith, if◌then◌else◌,
}
use kom_operator.Errors.{Result, ok, err}
use kom_operator.Kube.{Deployment, HorizontalPodAutoscaler}
use kom_operator.Api.{Microservice}
use kom_operator.Platform.{Platform}
use kom_operator.Exec.{
  Sys, Request, get_scaler, create_scaler as create_request, update_scaler, delete_scaler, returns,
  pure, send, try, ◌>>=◌,
}
use kom_operator.AutoScaling.{
  has_some, autoscaling_enabled, is_owner, update_with, create_with, delete, handle, run,
}
use kom_operator.AutoScaling.Scaler.{create_scaler}

module _ (p : Platform) (instance : Microservice) (deployment : Deployment) (s : Sys p) where
  -- What the server answers to the first request.
  abbrev pub found : Result HorizontalPodAutoscaler
  found = (p.scalers.get deployment.meta.namespace deployment.meta.name s.world).0

  abbrev changed :
      Result HorizontalPodAutoscaler → (HorizontalPodAutoscaler → Request) → List Request
  changed (ok scaler) request = request scaler ∷ []
  changed (err e) request = []

  -- The change that the state of the cluster and the specification ask for.
  unfoldable pub wanted_change : Result HorizontalPodAutoscaler → List Request
  wanted_change (ok hpa) =
      if is_owner instance hpa.meta.owner_references
      then (if autoscaling_enabled instance
          then changed (create_scaler p deployment instance) update_scaler
          else delete_scaler hpa ∷ [])
      else []
  wanted_change (err e) =
      if autoscaling_enabled instance
      then changed (create_scaler p deployment instance) create_request
      else []

  -- Whatever the server answers, `Run` returns without an error and leaves the load balancer
  -- alone. It asks for the autoscaler and then sends at most one change: where one was found,
  -- nothing unless the microservice owns it, else its update if autoscaling is enabled and the
  -- specification is valid, and its deletion if autoscaling is disabled; where none was found, its
  -- creation if autoscaling is enabled and the specification is valid.
  pub run_lem :
      ((run p instance deployment s).0 ≡ returns tt)
      × ((run p instance deployment s).1.sent
          ≡ wanted_change found
            ++ get_scaler deployment.meta.namespace deployment.meta.name ∷ s.sent)
      × ((run p instance deployment s).1.lb ≡ s.lb)
  unfolding run handle update_with create_with delete wanted_change ◌>>=◌ pure send try
  run_lem = ground arith

-- Autoscaling is enabled only for different bounds and with scalers.
pub autoscaling_enabled_sound :
    (instance : Microservice)
    → autoscaling_enabled instance ≡ true
    → (int_eq instance.spec.autoscaling.min instance.spec.autoscaling.max ≡ false)
      × (instance.spec.autoscaling.scaler ≢ [])
unfolding autoscaling_enabled has_some
autoscaling_enabled_sound instance enabled = (
  ground (arith, enabled),
  λ empty.
      let scaled : has_some instance.spec.autoscaling.scaler ≡ true = ground (arith, enabled) in
      cc (ap has_some empty, scaled),
)
