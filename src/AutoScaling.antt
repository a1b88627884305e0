-- ===== src/AutoScaling.antt =====
-- process/autoscaling_handler.go: the horizontal pod autoscaler of a microservice.
pub mod Scaler
pub mod Safety
pub mod Wanted
pub mod Kept
use text.Mathlib.Text.{◌==◌ as str_eq}
use kom_operator.Prelude.{
  String, Bool, true, false, not, ◌&&◌, Option, none, some, List, [], ◌∷◌, int_eq, if◌then◌else◌,
}
use kom_operator.Errors.{Error, Result, ok, err, is_already_exists}
use kom_operator.Kube.{OwnerReference, Deployment, HorizontalPodAutoscaler}
use kom_operator.Api
use kom_operator.Api.{Microservice}
use kom_operator.Platform.{Platform}
use kom_operator.Exec.{
  Exec, Request, get_scaler, create_scaler as create_request, update_scaler, delete_scaler, pure,
  send, lift, try, ◌>>=◌, ◌>>◌,
}
use Scaler.{create_scaler}

has_some {ℓ} : {A : Type ℓ} → List A → Bool
has_some [] = false
has_some (x ∷ xs) = true

-- `Min != Max && len(Scaler) > 0`
unfoldable pub autoscaling_enabled : Microservice → Bool
unfolding has_some
autoscaling_enabled instance =
    not (int_eq instance.spec.autoscaling.min instance.spec.autoscaling.max)
    && has_some instance.spec.autoscaling.scaler

-- The loop over the owner references, which stops at the operator's.
unfoldable pub is_owner : Microservice → List OwnerReference → Bool
is_owner instance [] = false
is_owner instance (owner ∷ rest) =
    if str_eq owner.name instance.meta.name && str_eq owner.kind instance.type_meta.kind
    then true
    else is_owner instance rest

module _ (p : Platform) where
  -- An invalid configuration is logged, and so is the reply of the server.
  update_with : Result HorizontalPodAutoscaler → Exec p (Unit {0})
  update_with (err e) = pure tt
  update_with (ok scaler) = do
    reply ← try (send (update_scaler scaler) (p.scalers.update scaler))
    pure tt

  create_with : Result HorizontalPodAutoscaler → Exec p (Unit {0})
  create_with (err e) = pure tt
  create_with (ok scaler) = do
    reply ← try (send (create_request scaler) (p.scalers.create scaler))
    pure tt

  delete : HorizontalPodAutoscaler → Exec p (Unit {0})
  delete hpa = do reply ← try (send (delete_scaler hpa) (p.scalers.delete hpa)); pure tt

  handle : Microservice → Deployment → Result HorizontalPodAutoscaler → Exec p (Unit {0})
  handle instance deployment (ok hpa) =
      if is_owner instance hpa.meta.owner_references
      then (if autoscaling_enabled instance
          then update_with (create_scaler p deployment instance)
          else delete hpa)
      else pure tt
  -- any error counts as a missing scaler
  handle instance deployment (err e) =
      if autoscaling_enabled instance
      then create_with (create_scaler p deployment instance)
      else pure tt

  -- `Run`
  pub run : Microservice → Deployment → Exec p (Unit {0})
  run instance deployment = do
    found ← try (
        send (get_scaler deployment.meta.namespace deployment.meta.name)
          (p.scalers.get deployment.meta.namespace deployment.meta.name))
    handle instance deployment found
