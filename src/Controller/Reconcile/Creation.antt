-- ===== src/Controller/Reconcile/Creation.antt =====
-- A creation that fails.
use kom_operator.Prelude.{◌≡◌}
use kom_operator.Errors.{Error, err}
use kom_operator.Api.{Microservice}
use kom_operator.Platform.{Platform}
use kom_operator.Exec.{Sys, fails, fail, try, ◌>>=◌}
use kom_operator.Exec.Inversion.{continue-returns}
use kom_operator.Controller.Objects.{InstanceObjects}
use kom_operator.Controller.Status.{update_status}
use kom_operator.Controller.Status.Stored.{update_status_lem}
use kom_operator.Controller.Reconcile.{create_all, create_resources, after_create}

module _ {p : Platform} where
  -- When the creation of the deployment, the service or the routes fails, the reconciliation
  -- stores that error in the status and returns it, and its final state is that after the status:
  -- no autoscaler is made.
  pub failed_creation_is_reported :
      (instance : Microservice) (o : InstanceObjects) (s u : Sys p) (e : Error)
      → create_all p o s ≡ (fails e, u)
      → create_resources p instance o s ≡ (fails e, (update_status p instance (err e) u).1)
  unfolding create_resources after_create ◌>>=◌ try fail
  failed_creation_is_reported instance o s u e h = rw h (
      continue-returns (update_status p instance (err e) u) (λ stored. fail e) _
        (update_status_lem instance (err e) u).0)
