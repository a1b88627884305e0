-- ===== src/Controller/Status.antt =====
-- internal/controller/microservice_controller.go: `udpateStatus`.
pub mod Stored
pub mod Reported
pub mod Kept
use kom_operator.Prelude.{String, Bool, true, false, not, ◌||◌, ◌==◌, if◌then◌else◌}
use kom_operator.Errors.{Error, Result, ok, err}
use kom_operator.Api.{
  Microservice, MicroserviceStatus, Status, success, failure, routing_eq, status_eq,
}
use kom_operator.Platform.{Platform}
use kom_operator.Exec.{
  Exec, Sys, returns, update_status as status_request, pure, send, try, ◌>>=◌, ◌>>◌,
}

module _ (p : Platform) where
  -- The status that stands for the result of the reconciliation.
  unfoldable pub new_status : Microservice → String → Result (Unit {0}) → MicroserviceStatus
  new_status instance now (ok done) = record {
    last_update = now;
    reason = "";
    status = success;
    routing = instance.spec.container.routing;
  }
  new_status instance now (err e) = record {
    last_update = now;
    reason = p.error_text e;
    status = failure;
    routing = instance.spec.container.routing;
  }

  unfoldable pub status_differs : MicroserviceStatus → MicroserviceStatus → Bool
  status_differs a b = not (a.routing == b.routing) || not (a.status == b.status)

  unfoldable pub current_time : Exec p String
  current_time s = (returns (p.now s.world), s)

  -- The object as the server stored it, or, after a failure, with the status that was to be stored.
  unfoldable pub stored : Microservice → Result Microservice → Exec p Microservice
  stored instance (ok reply) = pure reply
  stored instance (err e) = pure instance

  unfoldable pub store_if : Bool → Microservice → Microservice → Exec p Microservice
  store_if false instance updated = pure instance
  store_if true instance updated = do
    reply ← try (send (status_request updated) (p.update_status updated))
    stored updated reply

  -- `udpateStatus`: its own error is dropped by its callers, and the object that it changed stays.
  unfoldable pub update_status : Microservice → Result (Unit {0}) → Exec p Microservice
  unfolding current_time
  update_status instance result = do
    now ← current_time
    let status = new_status instance now result
    store_if (status_differs instance.status status) instance (record instance { status = status })
