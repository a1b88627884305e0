-- ===== src/Controller/Status/Stored.antt =====
-- What `udpateStatus` sends and returns.
use kom_operator.Prelude.{◌≡◌, ◌∷◌, arith, if◌then◌else◌}
use kom_operator.Errors.{Result, ok, err}
use kom_operator.Api.{Microservice, MicroserviceStatus}
use kom_operator.Platform.{Platform}
use kom_operator.Exec.{Sys, update_status as status_request, returns, pure, send, try, ◌>>=◌}
use kom_operator.Controller.Status.{
  update_status, new_status, store_if, stored, current_time, status_differs,
}

module _ {p : Platform} (instance : Microservice) (r : Result (Unit {0})) (s : Sys p) where
  abbrev pub next_status : MicroserviceStatus
  next_status = new_status p instance (p.now s.world) r

  -- The object that stands for the instance afterwards.
  pub after_status : Result Microservice → Microservice
  after_status reply = if status_differs p instance.status next_status then kept reply else instance
    where
      kept : Result Microservice → Microservice
      kept (ok m) = m
      kept (err e) = record instance { status = next_status }

  -- `udpateStatus` always returns and leaves the load balancer alone. It sends the new status
  -- exactly if the routing or the verdict differs from the old one, and returns the server's reply
  -- then, or the object with the new status if the server refused it, and the unchanged object
  -- otherwise.
  pub update_status_lem :
      ((update_status p instance r s).0
        ≡ returns
            (after_status (p.update_status (record instance { status = next_status }) s.world).0))
      × ((update_status p instance r s).1.sent ≡ (
          if status_differs p instance.status next_status
          then status_request (record instance { status = next_status }) ∷ s.sent
          else s.sent))
      × ((update_status p instance r s).1.lb ≡ s.lb)
  unfolding update_status store_if stored current_time after_status ◌>>=◌ try send pure
  update_status_lem = ground arith
