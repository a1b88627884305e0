-- ===== src/Controller/Status/Kept.antt =====
-- What `udpateStatus` keeps.
use kom_operator.Prelude.{String, Bool, true, false}
use kom_operator.Errors.{Result, ok, err}
use kom_operator.Api.{Microservice}
use kom_operator.Platform.{Platform}
use kom_operator.Exec.{Sys, update_status as status_request, send}
use kom_operator.Exec.Keeps.{Keeps, Any, OnSuccess, Keeps-bind, Keeps-try, Keeps-pure}
use kom_operator.AutoScaling.Kept.{OwnMeta}
use kom_operator.Controller.Status.{
  new_status, status_differs, current_time, stored, store_if, update_status,
}

module _ {p : Platform} {I : Sys p → Type 0} (Own : String → String → Type 0)
    (rule : (m : Microservice)
      → OwnMeta Own m.meta
      → Keeps I
          (send (status_request m) (p.update_status m))
          (λ (a : Microservice). OwnMeta Own a.meta)) where
  Keeps-current_time : Keeps I (current_time p) Any
  unfolding current_time
  Keeps-current_time = record { state = λ s i. i; value = λ s i a e. tt }

  Keeps-stored :
      (m : Microservice) (reply : Result Microservice)
      → OwnMeta Own m.meta
      → OnSuccess (λ (a : Microservice). OwnMeta Own a.meta) reply
      → Keeps I (stored p m reply) (λ (a : Microservice). OwnMeta Own a.meta)
  unfolding stored
  Keeps-stored m (ok a) own own' = Keeps-pure a own'
  Keeps-stored m (err e) own own' = Keeps-pure m own

  Keeps-store_if :
      (differs : Bool) (m updated : Microservice)
      → OwnMeta Own m.meta
      → OwnMeta Own updated.meta
      → Keeps I (store_if p differs m updated) (λ (a : Microservice). OwnMeta Own a.meta)
  unfolding store_if
  Keeps-store_if false m updated own own' = Keeps-pure m own
  Keeps-store_if true m updated own own' =
      Keeps-bind (Keeps-try (rule updated own'))
        λ reply own_a. Keeps-stored updated reply own' own_a

  pub Keeps-update_status :
      (m : Microservice) (result : Result (Unit {0}))
      → OwnMeta Own m.meta
      → Keeps I (update_status p m result) (λ (a : Microservice). OwnMeta Own a.meta)
  unfolding update_status
  Keeps-update_status m result own = Keeps-bind Keeps-current_time λ now _.
      Keeps-store_if (status_differs p m.status (new_status p m now result)) m
        (record m { status = new_status p m now result }) own own
