-- ===== src/Controller/Status/Reported.antt =====
-- The status that is sent, by what the reconciliation reports.
use kom_operator.Prelude.{
  String, ◌≡◌, ◌↔◌, ◌⊎◌, inl, inr, ap, sym, ◌∙◌, refl, false, ◌∷◌, arith, Bool-cases,
}
use kom_operator.Errors.{Result, ok, err}
use kom_operator.Api.{
  Microservice, MicroserviceStatus, Status, success, failure, routing_eq, status_eq,
}
use kom_operator.Platform.{Platform}
use kom_operator.Exec.{Sys, returns, update_status as status_request}
use kom_operator.Controller.Status.{update_status, new_status, status_differs}
use kom_operator.Controller.Status.Stored.{update_status_lem, next_status}

abbrev pub verdict : Result (Unit {0}) → Status
verdict (ok done) = success
verdict (err e) = failure

abbrev pub reason : Platform → Result (Unit {0}) → String
reason p (ok done) = ""
reason p (err e) = p.error_text e

module _ {p : Platform} (instance : Microservice) (r : Result (Unit {0})) (s : Sys p) where
  -- The microservice with a report on `r`.
  abbrev pub reported : Microservice
  reported = record instance {
    status = record {
      routing = instance.spec.container.routing;
      status = verdict r;
      last_update = p.now s.world;
      reason = reason p r;
    };
  }

  -- The stored status already says this of the same routing.
  abbrev pub IsKnown : Type 0
  IsKnown =
      (instance.status.routing ≡ instance.spec.container.routing)
      × (instance.status.status ≡ verdict r)

  next_reported :
      (q : Result (Unit {0}))
      → new_status p instance (p.now s.world) q ≡ record {
        routing = instance.spec.container.routing;
        status = verdict q;
        last_update = p.now s.world;
        reason = reason p q;
      }
  unfolding new_status
  next_reported (ok done) = refl
  next_reported (err e) = refl

  differs_iff :
      (a b : MicroserviceStatus)
      → (status_differs p a b ≡ false) ↔ ((a.routing ≡ b.routing) × (a.status ≡ b.status))
  unfolding status_differs
  differs_iff a b =
      ground (arith, routing_eq.beq_iff a.routing b.routing, status_eq.beq_iff a.status b.status)

  known_iff : (status_differs p instance.status (next_status instance r s) ≡ false) ↔ IsKnown
  known_iff =
      let (sound, complete) = differs_iff instance.status (next_status instance r s) in
      let next = next_reported r in
      (
        λ h. ((sound h).0 ∙ ap (λ x. x.routing) next, (sound h).1 ∙ ap (λ x. x.status) next),
        λ known.
            complete
              (known.0 ∙ sym (ap (λ x. x.routing) next), known.1 ∙ sym (ap (λ x. x.status) next)),
      )

  -- `udpateStatus` always returns and leaves the load balancer alone. It sends nothing if the
  -- stored status has the routing of the specification and already says success for a success and
  -- failure for an error, and otherwise exactly one update, with this routing, success or failure,
  -- the present time, and the text of the error or none.
  pub update_status_reports :
      ((m : Microservice) × ((update_status p instance r s).0 ≡ returns m))
      × ((IsKnown × ((update_status p instance r s).1.sent ≡ s.sent))
          ⊎ ((¬ IsKnown)
              × ((update_status p instance r s).1.sent ≡ status_request reported ∷ s.sent)))
      × ((update_status p instance r s).1.lb ≡ s.lb)
  update_status_reports =
      let (done, sent, same) = update_status_lem instance r s in
      (
        (_, done),
        elim (Bool-cases (status_differs p instance.status (next_status instance r s))) [
          | inl new ↦ inr (
            λ known. cc (new, known_iff.1 known),
            rw new at sent
                ∙ ap (λ x. status_request (record instance { status = x }) ∷ s.sent)
                    (next_reported r),
          )
          | inr old ↦ inl (known_iff.0 old, rw old at sent)
        ],
        same,
      )
