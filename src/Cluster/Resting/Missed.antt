-- ===== src/Cluster/Resting/Missed.antt =====
-- What a reconciliation never mends, and what it mends again and again.
use kom_operator.Prelude.{String, true, false, ◌≡◌, ◌≢◌, ap, subst, sym, ◌∙◌, some, ℤ, pos, int_lt}
use kom_operator.Errors.{Error, err}
use kom_operator.Kube.{Deployment}
use kom_operator.Api.{Microservice}
use kom_operator.Platform.{Platform}
use kom_operator.Exec.{Sys}
use kom_operator.Util.{equals}
use kom_operator.Util.Equality.{equals_refl}
use kom_operator.Controller.Objects.{initial_replicas}
use kom_operator.Controller.Objects.Shape.{initial_replicas_positive}
use kom_operator.Controller.Status.{new_status}
use kom_operator.Controller.Changes.Decision.{IsCurrent}
use kom_operator.Controller.Reconcile.{reconcile}
use kom_operator.Controller.Reconcile.Settled.{IsPresent, quiet}
use kom_operator.Cluster.Names.{NamesKept}
use kom_operator.Cluster.Resting.{resting_iff}

module _ {p : Platform} (names : NamesKept p) (namespace name : String) (m : Microservice)
    (d : Deployment) (replicas : ℤ) (s : Sys p) (there : IsPresent p namespace name m d replicas s)
    (count : d.replicas ≡ some replicas)
    (compares : p.lookup_env "SMART_RELOAD" ≢ some "false") where
  -- After a failure, of whatever kind, a service or routes that could not be made stay away: when
  -- the status of a microservice is the one that `udpateStatus` makes for an error and a
  -- specification with the same routing, and its deployment is as the specification asks, the
  -- reconciliation sends only the requests for the microservice, the deployment and the
  -- autoscaler, and at most the autoscaler's change. The microservice is valid, registered and not
  -- under deletion, its deployment has a replica count, the server answers objects under the names
  -- that were asked for or sent, the owner can be set and keeps an object's names, and smart
  -- reload is not switched off.
  pub failed_routes_stay_away :
      (before : Microservice) (now : String) (e : Error)
      → m.status ≡ new_status p before now (err e)
      → before.spec.container.routing ≡ m.spec.container.routing
      → IsCurrent m d replicas
      → (reconcile p namespace name s).1.sent ≡ quiet p namespace name m d replicas s
  unfolding new_status
  failed_routes_stay_away before now e stored same current =
      (resting_iff names namespace name m d replicas s there count compares).1 (
        current,
        subst (λ routing. equals routing m.spec.container.routing ≡ true)
            (sym (ap (λ x. x.routing) stored ∙ same)) (equals_refl m.spec.container.routing),
      )

  -- When the minimum of the specification is not positive and the deployment has the replica count
  -- that `getInstanceObjects` gives it, each reconciliation sends something besides the requests
  -- for the microservice, the deployment and the autoscaler and the autoscaler's change. The
  -- microservice is valid, registered and not under deletion, the server answers objects under the
  -- names that were asked for or sent, the owner can be set and keeps an object's names, and smart
  -- reload is not switched off.
  pub unset_min_never_rests :
      replicas ≡ initial_replicas m
      → int_lt (pos 0) m.spec.autoscaling.min ≡ false
      → (reconcile p namespace name s).1.sent ≢ quiet p namespace name m d replicas s
  unset_min_never_rests built unset at_rest =
      let (current, routed) =
        (resting_iff names namespace name m d replicas s there count compares).0 at_rest in
      cc (
        unset,
        initial_replicas_positive m,
        ap (int_lt (pos 0)) (sym built ∙ current.replicas_wanted),
      )
