-- ===== src/Controller/Reconcile/Replacing.antt =====
-- A microservice whose routes have changed while its deployment is as it asks.
use kom_operator.Prelude.{String, ◌≡◌, ◌≢◌, ap, ◌∙◌, true, false, some, [], ◌∷◌, ℤ, items, inl, inr}
use kom_operator.Errors.{Error, ok, err}
use kom_operator.Kube.{Deployment, KubeService}
use kom_operator.Api.{Microservice}
use kom_operator.Platform.{Platform}
use kom_operator.Util.{equals}
use kom_operator.Util.Equality.{equals_refl}
use kom_operator.Exec.{
  Sys, returns, panics, get_service, delete_service, update_status as status_request,
}
use kom_operator.AutoScaling
use kom_operator.AutoScaling.Safety.{run_lem}
use kom_operator.Controller.Objects.{InstanceObjects}
use kom_operator.Controller.Objects.Shape.{no_service}
use kom_operator.Controller.Changes.Decision.{IsCurrent, routing_changed}
use kom_operator.Controller.Status.{update_status}
use kom_operator.Controller.Status.Reported.{update_status_reports, reported}
use kom_operator.Controller.Reconcile.{nil_pointer, apply_changes, reconcile}
use kom_operator.Controller.Reconcile.Settled.{
  IsPresent, Named, read_both, quiet, reconcile_present, update_resources_lem,
}
use kom_operator.Controller.Reconcile.Updating.{
  service_error_is_lost, no_service_panics, replace_unread,
}

module _ {p : Platform} (namespace name : String) (m : Microservice) (d : Deployment) (replicas : ℤ)
    (s : Sys p) (there : IsPresent p namespace name m d replicas s)
    (count : d.replicas ≡ some replicas) (compares : p.lookup_env "SMART_RELOAD" ≢ some "false")
    (current : IsCurrent m d replicas)
    (routed : equals m.status.routing m.spec.container.routing ≡ false) where
  -- The system once the autoscaler is seen to.
  abbrev pub scaled : Sys p
  scaled = (AutoScaling.run p m d (read_both p namespace name m d replicas s)).1

  scaled_sent : scaled.sent ≡ quiet p namespace name m d replicas s
  scaled_sent = (run_lem p m d (read_both p namespace name m d replicas s)).1

  -- Only the service is to be replaced.
  replaces :
      (o : InstanceObjects) × (reconcile p namespace name s
        ≡ apply_changes p m o (false, true) scaled)
      × Named p namespace name m d replicas s o
  replaces =
      let (o, e, same, asks, named) = reconcile_present p namespace name m d replicas s there in
      (
        o,
        same
            ∙ update_resources_lem p namespace name m d replicas s compares o
                (read_both p namespace name m d replicas s) (false, true)
                (routing_changed m d replicas count current routed),
        named,
      )

  -- When the routing has changed to one without routes, and the service is found and can be
  -- deleted, the reconciliation panics, having asked for the microservice, the deployment, the
  -- autoscaler, whose change may follow, and the service, and deleted the service, so that no
  -- route is removed from the configuration. The microservice is valid, registered and not under
  -- deletion, its deployment has a replica count and is as the specification asks, and `Equals`
  -- does not hold of the routing in its status and that of its specification. The owner can be set
  -- and keeps an object's names, and smart reload is not switched off.
  pub last_route_panics :
      (svc : KubeService)
      → items m.spec.container.routing.http ≡ []
      → (p.services.get m.meta.namespace m.meta.name scaled.world).0 ≡ ok svc
      → (p.services.delete svc (p.services.get m.meta.namespace m.meta.name scaled.world).1).0
        ≡ ok tt
      → ((reconcile p namespace name s).0 ≡ panics nil_pointer)
        × ((reconcile p namespace name s).1.sent
            ≡ delete_service svc
              ∷ get_service m.meta.namespace m.meta.name
              ∷ quiet p namespace name m d replicas s)
  last_route_panics svc routeless found deleted =
      let (o, step, (own_namespace, own_name, empty)) = replaces in
      let (outcome, sent) =
        no_service_panics m o scaled svc m.meta.namespace m.meta.name own_namespace own_name
          (empty (no_service m routeless).0) found deleted in
      (
        ap (λ r. r.0) step ∙ outcome,
        ap (λ r. r.1.sent) step
            ∙ (sent
                ∙ ap (λ rs. delete_service svc ∷ get_service m.meta.namespace m.meta.name ∷ rs)
                    scaled_sent),
      )

  -- The system after the refused request for the service.
  abbrev pub unread : Sys p
  unread = record scaled {
    world = (p.services.get m.meta.namespace m.meta.name scaled.world).1;
    sent = get_service m.meta.namespace m.meta.name ∷ scaled.sent;
  }

  reports_success :
      (update_status p m (ok tt) unread).1.sent
      ≡ status_request (reported m (ok tt) unread) ∷ unread.sent
  reports_success =
      let (done, sent, same) = update_status_reports m (ok tt) unread in
      elim sent [
        | inl (known, none) ↦ absurd (
            cc (
              routed,
              ap (λ routing. equals routing m.spec.container.routing) known.0,
              equals_refl m.spec.container.routing,
            ))
        | inr (new, e) ↦ e
      ]

  -- When the routing has changed and the request for the service fails, with any error, the
  -- reconciliation returns without an error, and its last request stores a status that reports a
  -- success for the new routing; before that it only asked for the microservice, the deployment,
  -- the autoscaler, whose change may follow, and the service. The microservice is valid,
  -- registered and not under deletion, its deployment has a replica count and is as the
  -- specification asks, and `Equals` does not hold of the routing in its status and that of its
  -- specification. The owner can be set and keeps an object's names, and smart reload is not
  -- switched off.
  pub service_error_is_success :
      (e : Error)
      → (p.services.get m.meta.namespace m.meta.name scaled.world).0 ≡ err e
      → ((reconcile p namespace name s).0 ≡ returns tt)
        × ((reconcile p namespace name s).1.sent
            ≡ status_request (reported m (ok tt) unread)
              ∷ get_service m.meta.namespace m.meta.name
              ∷ quiet p namespace name m d replicas s)
  service_error_is_success e refused =
      let (o, step, (own_namespace, own_name, empty)) = replaces in
      let (outcome, end) =
        service_error_is_lost m o scaled unread e
          (replace_unread o scaled e m.meta.namespace m.meta.name own_namespace own_name refused) in
      (
        ap (λ r. r.0) step ∙ outcome,
        ap (λ r. r.1.sent) step
            ∙ (ap (λ t. t.sent) end
                ∙ (reports_success
                    ∙ ap
                        (λ rs.
                          status_request (reported m (ok tt) unread)
                          ∷ get_service m.meta.namespace m.meta.name
                          ∷ rs)
                        scaled_sent)),
      )
