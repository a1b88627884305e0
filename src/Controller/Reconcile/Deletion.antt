-- ===== src/Controller/Reconcile/Deletion.antt =====
-- A microservice under deletion: its routes and its finalizer.
use kom_operator.Prelude.{
  String, refl, ◌≡◌, ◌≢◌, ap, sym, subst, ◌∙◌, true, false, [], ◌∷◌, items, some, arith, ◌⊎◌, inl,
  inr,
}
use kom_operator.Errors.{Result, ok, err}
use kom_operator.Api.{Microservice}
use kom_operator.Platform.{Platform}
use kom_operator.Exec.{
  Exec, send, returns, Sys, get_microservice, update_microservice, fails, panics, Outcome, continue,
  pure, try, lift, ◌>>=◌,
}
use kom_operator.Exec.Inversion.{Returns, >>=-Returns, send-Returns, pure-Returns}
use kom_operator.Util.{contains_string, remove_string}
use kom_operator.Util.Slices.{contains_string-remove_string}
use kom_operator.Routes.{remove_routes}
use kom_operator.LoadBalancer.Controller.{remove_router}
use kom_operator.LoadBalancer.Controller.Branches.{Ended}
use kom_operator.LoadBalancer.Controller.Branches.Endings.{remove_router-Ended}
use kom_operator.LoadBalancer.Controller.Stored.{Changed, remove_router-Changed}
use kom_operator.Controller.Objects.Shape.{service_name, no_service}
use kom_operator.Controller.Reconcile.{
  finalizer_name, with_finalizers, finalize, finalize_service, update_instance, delete_instance,
  reconcile_by, reconcile_instance, reconcile_found, reconcile,
}

-- The instance as it is sent when its finalizer is removed.
abbrev pub released : Microservice → Microservice
released instance = with_finalizers instance (remove_string instance.meta.finalizers finalizer_name)

-- The outcome of the finalizer's update, from the server's answer.
abbrev pub outcome_of : Result Microservice → Outcome (Unit {0})
outcome_of (ok m) = returns tt
outcome_of (err e) = fails e

module _ {p : Platform} (instance : Microservice)
    (registered : contains_string instance.meta.finalizers finalizer_name ≡ true) where
  pub delete_instance_lem :
      (s : Sys p)
      → delete_instance p instance s
        ≡ (finalize p instance >>= λ _. update_instance p (released instance) >>= λ _. pure tt) s
  unfolding delete_instance
  delete_instance_lem s = rw registered

  pub finalize-remove_router :
      (s u : Sys p)
      → items instance.spec.container.routing.http ≢ []
      → Returns (finalize p instance) s tt u
      → Returns (remove_router p instance.meta.namespace instance.meta.name true) s tt u
  unfolding finalize finalize_service
  finalize-remove_router s u routed h =
      let (svc, e, name, namespace) = service_name instance routed in
      let h' : Returns (remove_router p svc.meta.namespace svc.meta.name true) s tt u =
        subst (λ o. Returns (finalize_service p o) s tt u) e h in
      subst (λ n. Returns (remove_router p instance.meta.namespace n true) s tt u) name
        (subst (λ n. Returns (remove_router p n svc.meta.name true) s tt u) namespace h')

  finalize_inv :
      (s t : Sys p)
      → Returns (delete_instance p instance) s tt t
      → (u : Sys p) × Returns (finalize p instance) s tt u
        × (t.sent ≡ update_microservice (released instance) ∷ u.sent)
  unfolding update_instance
  finalize_inv s t h =
      let (done, u, h₁, k₁) = >>=-Returns _ _ s tt t (sym (delete_instance_lem s) ∙ h) in
      let (stored, w, h₂, k₂) = >>=-Returns _ _ u tt t k₁ in
      let (reply, sent, lb, world) = send-Returns _ _ u stored w h₂ in
      (u, h₁, ap (λ x. x.sent) (pure-Returns tt w tt t k₂).1 ∙ sent)

  -- When the deletion of a microservice that has routes and the finalizer returns, it has first
  -- run a complete `RemoveRouter` for its own namespace and name, so that the stored configuration
  -- is the one that the server answered, or that the process held if the server has none, with
  -- these routes removed; and its last request is the update that takes the finalizer away, in
  -- whose list the finalizer no longer stands.
  pub delete_instance_clears :
      (s t : Sys p)
      → items instance.spec.container.routing.http ≢ []
      → Returns (delete_instance p instance) s tt t
      → (u : Sys p) × Changed (remove_routes instance.meta.namespace instance.meta.name) s u
        × (t.sent ≡ update_microservice (released instance) ∷ u.sent)
        × (contains_string (released instance).meta.finalizers finalizer_name ≡ false)
  delete_instance_clears s t routed h =
      let (u, h₁, sent) = finalize_inv s t h in
      (
        u,
        remove_router-Changed instance.meta.namespace instance.meta.name true s u
            (finalize-remove_router s u routed h₁),
        sent,
        contains_string-remove_string instance.meta.finalizers finalizer_name finalizer_name,
      )

  finalize-routed :
      items instance.spec.container.routing.http ≢ []
      → finalize p instance ≡ remove_router p instance.meta.namespace instance.meta.name true
  unfolding finalize finalize_service
  finalize-routed routed =
      let (svc, e, name, namespace) = service_name instance routed in
      ap (finalize_service p) e
      ∙ (ap (λ n. remove_router p n svc.meta.name true) namespace
          ∙ ap (λ n. remove_router p instance.meta.namespace n true) name)

module _ {p : Platform} (instance : Microservice) where
  -- The system after the microservice was read.
  abbrev pub found : String → String → Sys p → Sys p
  found namespace name s = record s {
    world = (p.microservices.get namespace name s.world).1;
    sent = get_microservice namespace name ∷ s.sent;
  }

  reconcile_deleted :
      (namespace name time : String) (s : Sys p)
      → (p.microservices.get namespace name s.world).0 ≡ ok instance
      → p.validate instance ≡ ok tt
      → instance.meta.deletion_timestamp ≡ some time
      → reconcile p namespace name s ≡ delete_instance p instance (found namespace name s)
  unfolding reconcile reconcile_found reconcile_instance reconcile_by ◌>>=◌ try send lift
  reconcile_deleted namespace name time s present valid deleted =
      rw (present, valid)
        (ap (λ since. reconcile_by p since instance (found namespace name s)) deleted)

  abbrev release : Exec p (Unit {0})
  release = update_instance p (released instance) >>= λ _. pure tt

  -- Once the routes are gone the finalizer is taken away, and otherwise nothing more is done.
  abbrev pub Releases : Outcome (Unit {0}) × Sys p → Outcome (Unit {0}) × Sys p → Type 0
  Releases removal end =
      ((removal.0 ≡ returns tt)
        × (end.0 ≡ outcome_of (p.microservices.update (released instance) removal.1.world).0)
        × (end.1.sent ≡ update_microservice (released instance) ∷ removal.1.sent))
      ⊎ ((removal.0 ≢ returns tt) × (end ≡ removal))

  release_sent :
      (s : Sys p)
      → ((release s).0 ≡ outcome_of (p.microservices.update (released instance) s.world).0)
        × ((release s).1.sent ≡ update_microservice (released instance) ∷ s.sent)
  unfolding update_instance ◌>>=◌ send pure
  release_sent s = ground arith

  continue-Releases : (r : Outcome (Unit {0}) × Sys p) → Releases r (continue r (λ _. release))
  continue-Releases (returns tt, s) =
      let (outcome, sent) = release_sent s in inl (refl, outcome, sent)
  continue-Releases (fails e, s) = inr (λ h. cc (h), refl)
  continue-Releases (panics reason, s) = inr (λ h. cc (h), refl)

  module _ (registered : contains_string instance.meta.finalizers finalizer_name ≡ true)
      (routed : items instance.spec.container.routing.http ≢ []) where
    delete_instance-Releases :
        (s : Sys p)
        → Releases
            (remove_router p instance.meta.namespace instance.meta.name true s)
            (delete_instance p instance s)
    unfolding ◌>>=◌
    delete_instance-Releases s =
        subst (Releases (remove_router p instance.meta.namespace instance.meta.name true s))
          (sym (
            delete_instance_lem instance registered s
            ∙ ap (λ m. continue (m s) (λ _. release)) (finalize-routed instance registered routed)))
          (continue-Releases (remove_router p instance.meta.namespace instance.meta.name true s))

    -- For a valid microservice under deletion that has the finalizer and routes, whatever the
    -- server answers otherwise: the reconciliation removes the routes of its own namespace and
    -- name, which takes one of the courses of `Ends`. When that succeeds it sends one more
    -- request, the update that takes the finalizer away, and ends with a success or the error of
    -- that update. When it fails or panics the reconciliation ends in the same way and state, so
    -- that the finalizer stays.
    pub finalizer_after_routes :
        (namespace name time : String) (s : Sys p)
        → (p.microservices.get namespace name s.world).0 ≡ ok instance
        → p.validate instance ≡ ok tt
        → instance.meta.deletion_timestamp ≡ some time
        → Ended
            (remove_routes instance.meta.namespace instance.meta.name)
            true
            (found namespace name s)
            (remove_router p instance.meta.namespace instance.meta.name true
              (found namespace name s))
          × Releases
              (remove_router p instance.meta.namespace instance.meta.name true
                (found namespace name s))
              (reconcile p namespace name s)
    finalizer_after_routes namespace name time s present valid deleted =
        let t = found namespace name s in
        let removal = remove_router p instance.meta.namespace instance.meta.name true t in
        (
          remove_router-Ended instance.meta.namespace instance.meta.name t true,
          subst (Releases removal)
              (sym (reconcile_deleted namespace name time s present valid deleted))
              (delete_instance-Releases t),
        )

module _ {p : Platform} (instance : Microservice)
    (registered : contains_string instance.meta.finalizers finalizer_name ≡ true)
    (routeless : items instance.spec.container.routing.http ≡ []) where
  finalize_routeless : (s : Sys p) → finalize p instance s ≡ (returns tt, s)
  unfolding finalize finalize_service pure
  finalize_routeless s = ap (λ o. finalize_service p o s) (no_service instance routeless).0

  release_sends :
      (s : Sys p)
      → ((delete_instance p instance s).1.sent ≡ update_microservice (released instance) ∷ s.sent)
        × ((delete_instance p instance s).1.lb ≡ s.lb)
  unfolding ◌>>=◌ update_instance send pure
  release_sends s =
      rw (delete_instance_lem instance registered s, finalize_routeless s) (ground arith)

  -- When a valid microservice with the finalizer is under deletion and its specification has no
  -- routes, as once the last one was removed, the reconciliation sends only the request for the
  -- microservice and the update that takes the finalizer away, and leaves the load balancer alone,
  -- so that routes which the microservice had before are not removed from the configuration.
  pub routeless_deletion :
      (namespace name time : String) (s : Sys p)
      → (p.microservices.get namespace name s.world).0 ≡ ok instance
      → p.validate instance ≡ ok tt
      → instance.meta.deletion_timestamp ≡ some time
      → ((reconcile p namespace name s).1.sent
          ≡ update_microservice (released instance) ∷ get_microservice namespace name ∷ s.sent)
        × ((reconcile p namespace name s).1.lb ≡ s.lb)
  routeless_deletion namespace name time s present valid deleted =
      let e = reconcile_deleted instance namespace name time s present valid deleted in
      let (sends, same) = release_sends (found instance namespace name s) in
      (ap (λ r. r.1.sent) e ∙ sends, ap (λ r. r.1.lb) e ∙ same)
