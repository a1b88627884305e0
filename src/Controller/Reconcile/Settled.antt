-- ===== src/Controller/Reconcile/Settled.antt =====
-- A microservice whose deployment and routes are as it asks.
use text.Mathlib.Text.{◌==◌ as str_eq}
use kom_operator.Prelude.{
  Bool-cases, inl, inr, eq_iff, String, ◌≡◌, ◌≢◌, refl, ap, ◌∙◌, Bool, List, true, false, Option,
  none, some, ◌∷◌, ◌++◌, ℤ,
}
use kom_operator.Errors.{ok}
use kom_operator.Kube.{Deployment, KubeService, ObjectMeta}
use kom_operator.Api.{Microservice}
use kom_operator.Platform.{Platform}
use kom_operator.Exec.{
  Request, Sys, get_microservice, get_deployment, get_scaler, returns, pure, send, try, lift, ◌>>=◌,
}
use kom_operator.Exec.Inversion.{continue-returns}
use kom_operator.AutoScaling
use kom_operator.AutoScaling.Safety.{wanted_change, found, run_lem}
use kom_operator.Util.{contains_string, equals}
use kom_operator.Controller.Objects.{InstanceObjects, get_instance_objects, initial_replicas}
use kom_operator.Controller.Objects.Shape.{deployment_name, deployment_replicas}
use kom_operator.Controller.Changes.{has_changes}
use kom_operator.Controller.Changes.Decision.{IsCurrent, unchanged}
use kom_operator.Controller.Reconcile.{
  finalizer_name, smart_reload_off, find_changes, changes_or_panic, apply_changes, update_resources,
  resources_for, own_service, own_objects, apply_instance, register_finalizer, reconcile_by,
  reconcile_instance, reconcile_found, reconcile,
}

-- The owner can be set, and leaves the names.
abbrev pub Owns : Platform → Microservice → Type 0
Owns p m =
    (meta : ObjectMeta)
    → (owned : ObjectMeta) × (p.set_controller_reference m meta ≡ ok owned)
      × (owned.namespace ≡ meta.namespace)
      × (owned.name ≡ meta.name)

reload_on :
    (p : Platform) (setting : Option String)
    → setting ≢ some "false"
    → smart_reload_off p setting ≡ false
unfolding smart_reload_off
reload_on p none h = refl
reload_on p (some setting) h = elim (Bool-cases (str_eq setting "false")) [
  | inl off ↦ absurd (h (ap (λ x. some x) ((eq_iff setting "false").0 off)))
  | inr on ↦ on
]

module _ {p : Platform} (m : Microservice) (owns : Owns p m) where
  own_service_lem :
      (service : Option KubeService) (t : Sys p)
      → (owned : Option KubeService) × (own_service p m service t ≡ (returns owned, t))
        × (service ≡ none → owned ≡ none)
  unfolding own_service ◌>>=◌ pure lift
  own_service_lem none t = (none, refl, λ h. refl)
  own_service_lem (some service) t =
      let (meta, e, namespace, name) = owns service.meta in
      (some (record service { meta = meta }), rw e refl, λ h. absurd (cc h))

  own_objects_lem :
      (o : InstanceObjects) (t : Sys p)
      → (owned : InstanceObjects) × (own_objects p m o t ≡ (returns owned, t))
        × (owned.deployment.meta.namespace ≡ o.deployment.meta.namespace)
        × (owned.deployment.meta.name ≡ o.deployment.meta.name)
        × (owned.deployment.replicas ≡ o.deployment.replicas)
        × (o.service ≡ none → owned.service ≡ none)
  unfolding own_objects ◌>>=◌ pure lift
  own_objects_lem o t =
      let (meta, e, namespace, name) = owns o.deployment.meta in
      let (service, h, empty) = own_service_lem o.service t in
      (
        record o { deployment = record o.deployment { meta = meta }; service = service },
        rw (e, h) refl,
        namespace,
        name,
        refl,
        empty,
      )

module _ (p : Platform) (namespace name : String) (m : Microservice) (d : Deployment) (replicas : ℤ)
    (s : Sys p) where
  -- The system after the microservice was read, and after its deployment was.
  abbrev pub read : Sys p
  read = record s {
    world = (p.microservices.get namespace name s.world).1;
    sent = get_microservice namespace name ∷ s.sent;
  }

  abbrev pub read_both : Sys p
  read_both = record read {
    world = (p.deployments.get m.meta.namespace m.meta.name read.world).1;
    sent = get_deployment m.meta.namespace m.meta.name ∷ read.sent;
  }

  -- The server has the microservice, valid, registered and not under deletion, and the deployment.
  pub record IsPresent : Type 0 where
    pub present : (p.microservices.get namespace name s.world).0 ≡ ok m
    pub valid : p.validate m ≡ ok tt
    pub alive : m.meta.deletion_timestamp ≡ none
    pub registered : contains_string m.meta.finalizers finalizer_name ≡ true
    pub owns : Owns p m
    pub deployed : (p.deployments.get m.meta.namespace m.meta.name read.world).0 ≡ ok d

  -- The deployment is as the microservice asks, and the routing in the status is that of the
  -- specification.
  pub record IsSettled : Type 0 where
    pub there : IsPresent
    pub has_replicas : d.replicas ≡ some replicas
    pub current : IsCurrent m d replicas
    pub routed : equals m.status.routing m.spec.container.routing ≡ true
    pub compares : p.lookup_env "SMART_RELOAD" ≢ some "false"

  -- The objects have the names of the microservice, and none of them is a service if none is wanted.
  abbrev pub Named : InstanceObjects → Type 0
  Named owned =
      (owned.deployment.meta.namespace ≡ m.meta.namespace)
      × (owned.deployment.meta.name ≡ m.meta.name)
      × ((get_instance_objects m).service ≡ none → owned.service ≡ none)

  apply_present :
      IsPresent
      → (owned : InstanceObjects) × (own_objects p m (get_instance_objects m) read
          ≡ (returns owned, read))
        × (apply_instance p m read ≡ update_resources p m owned d read_both)
        × (owned.deployment.replicas ≡ some (initial_replicas m))
        × Named owned
  unfolding apply_instance resources_for ◌>>=◌ try send get_instance_objects
  apply_present h =
      let (owned, e, namespace', name', count, empty) =
        own_objects_lem m h.owns (get_instance_objects m) read in
      let (own_name, own_namespace) = deployment_name m in
      (
        owned,
        e,
        rw (e, namespace', name', own_name, own_namespace, h.deployed) refl,
        count ∙ deployment_replicas m,
        (namespace' ∙ own_namespace, name' ∙ own_name, empty),
      )

  reconcile_by_present :
      IsPresent → reconcile_by p m.meta.deletion_timestamp m read ≡ apply_instance p m read
  unfolding reconcile_by register_finalizer ◌>>=◌ pure
  reconcile_by_present h = ap (λ time. reconcile_by p time m read) h.alive ∙ rw h.registered refl

  -- The reconciliation goes on to look for changes.
  pub reconcile_present :
      IsPresent
      → (owned : InstanceObjects) × (own_objects p m (get_instance_objects m) read
          ≡ (returns owned, read))
        × (reconcile p namespace name s ≡ update_resources p m owned d read_both)
        × (owned.deployment.replicas ≡ some (initial_replicas m))
        × Named owned
  unfolding reconcile reconcile_found reconcile_instance ◌>>=◌ try send lift
  reconcile_present h =
      let (owned, e, same, count, named) = apply_present h in
      (owned, e, rw (h.present, h.valid) (reconcile_by_present h ∙ same), count, named)

  pub find_changes_lem :
      p.lookup_env "SMART_RELOAD" ≢ some "false"
      → (t : Sys p) (changes : Bool × Bool) → has_changes m d ≡ some changes
      → find_changes p m d t ≡ (returns changes, t)
  unfolding find_changes changes_or_panic pure
  find_changes_lem compares t changes e =
      rw (reload_on p (p.lookup_env "SMART_RELOAD") compares, e) refl

  pub update_resources_lem :
      p.lookup_env "SMART_RELOAD" ≢ some "false"
      → (o : InstanceObjects) (t : Sys p) (changes : Bool × Bool) → has_changes m d ≡ some changes
      → update_resources p m o d t ≡ apply_changes p m o changes (AutoScaling.run p m d t).1
  unfolding update_resources ◌>>=◌
  update_resources_lem compares o t changes e =
      continue-returns (AutoScaling.run p m d t) _ tt (run_lem p m d t).0
      ∙ rw (find_changes_lem compares (AutoScaling.run p m d t).1 changes e) refl

  reconcile_settled :
      IsSettled → reconcile p namespace name s ≡ (returns tt, (AutoScaling.run p m d read_both).1)
  unfolding apply_changes pure
  reconcile_settled h =
      let (owned, e, same, count, named) = reconcile_present h.there in
      same
      ∙ update_resources_lem h.compares owned read_both (false, false)
          (unchanged m d replicas h.has_replicas h.current h.routed)

  -- The requests for the microservice, the deployment and the autoscaler, and the autoscaler's change.
  abbrev pub quiet : List Request
  quiet =
      wanted_change p m d read_both (found p m d read_both)
      ++ get_scaler d.meta.namespace d.meta.name
        ∷ get_deployment m.meta.namespace m.meta.name
        ∷ get_microservice namespace name
        ∷ s.sent

  -- Reconciliation comes to rest: when the server has the microservice, valid, registered and not
  -- under deletion, and its deployment with the replica count, account, image, arguments, command
  -- and resources of the specification, and the routing in the status is that of the
  -- specification, the reconciliation returns without an error, leaves the load balancer alone,
  -- and sends only the requests for the microservice, the deployment and the autoscaler, and at
  -- most the one change that the autoscaler needs. The owner can be set, and smart reload is not
  -- switched off.
  pub settled_reconcile :
      IsSettled
      → ((reconcile p namespace name s).0 ≡ returns tt)
        × ((reconcile p namespace name s).1.sent
            ≡ wanted_change p m d read_both (found p m d read_both)
              ++ get_scaler d.meta.namespace d.meta.name
                ∷ get_deployment m.meta.namespace m.meta.name
                ∷ get_microservice namespace name
                ∷ s.sent)
        × ((reconcile p namespace name s).1.lb ≡ s.lb)
  settled_reconcile h =
      let e = reconcile_settled h in
      let (done, sent, same) = run_lem p m d read_both in
      (ap (λ r. r.0) e, ap (λ r. r.1.sent) e ∙ sent, ap (λ r. r.1.lb) e ∙ same)
