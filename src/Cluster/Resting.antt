-- ===== src/Cluster/Resting.antt =====
-- When a reconciliation has nothing to do.
pub mod Missed
use kom_operator.Prelude.{
  String, Bool, true, false, ◌≡◌, ◌≢◌, ◌↔◌, refl, ap, sym, ◌∙◌, some, List, [], ◌∷◌, ◌++◌, ℤ, pos,
  length, length-append, arith, Bool-cases, inl, inr,
}
use kom_operator.Kube.{Deployment}
use kom_operator.Api.{Microservice}
use kom_operator.Platform.{Platform}
use kom_operator.Util.{equals}
use kom_operator.Exec.{Sys, Request, update_deployment, get_service, returns, send}
use kom_operator.AutoScaling
use kom_operator.AutoScaling.Safety.{run_lem}
use kom_operator.Controller.Objects.{InstanceObjects, get_instance_objects, initial_replicas}
use kom_operator.Controller.Objects.Shape.{initial_replicas_scaled}
use kom_operator.AutoScaling.{autoscaling_enabled}
use kom_operator.Controller.Changes.{deployment_changed, service_changed}
use kom_operator.Controller.Changes.Decision.{
  IsCurrent, deployment_changed_iff, has_changes-some, service_unchanged,
}
use kom_operator.Controller.Reconcile.{own_objects, apply_changes, reconcile}
use kom_operator.Controller.Reconcile.Kept.Interface.{OwnInstance, OwnObjects}
use kom_operator.Controller.Reconcile.Kept.{Keeps-own_objects, instance_objects_Own}
use kom_operator.Controller.Reconcile.Kept.First.{deployment_reaches, service_reaches}
use kom_operator.Controller.Reconcile.Settled.{
  IsPresent, read, read_both, quiet, reconcile_present, update_resources_lem, settled_reconcile,
}
use kom_operator.Cluster.Names.{NamesKept}
use kom_operator.Cluster.Isolation.{Isolated, Own}
use kom_operator.Cluster.Isolation.Reconciled.{Isolated-rules}

-- At least one request was sent since `t`.
Sends-some :
    {p : Platform} {namespace name : String} (r : Request) (t v u : Sys p)
    → v.sent ≡ r ∷ t.sent
    → Isolated namespace name v u
    → u.sent ≢ t.sent
Sends-some r t v u e i same =
    omega (arith, ap length i.sent, ap length e, ap length same, length-append i.extra v.sent)

module _ {p : Platform} (names : NamesKept p) (namespace name : String) where
  start-Isolated : (s : Sys p) → Isolated namespace name s s
  start-Isolated s = record { extra = []; sent = refl; within = tt; same_lb = refl }

  -- A change of the deployment or of the service sends a request.
  changes_sent :
      (m : Microservice) (o : InstanceObjects) (t : Sys p) (d s : Bool)
      → OwnInstance (Own namespace name) m
      → OwnObjects (Own namespace name) o
      → (apply_changes p m o (d, s) t).1.sent ≡ t.sent
      → (d ≡ false) × (s ≡ false)
  unfolding send
  changes_sent m o t true s own own_o same =
      let first = (send (update_deployment o.deployment) (p.deployments.update o.deployment) t).1 in
      absurd (
        Sends-some (update_deployment o.deployment) t first _ refl
          (deployment_reaches (Isolated-rules names namespace name first) m own o own_o t
            (Isolated-rules names namespace name t) (start-Isolated t) s (start-Isolated first))
          same)
  changes_sent m o t false true own own_o same =
      let ns = o.deployment.meta.namespace in
      let n = o.deployment.meta.name in
      let first = (send (get_service ns n) (p.services.get ns n) t).1 in
      absurd (
        Sends-some (get_service ns n) t first _ refl
          (service_reaches (Isolated-rules names namespace name first) m own o own_o t
            (Isolated-rules names namespace name t) (start-Isolated t) (start-Isolated first))
          same)
  changes_sent m o t false false own own_o same = (refl, refl)

  module _ (m : Microservice) (d : Deployment) (replicas : ℤ) (s : Sys p)
      (there : IsPresent p namespace name m d replicas s) where
    owned_names :
        (o : InstanceObjects)
        → own_objects p m (get_instance_objects m) (read p namespace name m d replicas s)
          ≡ (returns o, read p namespace name m d replicas s)
        → OwnInstance (Own namespace name) m × OwnObjects (Own namespace name) o
    owned_names o e =
        let own = names.microservices.get namespace name s.world m there.present in
        let rules = Isolated-rules names namespace name (read p namespace name m d replicas s) in
        (
          own,
          (Keeps-own_objects rules m (get_instance_objects m)
                (instance_objects_Own rules m own)).value
              _ (start-Isolated _) o (ap (λ r. r.0) e),
        )

    -- The system once the autoscaler is seen to.
    abbrev scaled : Sys p
    scaled = (AutoScaling.run p m d (read_both p namespace name m d replicas s)).1

    scaled_sent : scaled.sent ≡ quiet p namespace name m d replicas s
    scaled_sent = (run_lem p m d (read_both p namespace name m d replicas s)).1

    module _ (count : d.replicas ≡ some replicas)
        (compares : p.lookup_env "SMART_RELOAD" ≢ some "false") where
      reconcile_applies :
          (o : InstanceObjects) × (reconcile p namespace name s
            ≡ apply_changes p m o (deployment_changed m d replicas, service_changed m) scaled)
          × OwnInstance (Own namespace name) m
          × OwnObjects (Own namespace name) o
          × (o.deployment.replicas ≡ some (initial_replicas m))
      reconcile_applies =
          let (o, e, same, asks, named) = reconcile_present p namespace name m d replicas s there in
          let (own, own_o) = owned_names o e in
          (
            o,
            same
                ∙ update_resources_lem p namespace name m d replicas s compares o
                    (read_both p namespace name m d replicas s)
                    (deployment_changed m d replicas, service_changed m)
                    (has_changes-some m d replicas count),
            own,
            own_o,
            asks,
          )

      -- For a microservice that the server has, valid, registered and not under deletion, with a
      -- deployment that has a replica count, the reconciliation sends the requests for the
      -- microservice, the deployment and the autoscaler and the change that the autoscaler needs,
      -- if any, and nothing else, exactly when the deployment has the replica count and the
      -- account of the specification, some container has its image, all containers with that image
      -- have its arguments, command and resources, and `Equals` holds of the routing in the status
      -- and that of the specification. The server answers objects under the names that were asked
      -- for or sent, the owner can be set and keeps an object's names, and smart reload is not
      -- switched off.
      pub resting_iff :
          ((reconcile p namespace name s).1.sent ≡ quiet p namespace name m d replicas s)
          ↔ (IsCurrent m d replicas × (equals m.status.routing m.spec.container.routing ≡ true))
      resting_iff =
          let (o, step, own, own_o, asks) = reconcile_applies in
          (
            λ at_rest.
                let (deployed, routed) =
                  changes_sent m o scaled (deployment_changed m d replicas) (service_changed m) own
                    own_o (sym (ap (λ r. r.1.sent) step) ∙ (at_rest ∙ sym scaled_sent)) in
                ((deployment_changed_iff m d replicas).0 deployed, service_unchanged m routed),
            λ (current, routed).
                (settled_reconcile p namespace name m d replicas s record {
                  there = there;
                  has_replicas = count;
                  current = current;
                  routed = routed;
                  compares = compares;
                }).1,
          )

      count_changes : replicas ≢ m.spec.autoscaling.min → deployment_changed m d replicas ≡ true
      count_changes other = elim (Bool-cases (deployment_changed m d replicas)) [
        | inl changed ↦ changed
        | inr current ↦
            absurd (other ((deployment_changed_iff m d replicas).0 current).replicas_wanted)
      ]

      -- When autoscaling is enabled and the deployment that the server has for a valid and
      -- registered microservice, which is not under deletion, has a replica count other than the
      -- minimum, as an autoscaler sets it, the reconciliation sends an update of the deployment
      -- that asks for one replica. The server answers objects under the names that were asked for
      -- or sent, the owner can be set and keeps an object's names, and smart reload is not
      -- switched off.
      pub scaled_deployment_reset :
          replicas ≢ m.spec.autoscaling.min
          → autoscaling_enabled m ≡ true
          → (reset : Deployment) × (extra : List Request) × ((reconcile p namespace name s).1.sent
              ≡ extra ++ update_deployment reset ∷ quiet p namespace name m d replicas s)
            × (reset.replicas ≡ some (pos 1))
      unfolding send
      scaled_deployment_reset other enabled =
          let (o, step, own, own_o, asks) = reconcile_applies in
          let first =
            (send (update_deployment o.deployment) (p.deployments.update o.deployment) scaled).1 in
          let kept =
            deployment_reaches (Isolated-rules names namespace name first) m own o own_o scaled
              (Isolated-rules names namespace name scaled) (start-Isolated scaled)
              (service_changed m) (start-Isolated first) in
          let end =
            step
            ∙ ap (λ c. apply_changes p m o (c, service_changed m) scaled) (count_changes other) in
          (
            o.deployment,
            kept.extra,
            ap (λ r. r.1.sent) end
                ∙ (kept.sent
                    ∙ ap (λ rs. kept.extra ++ update_deployment o.deployment ∷ rs) scaled_sent),
            asks ∙ ap (λ z. some z) (initial_replicas_scaled m enabled),
          )
