-- ===== src/Controller/Reconcile/Panics/Whole.antt =====
-- Panics of a whole reconciliation.
use kom_operator.Prelude.{
  String, Bool, true, false, Option, none, some, List, [], ◌∷◌, items, ◌≡◌, refl, ap, ◌∙◌, subst,
  inl, inr, append, not, if◌then◌else◌,
}
use kom_operator.Errors.{Result, ok, err, is_not_found}
use kom_operator.Kube.{KubeService}
use kom_operator.Api.{Microservice, Http}
use kom_operator.Platform.{Platform}
use kom_operator.Util.{contains_string}
use kom_operator.Exec.{Sys, panics, pure}
use kom_operator.Exec.Inversion.{Returns, send-Returns, reply-Returns, pure-Returns, >>=-Returns}
use kom_operator.Exec.Panics.{
  PanicsIn, PanicsIn-bind, PanicsIn-try, PanicsIn-pure, PanicsIn-fail, PanicsIn-lift, PanicsIn-send,
  PanicsIn-if,
}
use kom_operator.LoadBalancer.Controller.Panics.{remove_router_panics}
use kom_operator.Controller.Objects.{InstanceObjects, get_instance_objects}
use kom_operator.Controller.Objects.Shape.{service_name}
use kom_operator.Controller.Reconcile.{
  finalizer_name, with_finalizers, finalize_service, finalize, update_instance, delete_instance,
  register_finalizer, own_service, own_objects, apply_instance, reconcile_by, reconcile_instance,
  reconcile_found, reconcile,
}
use kom_operator.Controller.Reconcile.Panics.{Cause, Answered, Read}
use kom_operator.Controller.Reconcile.Panics.Resources.{resources_panics}

items_unrouted :
    (m : Microservice) (hs : List Http)
    → items m.spec.container.routing.http ≡ hs
    → (get_instance_objects m).service ≡ none
    → hs ≡ []
items_unrouted m [] e h = refl
items_unrouted m (x ∷ xs) e h =
    let (svc, found, svc_name, svc_namespace) = service_name m (λ bare. cc (bare, e)) in
    absurd (cc (found, h))

module _ {p : Platform} (namespace name : String) where
  abbrev B : Sys p → Type 0
  B = Cause p namespace name

  own_service_panics :
      {s : Sys p} (m : Microservice) (x : Option KubeService) → PanicsIn B (own_service p m x) s
  unfolding own_service
  own_service_panics m none = PanicsIn-pure none
  own_service_panics m (some x) =
      PanicsIn-bind (PanicsIn-lift (p.set_controller_reference m x.meta))
        λ meta u _. PanicsIn-pure (some (record x { meta = meta }))

  own_objects_panics :
      {s : Sys p} (m : Microservice) (o : InstanceObjects) → PanicsIn B (own_objects p m o) s
  unfolding own_objects
  own_objects_panics m o =
      PanicsIn-bind (PanicsIn-lift (p.set_controller_reference m o.deployment.meta))
        λ meta u _. PanicsIn-bind (own_service_panics m o.service) λ service v _. PanicsIn-pure _

  own_service-none :
      (m : Microservice) (x : Option KubeService) (s u : Sys p)
      → Returns (own_service p m x) s none u
      → x ≡ none
  unfolding own_service
  own_service-none m none s u h = refl
  own_service-none m (some x) s u h =
      let (meta, v, first, second) = >>=-Returns _ _ s none u h in
      absurd (cc (pure-Returns _ v none u second).0)

  own_objects-none :
      (m : Microservice) (o owned : InstanceObjects) (s u : Sys p)
      → Returns (own_objects p m o) s owned u
      → owned.service ≡ none
      → o.service ≡ none
  unfolding own_objects
  own_objects-none m o owned s u h bare =
      let (meta, v, first, second) = >>=-Returns _ _ s owned u h in
      let (service, w, third, last) = >>=-Returns _ _ v owned u second in
      let same = ap (λ (x : InstanceObjects). x.service) (pure-Returns _ w owned u last).0 in
      own_service-none m o.service v w
        (subst (λ x. Returns (own_service p m o.service) v x w) (same ∙ bare) third)

  apply_instance_panics :
      {s : Sys p} (m : Microservice)
      → Answered p namespace name m
      → PanicsIn B (apply_instance p m) s
  unfolding apply_instance
  apply_instance_panics {s = s} m answered =
      PanicsIn-bind (own_objects_panics m (get_instance_objects m)) λ o u owned.
        PanicsIn-bind (PanicsIn-try (PanicsIn-send _ _)) λ reply v asked.
          resources_panics namespace name m o
            (λ bare. (
              m,
              answered,
              items_unrouted m _ refl
                  (own_objects-none m (get_instance_objects m) o s u owned bare),
            ))
            o.deployment.meta.namespace o.deployment.meta.name u.world reply
            (reply-Returns _ _ u reply v asked)

  finalize_service_panics :
      {s : Sys p} (x : Option KubeService) → PanicsIn B (finalize_service p x) s
  unfolding finalize_service
  finalize_service_panics none = PanicsIn-pure tt
  finalize_service_panics (some x) =
      remove_router_panics B (λ s e. inl e) x.meta.namespace x.meta.name true

  finalize_panics : {s : Sys p} (m : Microservice) → PanicsIn B (finalize p m) s
  unfolding finalize
  finalize_panics m = finalize_service_panics (get_instance_objects m).service

  delete_instance_panics : {s : Sys p} (m : Microservice) → PanicsIn B (delete_instance p m) s
  unfolding delete_instance update_instance
  delete_instance_panics m =
      PanicsIn-if (contains_string m.meta.finalizers finalizer_name)
        (λ _.
          PanicsIn-bind (finalize_panics m)
            λ done u _. PanicsIn-bind (PanicsIn-send _ _) λ updated v _. PanicsIn-pure tt)
        (λ _. PanicsIn-pure tt)

  register-Answered :
      (b : Bool) (m got : Microservice) (s u : Sys p)
      → Read p namespace name m
      → Returns
          (if b
            then update_instance p (with_finalizers m (append m.meta.finalizers finalizer_name))
            else pure m)
          s
          got
          u
      → Answered p namespace name got
  unfolding update_instance
  register-Answered true m got s u answered h =
      inr (m, s.world, answered, (send-Returns _ _ s got u h).0)
  register-Answered false m got s u answered h =
      inl (subst (Read p namespace name) (pure-Returns m s got u h).0 answered)

  reconcile_by_panics :
      {s : Sys p} (time : Option String) (m : Microservice)
      → Read p namespace name m
      → PanicsIn B (reconcile_by p time m) s
  unfolding reconcile_by register_finalizer update_instance
  reconcile_by_panics (some time) m answered = delete_instance_panics m
  reconcile_by_panics {s = s} none m answered =
      PanicsIn-bind
        (PanicsIn-if (not (contains_string m.meta.finalizers finalizer_name))
          (λ _. PanicsIn-send _ _) (λ _. PanicsIn-pure m))
        λ got u registered. apply_instance_panics got (
          register-Answered (not (contains_string m.meta.finalizers finalizer_name)) m got s u
            answered registered)

  reconcile_found_panics :
      {s : Sys p} (reply : Result Microservice) (w : p.World)
      → (p.microservices.get namespace name w).0 ≡ reply
      → PanicsIn B (reconcile_found p reply) s
  unfolding reconcile_found reconcile_instance
  reconcile_found_panics (err e) w h =
      PanicsIn-if (is_not_found e) (λ _. PanicsIn-pure tt) (λ _. PanicsIn-fail e)
  reconcile_found_panics (ok m) w h =
      PanicsIn-bind (PanicsIn-lift (p.validate m))
        λ done u _. reconcile_by_panics m.meta.deletion_timestamp m (w, h)

  whole_panics : {s : Sys p} → PanicsIn B (reconcile p namespace name) s
  unfolding reconcile
  whole_panics {s = s} =
      PanicsIn-bind (PanicsIn-try (PanicsIn-send _ _))
        λ reply u asked. reconcile_found_panics reply s.world (reply-Returns _ _ s reply u asked)

  -- When a reconciliation panics, one of three things has happened: the configuration that the
  -- process then holds cannot be decoded, or the server answers some deployment without a replica
  -- count, or the server answers the microservice, as it was read or updated, without routes, and
  -- the last request was the deletion of a service.
  pub reconcile_panics :
      (s t : Sys p) (reason : String)
      → reconcile p namespace name s ≡ (panics reason, t)
      → Cause p namespace name t
  reconcile_panics s t reason h = whole_panics.blames t reason h
