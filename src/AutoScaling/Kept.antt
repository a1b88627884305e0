-- ===== src/AutoScaling/Kept.antt =====
-- What `Run` keeps: the rules for its requests make a rule for the whole.
use mathlib.Core.Path.{subst₂}
use kom_operator.Prelude.{String, ◌≡◌, refl, sym, subst, List, [], ◌∷◌}
use kom_operator.Errors.{Fault, Result, ok, err, >>=-eq-ok, ok_inj, no_owner_reference}
use kom_operator.Kube.{Deployment, HorizontalPodAutoscaler, MetricSpec, ObjectMeta}
use kom_operator.Api.{Microservice}
use kom_operator.Platform.{Platform}
use kom_operator.Exec.{
  Sys, get_scaler, create_scaler as create_request, update_scaler, delete_scaler, send,
}
use kom_operator.Exec.Keeps.{Keeps, Any, OnSuccess, Keeps-bind, Keeps-try, Keeps-pure, Keeps-if}
use kom_operator.AutoScaling.{
  autoscaling_enabled, is_owner, update_with, create_with, delete, handle, run,
}
use kom_operator.AutoScaling.Scaler.{
  create_scaler, finish_scaler, new_scaler, or_fault, scaler_meta, scaler_metrics,
}

-- The metadata of an object that may be touched.
abbrev pub OwnMeta : (String → String → Type 0) → ObjectMeta → Type 0
OwnMeta Own meta = Own meta.namespace meta.name

-- The owner reference changes neither the name nor the namespace.
pub record KeepsNames (p : Platform) : Type 0 where
  pub referenced :
      (m : Microservice) (a b : ObjectMeta)
      → p.set_controller_reference m a ≡ ok b
      → (b.name ≡ a.name) × (b.namespace ≡ a.namespace)

-- The requests for autoscalers of own objects keep `I`.
pub record ScalerRules (p : Platform) (I : Sys p → Type 0) (Own : String → String → Type 0)
    : Type 0 where
  pub get :
      (namespace name : String)
      → Own namespace name
      → Keeps I
          (send (get_scaler namespace name) (p.scalers.get namespace name))
          (λ h. OwnMeta Own h.meta)
  pub create :
      (h : HorizontalPodAutoscaler)
      → OwnMeta Own h.meta
      → Keeps I (send (create_request h) (p.scalers.create h)) Any
  pub update :
      (h : HorizontalPodAutoscaler)
      → OwnMeta Own h.meta
      → Keeps I (send (update_scaler h) (p.scalers.update h)) Any
  pub delete :
      (h : HorizontalPodAutoscaler)
      → OwnMeta Own h.meta
      → Keeps I (send (delete_scaler h) (p.scalers.delete h)) Any

or_fault_ok :
    (p : Platform) {A : Type 0} (r : Result A) (fault : Fault) {a : A}
    → or_fault p r fault ≡ ok a
    → r ≡ ok a
or_fault_ok p (ok a) fault h = h
or_fault_ok p (err e) fault h = cc

module _ {p : Platform} (v : KeepsNames p) (Own : String → String → Type 0) where
  pub own_reference :
      (m : Microservice) (a b : ObjectMeta)
      → p.set_controller_reference m a ≡ ok b
      → OwnMeta Own a
      → OwnMeta Own b
  own_reference m a b h own =
      let (name, namespace) = v.referenced m a b h in subst₂ Own (sym namespace) (sym name) own

  finish_scaler-Own :
      (deployment : Deployment) (m : Microservice) (metrics : List MetricSpec)
      (h : HorizontalPodAutoscaler)
      → OwnMeta Own deployment.meta
      → finish_scaler p deployment m metrics ≡ ok h
      → OwnMeta Own h.meta
  unfolding finish_scaler new_scaler
  finish_scaler-Own deployment m [] h own e = cc
  finish_scaler-Own deployment m (x ∷ xs) h own e =
      let (meta, e', h') =
        >>=-eq-ok
          (or_fault p (p.set_controller_reference m (scaler_meta p deployment))
            (no_owner_reference deployment.meta.name))
          _ e in
      subst (λ (x : HorizontalPodAutoscaler). OwnMeta Own x.meta) (ok_inj h')
        (own_reference m (scaler_meta p deployment) meta (or_fault_ok p _ _ e') own)

  create_scaler-Own :
      (deployment : Deployment) (m : Microservice) (h : HorizontalPodAutoscaler)
      → OwnMeta Own deployment.meta
      → create_scaler p deployment m ≡ ok h
      → OwnMeta Own h.meta
  unfolding create_scaler
  create_scaler-Own deployment m h own e =
      let (metrics, e', h') =
        >>=-eq-ok
          (scaler_metrics p deployment.meta.name m.spec.container.resources.limits
            m.spec.autoscaling.scaler [])
          _ e in
      finish_scaler-Own deployment m metrics h own h'

  module _ {I : Sys p → Type 0} (r : ScalerRules p I Own) where
    Keeps-update_with :
        (scaler : Result HorizontalPodAutoscaler)
        → ((h : HorizontalPodAutoscaler) → scaler ≡ ok h → OwnMeta Own h.meta)
        → Keeps I (update_with p scaler) Any
    unfolding update_with
    Keeps-update_with (err e) own = Keeps-pure tt tt
    Keeps-update_with (ok h) own =
        Keeps-bind (Keeps-try (r.update h (own h refl))) (λ reply _. Keeps-pure tt tt)

    Keeps-create_with :
        (scaler : Result HorizontalPodAutoscaler)
        → ((h : HorizontalPodAutoscaler) → scaler ≡ ok h → OwnMeta Own h.meta)
        → Keeps I (create_with p scaler) Any
    unfolding create_with
    Keeps-create_with (err e) own = Keeps-pure tt tt
    Keeps-create_with (ok h) own =
        Keeps-bind (Keeps-try (r.create h (own h refl))) (λ reply _. Keeps-pure tt tt)

    Keeps-delete : (h : HorizontalPodAutoscaler) → OwnMeta Own h.meta → Keeps I (delete p h) Any
    unfolding delete
    Keeps-delete h own = Keeps-bind (Keeps-try (r.delete h own)) (λ reply _. Keeps-pure tt tt)

    Keeps-handle :
        (m : Microservice) (deployment : Deployment) (found : Result HorizontalPodAutoscaler)
        → OwnMeta Own deployment.meta
        → OnSuccess (λ (h : HorizontalPodAutoscaler). OwnMeta Own h.meta) found
        → Keeps I (handle p m deployment found) Any
    unfolding handle
    Keeps-handle m deployment (ok h) own own_h =
        Keeps-if (is_owner m h.meta.owner_references)
          (λ _.
            Keeps-if (autoscaling_enabled m)
              (λ _.
                Keeps-update_with (create_scaler p deployment m)
                  (λ x e. create_scaler-Own deployment m x own e))
              (λ _. Keeps-delete h own_h))
          (λ _. Keeps-pure tt tt)
    Keeps-handle m deployment (err e) own own_h =
        Keeps-if (autoscaling_enabled m)
          (λ _.
            Keeps-create_with (create_scaler p deployment m)
              (λ x e. create_scaler-Own deployment m x own e))
          (λ _. Keeps-pure tt tt)

    pub Keeps-run :
        (m : Microservice) (deployment : Deployment)
        → OwnMeta Own deployment.meta
        → Keeps I (run p m deployment) Any
    unfolding run
    Keeps-run m deployment own =
        Keeps-bind (Keeps-try (r.get deployment.meta.namespace deployment.meta.name own))
          (λ found own_h. Keeps-handle m deployment found own own_h)
