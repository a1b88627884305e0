-- ===== src/AutoScaling/Wanted.antt =====
-- The change of the autoscaler that `Run` asks for, by who owns it and what the specification says.
use mathlib.Core.List.{Mem, mem-cons, not-mem-nil}
use mathlib.Core.Logic.Or
use text.Mathlib.Text.{◌==◌ as str_eq}
use kom_operator.Prelude.{
  ◌≡◌, ◌≢◌, refl, ap, Bool, true, ◌&&◌, int_eq, int_eq_iff, List, [], ◌∷◌, ◌++◌, arith, Bool-cases,
  inl, inr, eq_iff, ◌↔◌,
}
use kom_operator.Errors.{Error, Result, ok, err, Result-cases}
use kom_operator.Kube.{Deployment, HorizontalPodAutoscaler, OwnerReference}
use kom_operator.Api.{Microservice}
use kom_operator.Platform.{Platform}
use kom_operator.Exec.{
  Sys, Request, get_scaler, create_scaler as create_request, update_scaler, delete_scaler, returns,
}
use kom_operator.AutoScaling.{has_some, autoscaling_enabled, is_owner, run}
use kom_operator.AutoScaling.Scaler.{create_scaler}
use kom_operator.AutoScaling.Safety.{found, wanted_change, run_lem, autoscaling_enabled_sound}

-- One of the owner references has the name and the kind of the microservice.
abbrev pub IsOwned : Microservice → List OwnerReference → Type 0
IsOwned instance owners =
    (owner : OwnerReference) × Mem owner owners
    × (owner.name ≡ instance.meta.name)
    × (owner.kind ≡ instance.type_meta.kind)

-- The replica bounds differ, and there are scalers.
abbrev pub IsScaled : Microservice → Type 0
IsScaled instance =
    (instance.spec.autoscaling.min ≢ instance.spec.autoscaling.max)
    × (instance.spec.autoscaling.scaler ≢ [])

-- The change that is asked for, by the server's answer to the request for the autoscaler.
pub data Wants (p : Platform) (instance : Microservice) (deployment : Deployment)
    : Result HorizontalPodAutoscaler → List Request → Type 0 where
  foreign :
      (hpa : HorizontalPodAutoscaler)
      → ¬ IsOwned instance hpa.meta.owner_references
      → Wants p instance deployment (ok hpa) []
  updates :
      (hpa scaler : HorizontalPodAutoscaler)
      → IsOwned instance hpa.meta.owner_references
      → IsScaled instance
      → create_scaler p deployment instance ≡ ok scaler
      → Wants p instance deployment (ok hpa) (update_scaler scaler ∷ [])
  deletes :
      (hpa : HorizontalPodAutoscaler)
      → IsOwned instance hpa.meta.owner_references
      → ¬ IsScaled instance
      → Wants p instance deployment (ok hpa) (delete_scaler hpa ∷ [])
  creates :
      (e : Error) (scaler : HorizontalPodAutoscaler)
      → IsScaled instance
      → create_scaler p deployment instance ≡ ok scaler
      → Wants p instance deployment (err e) (create_request scaler ∷ [])
  unscaled : (e : Error) → ¬ IsScaled instance → Wants p instance deployment (err e) []
  invalid :
      (reply : Result HorizontalPodAutoscaler) (e : Error)
      → IsScaled instance
      → create_scaler p deployment instance ≡ err e
      → Wants p instance deployment reply []

module _ (instance : Microservice) where
  abbrev matches : OwnerReference → Bool
  matches owner = str_eq owner.name instance.meta.name && str_eq owner.kind instance.type_meta.kind

  matches_iff :
      (owner : OwnerReference)
      → (matches owner ≡ true)
        ↔ ((owner.name ≡ instance.meta.name) × (owner.kind ≡ instance.type_meta.kind))
  matches_iff owner =
      ground
        (arith, eq_iff owner.name instance.meta.name, eq_iff owner.kind instance.type_meta.kind)

  owner_sound :
      (owners : List OwnerReference) → is_owner instance owners ≡ true → IsOwned instance owners
  unfolding is_owner
  owner_sound [] h = absurd (cc h)
  owner_sound (owner ∷ rest) h = elim (Bool-cases (matches owner)) [
    | inl same ↦
        let (name, kind) = (matches_iff owner).0 same in
        (owner, mem-cons.1 (Or.inl refl), name, kind)
    | inr other ↦
        let (o, m, name, kind) = owner_sound rest (rw other at h) in
        (o, mem-cons.1 (Or.inr m), name, kind)
  ]

  owner_complete :
      (owners : List OwnerReference) → IsOwned instance owners → is_owner instance owners ≡ true
  unfolding is_owner
  owner_complete [] (o, m, name, kind) = absurd (not-mem-nil m)
  owner_complete (owner ∷ rest) (o, m, name, kind) = elim (Bool-cases (matches owner)) [
    | inl e ↦ rw e refl
    | inr other ↦ rw other (
        Or.elim (hlevel) (mem-cons.0 m)
          (λ e. absurd (cc (other, ap matches e, (matches_iff o).1 (name, kind))))
          (λ later. owner_complete rest (o, later, name, kind)))
  ]

  has_some_lem : {A : Type 0} (xs : List A) → xs ≢ [] → has_some xs ≡ true
  unfolding has_some
  has_some_lem [] h = absurd (h refl)
  has_some_lem (x ∷ xs) h = refl

  IsScaled-sound : autoscaling_enabled instance ≡ true → IsScaled instance
  IsScaled-sound h =
      let (apart, scaled) = autoscaling_enabled_sound instance h in
      (
        λ e.
            cc
              (apart, (int_eq_iff instance.spec.autoscaling.min instance.spec.autoscaling.max).1 e),
        scaled,
      )

  IsScaled-complete : IsScaled instance → autoscaling_enabled instance ≡ true
  unfolding autoscaling_enabled
  IsScaled-complete (apart, scaled) =
      elim (Bool-cases (int_eq instance.spec.autoscaling.min instance.spec.autoscaling.max)) [
        | inl same ↦ absurd (
            apart ((int_eq_iff instance.spec.autoscaling.min instance.spec.autoscaling.max).0 same))
        | inr other ↦ rw (other, has_some_lem instance.spec.autoscaling.scaler scaled) refl
      ]

module _ (p : Platform) (instance : Microservice) (deployment : Deployment) (s : Sys p) where
  abbrev Asks : Result HorizontalPodAutoscaler → Type 0
  Asks reply = Wants p instance deployment reply (wanted_change p instance deployment s reply)

  Asks-found : (hpa : HorizontalPodAutoscaler) → Asks (ok hpa)
  unfolding wanted_change
  Asks-found hpa = elim (Bool-cases (is_owner instance hpa.meta.owner_references)) [
    | inl own ↦
        let owned = owner_sound instance hpa.meta.owner_references own in
        elim (Bool-cases (autoscaling_enabled instance)) [
          | inl enabled ↦
              let scaled = IsScaled-sound instance enabled in
              elim (Result-cases (create_scaler p deployment instance)) [
                | inl (scaler, e) ↦ rw (own, enabled, e) (Wants.updates hpa scaler owned scaled e)
                | inr (x, e) ↦ rw (own, enabled, e) (Wants.invalid (ok hpa) x scaled e)
              ]
          | inr disabled ↦
              rw (own, disabled)
                (Wants.deletes hpa owned
                  (λ scaled. cc (disabled, IsScaled-complete instance scaled)))
        ]
    | inr other ↦ rw other (
        Wants.foreign hpa
          (λ owned. cc (other, owner_complete instance hpa.meta.owner_references owned)))
  ]

  Asks-missing : (e : Error) → Asks (err e)
  unfolding wanted_change
  Asks-missing e = elim (Bool-cases (autoscaling_enabled instance)) [
    | inl enabled ↦
        let scaled = IsScaled-sound instance enabled in
        elim (Result-cases (create_scaler p deployment instance)) [
          | inl (scaler, eq) ↦ rw (enabled, eq) (Wants.creates e scaler scaled eq)
          | inr (x, eq) ↦ rw (enabled, eq) (Wants.invalid (err e) x scaled eq)
        ]
    | inr disabled ↦
        rw disabled (Wants.unscaled e (λ scaled. cc (disabled, IsScaled-complete instance scaled)))
  ]

  asks : (reply : Result HorizontalPodAutoscaler) → Asks reply
  asks (ok hpa) = Asks-found hpa
  asks (err e) = Asks-missing e

  -- Whatever the server answers, `Run` returns without an error and leaves the load balancer
  -- alone. It asks for the autoscaler and then sends at most one change. An autoscaler of which no
  -- owner has the name and kind of the microservice is left alone. An owned one is updated, and
  -- where none was found one is created, if the replica bounds differ, there are scalers, and
  -- `createScaler` accepts them; an owned one is deleted if the bounds are equal or there are no
  -- scalers. In all other cases nothing is sent.
  pub run_sends :
      ((run p instance deployment s).0 ≡ returns tt)
      × ((changes : List Request) × Wants p instance deployment
            (found p instance deployment s)
            changes
          × ((run p instance deployment s).1.sent
              ≡ changes ++ get_scaler deployment.meta.namespace deployment.meta.name ∷ s.sent))
      × ((run p instance deployment s).1.lb ≡ s.lb)
  run_sends =
      let (done, sent, same) = run_lem p instance deployment s in
      (
        done,
        (
          wanted_change p instance deployment s (found p instance deployment s),
          asks (found p instance deployment s),
          sent,
        ),
        same,
      )
