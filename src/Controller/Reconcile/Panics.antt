-- ===== src/Controller/Reconcile/Panics.antt =====
-- When a reconciliation panics.
pub mod Resources
pub mod Whole
use kom_operator.Prelude.{
  append, String, Bool, true, false, Option, none, some, List, [], ◌∷◌, items, ◌≡◌, refl, ap, sym,
  ◌∙◌, ◌⊎◌, inl, inr, not,
}
use kom_operator.Errors.{Result, ok, err, is_not_found}
use kom_operator.Kube.{Deployment, KubeService}
use kom_operator.Api.{Microservice, Http}
use kom_operator.Platform.{Platform}
use kom_operator.Exec.{Exec, Sys, Request, delete_service, returns}
use kom_operator.Controller.Reconcile.{with_finalizers, finalizer_name}
use kom_operator.LoadBalancer.Controller.Panics.{Undecoded}

module _ (p : Platform) where
  -- The server answered a deployment without a replica count.
  abbrev pub Uncounted : Type 0
  Uncounted =
      (d : Deployment) × (a : String) × (b : String) × (w : p.World) × ((p.deployments.get a b w).0
        ≡ ok d)
      × (d.replicas ≡ none)

  -- The last request was the deletion of a service.
  abbrev pub Deleting : Sys p → Type 0
  Deleting s = (x : KubeService) × (rest : List Request) × (s.sent ≡ delete_service x ∷ rest)

module _ (p : Platform) (namespace name : String) where
  -- A microservice that was read.
  abbrev pub Read : Microservice → Type 0
  Read m = (w : p.World) × ((p.microservices.get namespace name w).0 ≡ ok m)

  -- The same, or what the server answered when the finalizer was added to it.
  abbrev pub Answered : Microservice → Type 0
  Answered m =
      Read m
      ⊎ ((x : Microservice) × (w : p.World) × Read x
          × ((p.microservices.update (with_finalizers x (append x.meta.finalizers finalizer_name))
                w).0
              ≡ ok m))

  -- The server answered such a microservice without routes.
  abbrev pub Unrouted : Type 0
  Unrouted = (m : Microservice) × Answered m × (items m.spec.container.routing.http ≡ [])

  abbrev pub Cause : Sys p → Type 0
  Cause s = Undecoded s ⊎ (Uncounted p ⊎ (Unrouted × Deleting p s))
