-- ===== src/Cluster/Calm.antt =====
-- Reconciliations while the configuration can be decoded.
use kom_operator.Prelude.{String, ◌≡◌, ◌≢◌, ap, inl, inr, [], items, none}
use kom_operator.Errors.{ok}
use kom_operator.Kube.{Deployment}
use kom_operator.Api.{Microservice}
use kom_operator.Platform.{Platform}
use kom_operator.Exec.{Sys, Outcome, panics}
use kom_operator.LoadBalancer.Controller.Held.{StoresConfigs}
use kom_operator.Controller.Reconcile.{reconcile}
use kom_operator.Controller.Reconcile.Kept.Interface.{Rules}
use kom_operator.Controller.Reconcile.Kept.{Keeps-reconcile}
use kom_operator.Controller.Reconcile.Panics.{Answered, Cause}
use kom_operator.Controller.Reconcile.Panics.Whole.{reconcile_panics}
use kom_operator.Cluster.{ConfigStore, Holds}
use kom_operator.Cluster.Config.{leaves-Holds, Keeps-create_router, Keeps-remove_router}
use kom_operator.Cluster.Laws.{Decodes, Decodes-law}
use kom_operator.Cluster.Names.{NamesKept, About-writes_config, rules_of}

-- Any object.
abbrev Every : String → String → Type 0
Every a b = Unit

module _ {p : Platform} {namespace name : String} (store : ConfigStore p namespace name)
    (v : StoresConfigs p) (names : NamesKept p) where
  Decodes-rules : Rules p (Holds store (Decodes p)) Every
  Decodes-rules =
      rules_of names
        (λ r s about i.
          leaves-Holds store (Decodes-law v) r s (About-writes_config Every r about) i)
        (λ ns n routes own. Keeps-create_router store (Decodes-law v) ns n routes (λ h x. tt))
        (λ ns n reload own. Keeps-remove_router store (Decodes-law v) ns n reload (λ h x. tt))

  no-Cause :
      (ns n : String) (t : Sys p)
      → Holds store (Decodes p) t
      → ((d : Deployment) (a b : String) (w : p.World)
          → (p.deployments.get a b w).0 ≡ ok d
          → d.replicas ≢ none)
      → ((m : Microservice) → Answered p ns n m → items m.spec.container.routing.http ≢ [])
      → ¬ Cause p ns n t
  no-Cause ns n t i counted routed (inl undecoded) = cc (undecoded, i.local.1)
  no-Cause ns n t i counted routed (inr (inl (d, a, b, w, found, bare))) =
      counted d a b w found bare
  no-Cause ns n t i counted routed (inr (inr ((m, answered, bare), deleting))) =
      routed m answered bare

  -- While the configuration that the server holds and the operator's copy of it can be decoded, a
  -- reconciliation does not panic, and they can be decoded after it, whatever its outcome. The
  -- server answers deployments with a replica count, and the microservice with routes; it keeps
  -- the ConfigMap as documented, reads of it are not behind, and it answers objects under the
  -- names that were asked for, and `Unmarshal` reads what `Marshal` wrote.
  pub reconcile_calm :
      (ns n : String) (s : Sys p)
      → Holds store (Decodes p) s
      → ((d : Deployment) (a b : String) (w : p.World)
          → (p.deployments.get a b w).0 ≡ ok d
          → d.replicas ≢ none)
      → ((m : Microservice) → Answered p ns n m → items m.spec.container.routing.http ≢ [])
      → ((reason : String) → (reconcile p ns n s).0 ≢ panics reason)
        × Holds store (Decodes p) (reconcile p ns n s).1
  reconcile_calm ns n s i counted routed =
      let after = (Keeps-reconcile Decodes-rules ns n tt).state s i in
      (
        λ reason h. no-Cause ns n (reconcile p ns n s).1 after counted routed (
            reconcile_panics ns n s (reconcile p ns n s).1 reason
              (ap (λ (o : Outcome (Unit {0})). (o, (reconcile p ns n s).1)) h)),
        after,
      )
