-- ===== src/Cluster/Isolation/Reconciled.antt =====
-- The requests of a whole reconciliation.
use kom_operator.Prelude.{String, refl, []}
use kom_operator.Platform.{Platform}
use kom_operator.Exec.{Sys}
use kom_operator.Controller.Reconcile.{reconcile}
use kom_operator.Controller.Reconcile.Kept.Interface.{Rules}
use kom_operator.Controller.Reconcile.Kept.{Keeps-reconcile}
use kom_operator.Cluster.Names.{NamesKept, rules_of}
use kom_operator.Cluster.Isolation.{Own, Isolated, own-Isolated}
use kom_operator.Cluster.Isolation.Routers.{Keeps-create_router, Keeps-remove_router}

module _ {p : Platform} (names : NamesKept p) (namespace name : String) (start : Sys p) where
  pub Isolated-rules : Rules p (Isolated namespace name start) (Own namespace name)
  Isolated-rules =
      rules_of names (own-Isolated namespace name start)
        (λ ns n routes own. Keeps-create_router namespace name start ns n routes)
        (λ ns n reload own. Keeps-remove_router namespace name start ns n reload)

  -- Whatever the server answers, every request that a reconciliation sends is about an object with
  -- the namespace and the name of the microservice that it was called for, or reads or updates the
  -- load balancer's ConfigMap, or patches the load balancer's deployment; and of the load balancer
  -- only the configuration changes. The server answers objects under the names that were asked for
  -- or sent, and setting the owner keeps an object's names.
  pub reconcile-Isolated : Isolated namespace name start (reconcile p namespace name start).1
  reconcile-Isolated =
      (Keeps-reconcile Isolated-rules namespace name (refl, refl)).state start
        (record { extra = []; sent = refl; within = tt; same_lb = refl })
