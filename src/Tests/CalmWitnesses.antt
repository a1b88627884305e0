-- ===== src/Tests/CalmWitnesses.antt =====
-- The theorem on reconciliations that do not panic, for a new microservice.
use kom_operator.Prelude.{String, ◌≢◌, refl, subst, none, [], items, inl, inr}
use kom_operator.Errors.{ok_inj}
use kom_operator.Dict.{get}
use kom_operator.Kube.{ConfigMap}
use kom_operator.Api.{Microservice}
use kom_operator.Exec.{Sys, panics}
use kom_operator.LoadBalancer.Controller.{raw_config, text_or_empty}
use kom_operator.Controller.Reconcile.{reconcile}
use kom_operator.Controller.Reconcile.Panics.{Answered}
use kom_operator.Cluster.{ConfigStore, Holds}
use kom_operator.Cluster.Laws.{Decodes, some_inj}
use kom_operator.Cluster.Calm.{reconcile_calm}
use kom_operator.Tests.Demo.{Replies, demo, idle, busy}
use kom_operator.Tests.DemoLaws.{with_one, with_one_names, demo_store, demo_configs}
use kom_operator.Tests.Cart.{cart, system}

-- The microservice `dog`, which is new.
abbrev dog : Microservice
dog = record cart {
  meta = record cart.meta { name = "dog"; finalizers = none; deletion_timestamp = none };
}

abbrev has_dog : Replies
has_dog = with_one dog

abbrev before : Sys (demo has_dog)
before = system has_dog "busy"

abbrev dog_store : ConfigStore (demo has_dog) "kom" "kom-loadbalancer"
dog_store = demo_store has_dog "kom" "kom-loadbalancer" (λ c. refl)

abbrev Readable : ConfigMap → Type 0
Readable c = Decodes (demo has_dog) c

before-Holds : Holds dog_store Readable before
unfolding demo_store raw_config text_or_empty get
before-Holds = record {
  namespace_kept = refl;
  name_kept = refl;
  local = (idle, refl);
  remote = λ c held. subst Readable (some_inj held) (busy, refl);
}

dog_routed : items dog.spec.container.routing.http ≢ []
dog_routed e = cc (e)

abbrev IsRouted : Microservice → Type 0
IsRouted m = items m.spec.container.routing.http ≢ []

Answered-IsRouted : (m : Microservice) → Answered (demo has_dog) "shop" "dog" m → IsRouted m
Answered-IsRouted m (inl (w, h)) = subst IsRouted (ok_inj h) dog_routed
Answered-IsRouted m (inr (x, w, (w', h), h')) =
    subst IsRouted (ok_inj h') (subst IsRouted (ok_inj h) dog_routed)

reconcile_calm_example :
    ((reason : String) → (reconcile (demo has_dog) "shop" "dog" before).0 ≢ panics reason)
    × Holds dog_store Readable (reconcile (demo has_dog) "shop" "dog" before).1
reconcile_calm_example =
    reconcile_calm dog_store (demo_configs has_dog.microservice has_dog.environment)
      (with_one_names dog) "shop" "dog" before before-Holds (λ d a b w found bare. cc (found))
      Answered-IsRouted
