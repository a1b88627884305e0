-- ===== src/Controller/Objects/Shape.antt =====
-- The objects of a microservice and their parts.
use kom_operator.Prelude.{
  List, [], ap, arith, int_lt, items, none, pos, refl, some, true, false, ◌∷◌, ◌≡◌, ◌≢◌,
}
use kom_operator.Kube.{KubeService}
use kom_operator.Api.{Microservice, Http}
use kom_operator.AutoScaling.{autoscaling_enabled}
use kom_operator.AutoScaling.Safety.{autoscaling_enabled_sound}
use kom_operator.Controller.Objects.{
  objects_of, is_empty, new_deployment, get_instance_objects, new_service, run_loop, empty_loop,
  initial_replicas,
}

-- A microservice with routes has a service of its own name and in its own namespace.
pub service_name :
    (cr : Microservice)
    → items cr.spec.container.routing.http ≢ []
    → (svc : KubeService) × ((get_instance_objects cr).service ≡ some svc)
      × (svc.meta.name ≡ cr.meta.name)
      × (svc.meta.namespace ≡ cr.meta.namespace)
unfolding get_instance_objects
service_name cr routed = go (items cr.spec.container.routing.http) routed
  where
    go :
        (hs : List Http)
        → hs ≢ []
        → (svc : KubeService) × ((objects_of cr hs).service ≡ some svc)
          × (svc.meta.name ≡ cr.meta.name)
          × (svc.meta.namespace ≡ cr.meta.namespace)
    go [] h = absurd (h refl)
    go (x ∷ xs) h = (new_service cr (run_loop (x ∷ xs) empty_loop).service_ports, refl, refl, refl)

-- A microservice without routes has no service and no routers.
pub no_service :
    (cr : Microservice)
    → items cr.spec.container.routing.http ≡ []
    → ((get_instance_objects cr).service ≡ none) × ((get_instance_objects cr).routers ≡ [])
unfolding get_instance_objects objects_of
no_service cr e = (ap (λ hs. (objects_of cr hs).service) e, ap (λ hs. (objects_of cr hs).routers) e)

-- The deployment of a microservice starts with at least one replica, whatever its specification.
pub initial_replicas_positive : (cr : Microservice) → int_lt (pos 0) (initial_replicas cr) ≡ true
unfolding initial_replicas
initial_replicas_positive cr = ground arith

-- The deployment has the name and the namespace of the microservice.
pub deployment_name :
    (cr : Microservice)
    → ((get_instance_objects cr).deployment.meta.name ≡ cr.meta.name)
      × ((get_instance_objects cr).deployment.meta.namespace ≡ cr.meta.namespace)
unfolding get_instance_objects
deployment_name cr = go (items cr.spec.container.routing.http)
  where
    go :
        (hs : List Http)
        → ((objects_of cr hs).deployment.meta.name ≡ cr.meta.name)
          × ((objects_of cr hs).deployment.meta.namespace ≡ cr.meta.namespace)
    go [] = (refl, refl)
    go (x ∷ xs) = (refl, refl)

-- The deployment asks for the initial replica count.
pub deployment_replicas :
    (cr : Microservice) → (get_instance_objects cr).deployment.replicas ≡ some (initial_replicas cr)
unfolding get_instance_objects objects_of new_deployment
deployment_replicas cr = go (items cr.spec.container.routing.http)
  where
    go : (hs : List Http) → (objects_of cr hs).deployment.replicas ≡ some (initial_replicas cr)
    go [] = refl
    go (x ∷ xs) = refl

-- With autoscaling the deployment starts with one replica.
pub initial_replicas_scaled :
    (cr : Microservice) → autoscaling_enabled cr ≡ true → initial_replicas cr ≡ pos 1
unfolding initial_replicas is_empty
initial_replicas_scaled cr enabled =
    let (apart, scaled) = autoscaling_enabled_sound cr enabled in
    rw (apart, is_empty_some cr.spec.autoscaling.scaler scaled) refl
  where
    is_empty_some : {A : Type 0} (xs : List A) → xs ≢ [] → is_empty xs ≡ false
    is_empty_some [] h = absurd (h refl)
    is_empty_some (x ∷ xs) h = refl
