-- ===== src/LoadBalancer/Deploy/Kept.antt =====
-- What the start of the load balancer keeps of the stored configuration.
use text.Mathlib.Text.{◌==◌ as str_eq}
use kom_operator.Prelude.{
  String, ◌≡◌, refl, sym, subst, Bool, true, false, Option, none, some, List, [], ◌∷◌, Bool-cases,
  inl, inr,
}
use kom_operator.Errors.{Result, ok, err, env_not_set, is_not_found}
use kom_operator.Kube.{ConfigMap, OwnerReference, Deployment, KubeService}
use kom_operator.Traefik.{Http, new_traefik_config}
use kom_operator.Platform.{Platform}
use kom_operator.Util.Env.{
  get_operator_namespace, get_loadbalancer_published_service, is_run_mode_local, pod_name_env_var,
}
use kom_operator.Exec.{
  Exec, Sys, Request, get_deployment, create_deployment, update_deployment, get_service,
  create_service, get_pod, send, get_lb,
}
use kom_operator.Exec.Keeps.{
  Keeps, Any, Keeps-bind, Keeps-try, Keeps-pure, Keeps-fail, Keeps-panic, Keeps-if, Keeps-send,
  Keeps-get_lb, Keeps-set_lb,
}
use kom_operator.LoadBalancer.{find_existing_object, existing}
use kom_operator.LoadBalancer.Deploy.{
  lb_deployment, lb_service, or_panic, must, keep_deployment, create_or_update,
  deploy_load_balancer, create_missing_service, deploy_load_balancer_service, pod_named,
  my_owner_ref, keep_owner, find_owner, start_config, create_config, start,
}
use kom_operator.Cluster.{ConfigStore, Copies, writes_config, world_after}
use kom_operator.Cluster.Config.{
  Good, Holds-Good, set-Holds, leaves-Holds, Keeps-load_config, Keeps-write_config,
}
use kom_operator.Cluster.Laws.{Lawful}

module _ {p : Platform} {namespace name : String} (store : ConfigStore p namespace name)
    {L R : ConfigMap → Type 0} {P : Http → Type 0} (law : Lawful p L R P) where
  abbrev I : Sys p → Type 0
  I = Copies store L R

  abbrev good_lb : Keeps I get_lb (Good store law)
  good_lb = Keeps-get_lb (Holds-Good store law)

  Keeps-or_panic : {A : Type 0} (r : Result A) → Keeps I (or_panic p r) Any
  unfolding or_panic
  Keeps-or_panic (ok a) = Keeps-pure a tt
  Keeps-or_panic (err e) = Keeps-panic (p.error_text e)

  pub Keeps-must : {A : Type 0} {m : Exec p A} → Keeps I m Any → Keeps I (must p m) Any
  unfolding must
  Keeps-must k = Keeps-bind (Keeps-try k) λ reply _. Keeps-or_panic reply

  Keeps-keep_deployment : (d : Deployment) → Keeps I (keep_deployment p d) Any
  unfolding keep_deployment
  Keeps-keep_deployment d = Keeps-bind good_lb λ lb good.
      Keeps-set_lb (record lb { deployment = d })
        (set-Holds store law (record lb { deployment = d }) good)

  -- A request that writes no ConfigMap, sent by `call`.
  abbrev Harmless : {A : Type 0} → Request → (p.World → Result A × p.World) → Type 0
  Harmless r call = (writes_config r ≡ false) × ((w : p.World) → (call w).1 ≡ world_after p r w)

  Keeps-harmless :
      {A : Type 0} (r : Request) (call : p.World → Result A × p.World)
      → Harmless r call
      → Keeps I (send r call) Any
  Keeps-harmless r call (h, same) =
      Keeps-send r call
        (λ s i.
          subst (λ w. I (record s { world = w; sent = r ∷ s.sent })) (sym (same s.world))
            (leaves-Holds store law r s h i))
        (λ s i a e. tt)

  Keeps-existing : {A : Type 0} (reply : Result A) → Keeps I (existing reply) Any
  Keeps-existing (ok a) = Keeps-pure (some a) tt
  Keeps-existing (err e) = Keeps-if (is_not_found e) (λ _. Keeps-pure none tt) (λ _. Keeps-fail e)

  Keeps-create_or_update :
      (found : Option Deployment) (desired : Deployment)
      → Keeps I (create_or_update p found desired) Any
  unfolding create_or_update world_after
  Keeps-create_or_update none desired =
      Keeps-must (Keeps-harmless (create_deployment desired) _ (refl, λ w. refl))
  Keeps-create_or_update (some d) desired =
      Keeps-bind (Keeps-keep_deployment d)
        λ done _. Keeps-must (Keeps-harmless (update_deployment d) _ (refl, λ w. refl))

  pub Keeps-deploy_load_balancer : Keeps I (deploy_load_balancer p) Any
  unfolding deploy_load_balancer find_existing_object world_after
  Keeps-deploy_load_balancer = Keeps-bind good_lb λ lb good.
      Keeps-bind (Keeps-keep_deployment (lb_deployment p lb)) λ done _.
        Keeps-bind
          (Keeps-must (
            Keeps-bind
              (Keeps-try (
                Keeps-harmless (get_deployment lb.namespace "kom-loadbalancer") _
                  (refl, λ w. refl)))
              λ reply _. Keeps-existing reply))
          λ found _.
            Keeps-bind (Keeps-create_or_update found (lb_deployment p lb))
              λ stored _. Keeps-keep_deployment stored

  Keeps-create_missing_service :
      (s : KubeService) (reply : Result KubeService)
      → Keeps I (create_missing_service p s reply) Any
  unfolding create_missing_service world_after
  Keeps-create_missing_service s (ok found) = Keeps-pure tt tt
  Keeps-create_missing_service s (err e) =
      Keeps-if (is_not_found e)
        (λ _.
          Keeps-bind (Keeps-must (Keeps-harmless (create_service s) _ (refl, λ w. refl)))
            λ done _. Keeps-pure tt tt)
        (λ _. Keeps-panic (p.error_text e))

  pub Keeps-deploy_load_balancer_service : Keeps I (deploy_load_balancer_service p) Any
  unfolding deploy_load_balancer_service world_after
  Keeps-deploy_load_balancer_service = Keeps-bind good_lb λ lb good.
      Keeps-bind
        (Keeps-try (
          Keeps-harmless (get_service lb.deployment.meta.namespace lb.deployment.meta.name) _
            (refl, λ w. refl)))
        λ reply _. Keeps-create_missing_service (lb_service p lb) reply

  Keeps-pod_named : (ns : String) (pod : Option String) → Keeps I (pod_named p ns pod) Any
  unfolding pod_named world_after
  Keeps-pod_named ns none = Keeps-fail (env_not_set pod_name_env_var)
  Keeps-pod_named ns (some pod) =
      Keeps-if (str_eq pod "") (λ _. Keeps-fail (env_not_set pod_name_env_var))
        (λ _. Keeps-harmless (get_pod ns pod) _ (refl, λ w. refl))

  Keeps-my_owner_ref : Keeps I (my_owner_ref p) Any
  unfolding my_owner_ref
  Keeps-my_owner_ref =
      Keeps-bind (Keeps-pod_named (get_operator_namespace p) (p.lookup_env pod_name_env_var))
        λ pod _. Keeps-pure _ tt

  Keeps-keep_owner : (owner : Result OwnerReference) → Keeps I (keep_owner p owner) Any
  unfolding keep_owner
  Keeps-keep_owner (ok o) = Keeps-bind good_lb λ lb good.
      Keeps-set_lb (record lb { owner = some o })
        (set-Holds store law (record lb { owner = some o }) good)
  Keeps-keep_owner (err e) = Keeps-bind good_lb λ lb good.
      Keeps-set_lb (record lb { owner = none })
        (set-Holds store law (record lb { owner = none }) good)

  pub Keeps-find_owner : (run_mode : Option Bool) → Keeps I (find_owner p run_mode) Any
  unfolding find_owner
  Keeps-find_owner none = Keeps-panic _
  Keeps-find_owner (some true) = Keeps-pure tt tt
  Keeps-find_owner (some false) =
      Keeps-bind (Keeps-try Keeps-my_owner_ref) λ owner _. Keeps-keep_owner owner

  start_config-http :
      (published : String) → (start_config p published).http ≡ new_traefik_config.http
  unfolding start_config
  start_config-http published = elim (Bool-cases (str_eq published "")) [
    | inl e ↦ rw e refl
    | inr e ↦ rw e refl
  ]

  module _ (initial : P new_traefik_config.http) where
    pub Keeps-create_config :
        (entries : List (String × String)) → Keeps I (create_config p entries) Any
    unfolding create_config
    Keeps-create_config (e ∷ es) = Keeps-pure tt tt
    Keeps-create_config [] =
        let published = get_loadbalancer_published_service p in
        Keeps-must (
          Keeps-write_config store law (start_config p published) false
            (subst P (sym (start_config-http published)) initial))

    pub Keeps-start : Keeps I (start p) Any
    unfolding start
    Keeps-start = Keeps-bind (Keeps-find_owner (is_run_mode_local p)) λ done _.
        Keeps-bind (Keeps-must (Keeps-load_config store law)) λ loaded _.
          Keeps-bind good_lb λ lb good.
            Keeps-bind (Keeps-create_config lb.config.entries) λ created _.
              Keeps-bind Keeps-deploy_load_balancer λ deployed _. Keeps-deploy_load_balancer_service
