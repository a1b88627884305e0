-- ===== src/LoadBalancer/Deploy.antt =====
-- process/loadbalancer.go: the start of the load balancer, its deployment and its service.
pub mod Reload
pub mod Kept
pub mod Replicas
use text.Mathlib.Text.{◌==◌ as str_eq}
use kom_operator.Prelude.{
  ℕ, String, Bool, true, false, not, Option, none, some, List, [], ◌∷◌, ℤ, pos, to_int32,
  if◌then◌else◌,
}
use kom_operator.Errors.{Error, Result, ok, err, env_not_set, is_not_found}
use kom_operator.Kube.{
  OwnerReference, ContainerPort, Deployment, KubeService, ServicePort, Pod, config_map,
  PodContainer, Labels,
}
use kom_operator.Traefik.{TraefikConfig, EndpointIngress, new_traefik_config}
use kom_operator.Platform.{Platform}
use kom_operator.Util.Env.{
  get_loadbalancer_published_service, get_loadbalancer_replica_count, get_operator_namespace,
  is_run_mode_local, pod_name_env_var,
}
use kom_operator.Exec.{
  Exec, LoadBalancer, get_deployment, create_deployment, update_deployment, get_service,
  create_service, get_pod, pure, fail, panic, get_lb, set_lb, send, try, ◌>>=◌, ◌>>◌,
}
use kom_operator.LoadBalancer.{
  find_existing_object, load_config, write_config, owners, new_meta, traefik_image,
}

abbrev pub lb_labels : Labels
lb_labels = ("app", "kom-loadbalancer") ∷ ("provider", "kom-operator") ∷ []

abbrev lb_port : String → ℕ → ContainerPort
lb_port name port = record {
  name = name;
  container_port = pos port;
  host_port = pos 0;
  protocol = "";
  host_ip = "";
}

abbrev lb_container : PodContainer
lb_container = record {
  name = "kom-loadbalancer";
  image = traefik_image;
  command = none;
  args = none;
  ports =
      lb_port "dashboard" 8080
      ∷ lb_port "primary" 8090
      ∷ lb_port "secondary" 8091
      ∷ lb_port "metrics" 8092
      ∷ [];
  volume_mounts = record { name = "config-volume"; mount_path = "/etc/traefik" } ∷ [];
  resources = record { limits = none; requests = none; claims = none };
  image_pull_policy = "";
}

module _ (p : Platform) where
  -- The deployment that `deployLoadBalancer` builds.
  pub lb_deployment : LoadBalancer → Deployment
  lb_deployment lb = record {
    type_meta = record { kind = ""; api_version = "" };
    meta = new_meta "kom-loadbalancer" lb.namespace lb_labels (owners lb.owner);
    replicas = some (to_int32 (get_loadbalancer_replica_count p));
    selector = lb_labels;
    template_labels = lb_labels;
    pod = record {
      containers = lb_container ∷ [];
      volumes = record { name = "config-volume"; source = config_map lb.config_name } ∷ [];
      service_account_name = "kom-operator";
      node_selector = [];
      security_context = none;
    };
  }

  -- `panic(err.Error())` on an error
  unfoldable pub or_panic : {A : Type 0} → Result A → Exec p A
  or_panic (ok a) = pure a
  or_panic (err e) = panic (p.error_text e)

  unfoldable pub must : {A : Type 0} → Exec p A → Exec p A
  must m = do reply ← try m; or_panic reply

  unfoldable pub keep_deployment : Deployment → Exec p (Unit {0})
  keep_deployment deployment = do lb ← get_lb; set_lb (record lb { deployment = deployment })

  -- A new deployment is created. One that is there has been read over the one that was built, and
  -- is what the update sends.
  unfoldable pub create_or_update : Option Deployment → Deployment → Exec p Deployment
  create_or_update none desired =
      must (send (create_deployment desired) (p.deployments.create desired))
  create_or_update (some found) desired = do
    keep_deployment found
    must (send (update_deployment found) (p.deployments.update found))

  -- `deployLoadBalancer`
  unfoldable pub deploy_load_balancer : Exec p (Unit {0})
  deploy_load_balancer = do
    lb ← get_lb
    let desired = lb_deployment lb
    keep_deployment desired
    found ← must (
        find_existing_object (
          send (get_deployment lb.namespace "kom-loadbalancer")
            (p.deployments.get lb.namespace "kom-loadbalancer")))
    stored ← create_or_update found desired
    keep_deployment stored

  lb_service_port : String → ℕ → ServicePort
  lb_service_port name port = record {
    name = name;
    protocol = "TCP";
    port = pos port;
    target_port = name;
  }

  pub lb_service : LoadBalancer → KubeService
  lb_service lb = record {
    meta = new_meta "kom-loadbalancer" lb.namespace lb_labels [];
    ports = lb_service_port "primary" 80 ∷ lb_service_port "dashboard" 5050 ∷ [];
    selector = lb_labels;
    service_type = "LoadBalancer";
  }

  unfoldable pub create_missing_service : KubeService → Result KubeService → Exec p (Unit {0})
  create_missing_service service (ok found) = pure tt
  create_missing_service service (err e) =
      if is_not_found e
      then (must (send (create_service service) (p.services.create service)) >>= λ _. pure tt)
      else panic (p.error_text e)

  -- `deployLoadBalancerService`: a service that is there is left alone.
  unfoldable pub deploy_load_balancer_service : Exec p (Unit {0})
  deploy_load_balancer_service = do
    lb ← get_lb
    reply ← try (
        send (get_service lb.deployment.meta.namespace lb.deployment.meta.name)
          (p.services.get lb.deployment.meta.namespace lb.deployment.meta.name))
    create_missing_service (lb_service lb) reply

  -- `GetPod` of util/k8sutil.go; a variable that is not set reads as the empty text.
  pod_named : String → Option String → Exec p Pod
  pod_named namespace none = fail (env_not_set pod_name_env_var)
  pod_named namespace (some name) =
      if str_eq name ""
      then fail (env_not_set pod_name_env_var)
      else send (get_pod namespace name) (p.get_pod namespace name)

  -- `myOwnerRef`
  pub my_owner_ref : Exec p OwnerReference
  my_owner_ref = do
    pod ← pod_named (get_operator_namespace p) (p.lookup_env pod_name_env_var)
    pure (record { api_version = "v1"; kind = "Deployment"; name = pod.name; uid = pod.uid })

  -- `lb.Owner, _ = lb.myOwnerRef()`
  pub keep_owner : Result OwnerReference → Exec p (Unit {0})
  keep_owner (ok owner) = do lb ← get_lb; set_lb (record lb { owner = some owner })
  keep_owner (err e) = do lb ← get_lb; set_lb (record lb { owner = none })

  unfoldable pub find_owner : Option Bool → Exec p (Unit {0})
  find_owner none = panic " run mode environment variable not defined"
  find_owner (some true) = pure tt
  find_owner (some false) = do owner ← try my_owner_ref; keep_owner owner

  -- The configuration with the published service, if there is one.
  pub start_config : String → TraefikConfig
  start_config published =
      if str_eq published "" then new_traefik_config else record new_traefik_config {
        providers = record new_traefik_config.providers {
          kubernetes_ingress = record new_traefik_config.providers.kubernetes_ingress {
            ingress_endpoint =
                some (record { ip = ""; hostname = ""; published_service = published });
          };
        };
      }

  unfoldable pub create_config : List (String × String) → Exec p (Unit {0})
  create_config [] =
      must (write_config p (start_config (get_loadbalancer_published_service p)) false)
  create_config (entry ∷ rest) = pure tt

  -- `Start`
  unfoldable pub start : Exec p (Unit {0})
  start = do
    find_owner (is_run_mode_local p)
    must (load_config p)
    lb ← get_lb
    create_config lb.config.entries
    deploy_load_balancer
    deploy_load_balancer_service
