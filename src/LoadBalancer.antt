-- ===== src/LoadBalancer.antt =====
-- process/loadbalancer.go: the configuration of the load balancer in its ConfigMap, and the reload
-- of its deployment. `Controller` has the routers, `Deploy` the start.
pub mod Controller
pub mod Deploy
pub mod Init
use kom_operator.Prelude.{
  String, Bool, true, false, Option, none, some, List, [], ◌∷◌, pos, if◌then◌else◌,
}
use kom_operator.Errors.{Error, Result, ok, err, is_not_found}
use kom_operator.Kube.{OwnerReference, ConfigMap, Deployment, ObjectMeta, Labels}
use kom_operator.Traefik.{TraefikConfig}
use kom_operator.Platform.{Platform, PatchInterfaceValue}
use kom_operator.Version.{creator}
use kom_operator.Exec.{
  Exec, LoadBalancer, get_config_map, create_config_map, update_config_map, patch_deployment, pure,
  fail, get_lb, set_lb, send, try, lift, ◌>>=◌, ◌>>◌, Sys, returns,
}

abbrev pub traefik_config_file_name : String
traefik_config_file_name = "traefik.yaml"

abbrev pub traefik_image : String
traefik_image = "traefik:v2.5.3"

-- The owner reference that an object gets, if the load balancer has an owner.
abbrev pub owners : Option OwnerReference → List OwnerReference
owners none = []
owners (some owner) = owner ∷ []

-- Metadata as the operator writes it.
abbrev pub new_meta : String → String → Labels → List OwnerReference → ObjectMeta
new_meta name namespace labels references = record {
  name = name;
  namespace = namespace;
  annotations = creator;
  labels = labels;
  owner_references = references;
  finalizers = none;
  deletion_timestamp = none;
  generation = pos 0;
}

module _ {p : Platform} where
  abbrev pub existing : {A : Type 0} → Result A → Exec p (Option A)
  existing (ok object) = pure (some object)
  existing (err e) = if is_not_found e then pure none else fail e

  -- `findExistingObject`: the object that the server has, which the source writes over its argument.
  unfoldable pub find_existing_object : {A : Type 0} → Exec p A → Exec p (Option A)
  find_existing_object get = do reply ← try get; existing reply

module _ (p : Platform) where
  unfoldable pub keep_config : LoadBalancer → Option ConfigMap → Exec p (Unit {0})
  keep_config lb none = pure tt
  keep_config lb (some config) = set_lb (record lb { config = config })

  -- `loadConfig`: a missing ConfigMap is no error, and leaves `lb.Config` as it was.
  unfoldable pub load_config : Exec p (Unit {0})
  load_config = do
    lb ← get_lb
    found ← find_existing_object (
        send (get_config_map lb.namespace lb.config_name)
          (p.config_maps.get lb.namespace lb.config_name))
    keep_config lb found

  unfoldable pub config_of : LoadBalancer → String → ConfigMap
  config_of lb content = record {
    meta =
        new_meta lb.config_name lb.namespace (("provider", "kom-operator") ∷ []) (owners lb.owner);
    entries = (traefik_config_file_name, content) ∷ [];
  }

  unfoldable pub send_config : Bool → ConfigMap → Exec p ConfigMap
  send_config true config = send (update_config_map config) (p.config_maps.update config)
  send_config false config = send (create_config_map config) (p.config_maps.create config)

  -- `writeConfig`
  unfoldable pub write_config : TraefikConfig → Bool → Exec p (Unit {0})
  write_config cfg update = do
    content ← lift (p.marshal cfg)
    lb ← get_lb
    set_lb (record lb { config = config_of lb content })
    stored ← send_config update (config_of lb content)
    set_lb (record lb { config = stored })

  -- `reloadDeployment`: the patched copy is dropped.
  unfoldable pub now : Exec p String
  now s = (returns (p.now s.world), s)

  unfoldable pub reload_patch : String → List PatchInterfaceValue
  reload_patch date =
      record {
        op = "add";
        path = "/spec/template/metadata/annotations";
        value = ("reload-date", date) ∷ [];
      }
      ∷ []

  unfoldable pub reload_deployment : Exec p (Unit {0})
  unfolding now
  reload_deployment = do
    date ← now
    lb ← get_lb
    send (patch_deployment lb.deployment (reload_patch date))
        (p.patch_deployment lb.deployment (reload_patch date))
