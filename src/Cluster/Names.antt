-- ===== src/Cluster/Names.antt =====
-- The rules of a reconciliation, from what single requests keep and from the names of the objects
-- that the server answers.
use mathlib.Core.Path.{subst₂}
use kom_operator.Prelude.{String, Bool, false, ◌≡◌, refl, sym, List}
use kom_operator.Controller.Reconcile.{update_instance}
use kom_operator.Errors.{ok}
use kom_operator.Kube.{ObjectMeta, Deployment, KubeService, HorizontalPodAutoscaler}
use kom_operator.Api.{Microservice}
use kom_operator.Platform.{Platform, Calls}
use kom_operator.Routes.{Route}
use kom_operator.Exec.{
  Sys, Request, get_microservice, get_deployment, get_service, get_config_map, get_scaler, get_pod,
  update_microservice, update_status, create_deployment, update_deployment, patch_deployment,
  create_service, delete_service, create_config_map, update_config_map, create_scaler,
  update_scaler, delete_scaler,
}
use kom_operator.Exec.Keeps.{Keeps, Any, Keeps-send}
use kom_operator.AutoScaling.Kept.{OwnMeta, KeepsNames, ScalerRules}
use kom_operator.LoadBalancer.Controller.{create_router, remove_router}
use kom_operator.Controller.Reconcile.Kept.Interface.{Rules}
use kom_operator.Cluster.{world_after, requested, writes_config}

-- The same object, by its name.
abbrev pub Same : ObjectMeta → ObjectMeta → Type 0
Same a b = (a.namespace ≡ b.namespace) × (a.name ≡ b.name)

-- The server answers the object that was asked for, or the one that was sent.
pub record Named {W T : Type 0} (meta : T → ObjectMeta) (calls : Calls W T) : Type 0 where
  pub get :
      (namespace name : String) (w : W) (x : T)
      → (calls.get namespace name w).0 ≡ ok x
      → ((meta x).namespace ≡ namespace) × ((meta x).name ≡ name)
  pub create : (x y : T) (w : W) → (calls.create x w).0 ≡ ok y → Same (meta y) (meta x)
  pub update : (x y : T) (w : W) → (calls.update x w).0 ≡ ok y → Same (meta y) (meta x)

pub record NamesKept (p : Platform) : Type 0 where
  pub owners : KeepsNames p
  pub microservices : Named (λ (m : Microservice). m.meta) p.microservices
  pub status :
      (m n : Microservice) (w : p.World) → (p.update_status m w).0 ≡ ok n → Same n.meta m.meta
  pub deployments : Named (λ (d : Deployment). d.meta) p.deployments
  pub services : Named (λ (s : KubeService). s.meta) p.services
  pub scalers : Named (λ (h : HorizontalPodAutoscaler). h.meta) p.scalers

-- The request is about an object that may be touched. Those of the load balancer are apart.
abbrev pub About : (String → String → Type 0) → Request → Type 0
About Own (get_microservice namespace name) = Own namespace name
About Own (get_deployment namespace name) = Own namespace name
About Own (get_service namespace name) = Own namespace name
About Own (get_scaler namespace name) = Own namespace name
About Own (update_microservice m) = OwnMeta Own m.meta
About Own (update_status m) = OwnMeta Own m.meta
About Own (create_deployment d) = OwnMeta Own d.meta
About Own (update_deployment d) = OwnMeta Own d.meta
About Own (create_service s) = OwnMeta Own s.meta
About Own (delete_service s) = OwnMeta Own s.meta
About Own (create_scaler h) = OwnMeta Own h.meta
About Own (update_scaler h) = OwnMeta Own h.meta
About Own (delete_scaler h) = OwnMeta Own h.meta
About Own (get_config_map namespace name) = ⊥
About Own (get_pod namespace name) = ⊥
About Own (patch_deployment d patch) = ⊥
About Own (create_config_map c) = ⊥
About Own (update_config_map c) = ⊥

pub About-writes_config :
    (Own : String → String → Type 0) (r : Request) → About Own r → writes_config r ≡ false
About-writes_config Own (create_config_map c) h = absurd h
About-writes_config Own (update_config_map c) h = absurd h
About-writes_config Own _ h = refl

module _ {p : Platform} (v : NamesKept p) {I : Sys p → Type 0} {Own : String → String → Type 0}
    (sends : (r : Request) (s : Sys p) → About Own r → I s → I (requested p r s)) where
  own_same : (a b : ObjectMeta) → Same a b → OwnMeta Own b → OwnMeta Own a
  own_same a b (namespace, name) own = subst₂ Own (sym namespace) (sym name) own

  scaler_rules : ScalerRules p I Own
  unfolding world_after
  scaler_rules = record {
    get = λ namespace name own.
        Keeps-send _ _ (λ s i. sends (get_scaler namespace name) s own i)
          (λ s i h e.
            let (a, b) = v.scalers.get namespace name s.world h e in
            subst₂ Own (sym a) (sym b) own);
    create = λ h own. Keeps-send _ _ (λ s i. sends (create_scaler h) s own i) (λ s i a e. tt);
    update = λ h own. Keeps-send _ _ (λ s i. sends (update_scaler h) s own i) (λ s i a e. tt);
    delete = λ h own. Keeps-send _ _ (λ s i. sends (delete_scaler h) s own i) (λ s i a e. tt);
  }

  -- With the rules for the routes, those of the requests are the rules of a reconciliation.
  pub rules_of :
      ((namespace name : String) (routes : List Route)
        → Own namespace name
        → Keeps I (create_router p namespace name routes) Any)
      → ((namespace name : String) (reload : Bool)
          → Own namespace name
          → Keeps I (remove_router p namespace name reload) Any)
      → Rules p I Own
  unfolding world_after update_instance
  rules_of creates removes = record {
    names = v.owners;
    scalers = scaler_rules;
    get_microservice = λ namespace name own.
        Keeps-send _ _ (λ s i. sends (get_microservice namespace name) s own i)
          (λ s i m e.
            let (a, b) = v.microservices.get namespace name s.world m e in
            subst₂ Own (sym a) (sym b) own);
    update_instance = λ m own.
        Keeps-send _ _ (λ s i. sends (update_microservice m) s own i)
          (λ s i n e. own_same n.meta m.meta (v.microservices.update m n s.world e) own);
    update_status = λ m own.
        Keeps-send _ _ (λ s i. sends (update_status m) s own i)
          (λ s i n e. own_same n.meta m.meta (v.status m n s.world e) own);
    get_deployment = λ namespace name own.
        Keeps-send _ _ (λ s i. sends (get_deployment namespace name) s own i)
          (λ s i d e.
            let (a, b) = v.deployments.get namespace name s.world d e in
            subst₂ Own (sym a) (sym b) own);
    create_deployment = λ d own.
        Keeps-send _ _ (λ s i. sends (create_deployment d) s own i)
          (λ s i e x. own_same e.meta d.meta (v.deployments.create d e s.world x) own);
    update_deployment = λ d own.
        Keeps-send _ _ (λ s i. sends (update_deployment d) s own i)
          (λ s i e x. own_same e.meta d.meta (v.deployments.update d e s.world x) own);
    get_service = λ namespace name own.
        Keeps-send _ _ (λ s i. sends (get_service namespace name) s own i)
          (λ s i x e.
            let (a, b) = v.services.get namespace name s.world x e in
            subst₂ Own (sym a) (sym b) own);
    create_service = λ x own.
        Keeps-send _ _ (λ s i. sends (create_service x) s own i)
          (λ s i y e. own_same y.meta x.meta (v.services.create x y s.world e) own);
    delete_service =
        λ x own. Keeps-send _ _ (λ s i. sends (delete_service x) s own i) (λ s i y e. tt);
    create_router = creates;
    remove_router = removes;
  }
