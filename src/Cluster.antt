-- ===== src/Cluster.antt =====
-- The operator among the other clients of the API server: what it relies on, and how the system of
-- the server and the operator's process moves.
pub mod Names
pub mod Laws
pub mod Config
pub mod Steps
pub mod Booted
pub mod Served
pub mod Isolation
pub mod Calm
pub mod Started
pub mod Resting
use kom_operator.Prelude.{String, ◌≡◌, Bool, true, false, Option, none, some, List, ◌∷◌, ◌⊎◌}
use kom_operator.Errors.{Error, Result, ok, err}
use kom_operator.Kube.{ConfigMap}
use kom_operator.Traefik.{TraefikConfig, Http}
use kom_operator.Platform.{Platform}
use kom_operator.Exec.{
  Sys, Request, get_microservice, get_deployment, get_service, get_config_map, get_scaler, get_pod,
  update_microservice, update_status, create_deployment, update_deployment, patch_deployment,
  create_service, delete_service, create_config_map, update_config_map, create_scaler,
  update_scaler, delete_scaler,
}
use kom_operator.LoadBalancer.Controller.{raw_config}

module _ (p : Platform) where
  -- The server's state after a request.
  unfoldable pub world_after : Request → p.World → p.World
  world_after (get_microservice namespace name) w = (p.microservices.get namespace name w).1
  world_after (get_deployment namespace name) w = (p.deployments.get namespace name w).1
  world_after (get_service namespace name) w = (p.services.get namespace name w).1
  world_after (get_config_map namespace name) w = (p.config_maps.get namespace name w).1
  world_after (get_scaler namespace name) w = (p.scalers.get namespace name w).1
  world_after (get_pod namespace name) w = (p.get_pod namespace name w).1
  world_after (update_microservice m) w = (p.microservices.update m w).1
  world_after (update_status m) w = (p.update_status m w).1
  world_after (create_deployment d) w = (p.deployments.create d w).1
  world_after (update_deployment d) w = (p.deployments.update d w).1
  world_after (patch_deployment d patch) w = (p.patch_deployment d patch w).1
  world_after (create_service s) w = (p.services.create s w).1
  world_after (delete_service s) w = (p.services.delete s w).1
  world_after (create_config_map c) w = (p.config_maps.create c w).1
  world_after (update_config_map c) w = (p.config_maps.update c w).1
  world_after (create_scaler h) w = (p.scalers.create h w).1
  world_after (update_scaler h) w = (p.scalers.update h w).1
  world_after (delete_scaler h) w = (p.scalers.delete h w).1

  -- The system after a request, whatever the reply.
  abbrev pub requested : Request → Sys p → Sys p
  requested r s = record s { world = world_after r s.world; sent = r ∷ s.sent }

-- The requests that write a ConfigMap.
abbrev pub writes_config : Request → Bool
writes_config (create_config_map c) = true
writes_config (update_config_map c) = true
writes_config _ = false

-- A write of `c` that was answered by `reply` and left `now` where `before` was: after a success the
-- server holds the object that it answers, with the entries that were sent; after an error it may
-- or may not have stored them.
abbrev pub Written : ConfigMap → Result ConfigMap → Option ConfigMap → Option ConfigMap → Type 0
Written c (ok d) before now = (now ≡ some d) × (d.entries ≡ c.entries)
Written c (err e) before now =
    (now ≡ before) ⊎ ((d : ConfigMap) × (now ≡ some d) × (d.entries ≡ c.entries))

-- What the API server documents of one ConfigMap: reads give what it holds, writes replace it, and
-- requests about other kinds of objects leave it alone.
pub record ConfigStore (p : Platform) (namespace name : String) : Type 0 where
  pub held : p.World → Option ConfigMap
  pub replies :
      (w : p.World) (c : ConfigMap)
      → (p.config_maps.get namespace name w).0 ≡ ok c
      → held w ≡ some c
  pub leaves :
      (r : Request) (w : p.World) → writes_config r ≡ false → held (world_after p r w) ≡ held w
  pub updates :
      (c : ConfigMap) (w : p.World)
      → c.meta.namespace ≡ namespace
      → c.meta.name ≡ name
      → Written c (p.config_maps.update c w).0 (held w) (held (p.config_maps.update c w).1)
  pub creates :
      (c : ConfigMap) (w : p.World)
      → c.meta.namespace ≡ namespace
      → c.meta.name ≡ name
      → Written c (p.config_maps.create c w).0 (held w) (held (p.config_maps.create c w).1)

module _ (p : Platform) (P : Http → Type 0) where
  -- If the ConfigMap holds a configuration, its routing satisfies `P`.
  abbrev pub Sound : ConfigMap → Type 0
  Sound c = (cfg : TraefikConfig) → p.unmarshal (raw_config c) ≡ some cfg → P cfg.http

-- The process's copy of the ConfigMap satisfies `L`, the one that the server holds `R`, and the load
-- balancer has its name.
pub record Copies {p : Platform} {namespace name : String} (store : ConfigStore p namespace name)
    (L R : ConfigMap → Type 0) (s : Sys p) : Type 0 where
  pub namespace_kept : s.lb.namespace ≡ namespace
  pub name_kept : s.lb.config_name ≡ name
  pub local : L s.lb.config
  pub remote : (c : ConfigMap) → store.held s.world ≡ some c → R c

abbrev pub Holds :
    {p : Platform} {namespace name : String}
    → ConfigStore p namespace name
    → (ConfigMap → Type 0)
    → Sys p
    → Type 0
Holds store C = Copies store C C

-- The routing of both configurations satisfies `P`, as far as they can be decoded.
abbrev pub Satisfies :
    {p : Platform} {namespace name : String}
    → ConfigStore p namespace name
    → (Http → Type 0)
    → Sys p
    → Type 0
Satisfies {p = p} store P = Holds store (Sound p P)
