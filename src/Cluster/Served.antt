-- ===== src/Cluster/Served.antt =====
-- Every router of the stored configuration leads to a service that is there.
use kom_operator.Prelude.{String, ◌≡◌, false, none, some}
use kom_operator.Platform.{Platform}
use kom_operator.Traefik.{Http, new_traefik_config}
use kom_operator.Dict.{get}
use kom_operator.Kube.{ConfigMap}
use kom_operator.Exec.{Sys, LoadBalancer, returns}
use kom_operator.LoadBalancer.Init.{init_load_balancer}
use kom_operator.Cluster.Booted.{init-IsFresh}
use kom_operator.Routes.{is_internal}
use kom_operator.Routes.Lifecycle.{IsServed, add_routes-IsServed, remove_routes-IsServed}
use kom_operator.LoadBalancer.Controller.Held.{StoresConfigs}
use kom_operator.Controller.Reconcile.Kept.Interface.{Rules}
use kom_operator.Cluster.{Sound, ConfigStore, Satisfies, requested}
use kom_operator.Cluster.Names.{NamesKept, About, About-writes_config, rules_of}
use kom_operator.Cluster.Config.{leaves-Holds, Keeps-create_router, Keeps-remove_router}
use kom_operator.Cluster.Laws.{Sound-law}
use kom_operator.Cluster.Steps.{Reach, IsFresh, boot, fresh-Satisfies, Reach-Satisfies}
use kom_operator.Exec.{Request}

-- The names of services that Traefik does not provide itself.
abbrev pub IsExternal : String → String → Type 0
IsExternal namespace name = is_internal name ≡ false

initial_IsServed : IsServed new_traefik_config.http
unfolding get
initial_IsServed = record { served = λ k r e. cc }

module _ {p : Platform} {namespace name : String} (store : ConfigStore p namespace name)
    (v : StoresConfigs p) (names : NamesKept p) where
  pub leaves_About :
      (P : Http → Type 0) (Own : String → String → Type 0) (r : Request) (s : Sys p)
      → About Own r
      → Satisfies store P s
      → Satisfies store P (requested p r s)
  leaves_About P Own r s about i =
      leaves-Holds store (Sound-law v P) r s (About-writes_config Own r about) i

  pub IsServed-rules : Rules p (Satisfies store IsServed) IsExternal
  IsServed-rules =
      rules_of names (leaves_About IsServed IsExternal)
        (λ ns n routes external.
          Keeps-create_router store (Sound-law v IsServed) ns n routes
            (λ h served. add_routes-IsServed ns n external routes h served))
        (λ ns n reload external.
          Keeps-remove_router store (Sound-law v IsServed) ns n reload
            (λ h served. remove_routes-IsServed ns n external h served))

  IsServed-Reach :
      (fresh : LoadBalancer) (w : p.World) (t : Sys p)
      → IsFresh store fresh
      → ((c : ConfigMap) → store.held w ≡ some c → Sound p IsServed c)
      → Reach store IsExternal fresh (boot fresh w) t
      → Satisfies store IsServed t
  IsServed-Reach fresh w t f sound path =
      Reach-Satisfies store IsExternal fresh f IsServed v IsServed-rules initial_IsServed path
        (fresh-Satisfies store IsExternal fresh f IsServed (boot fresh w) sound)

-- From a new process, whose load balancer `InitLoadBalancer` made, reconciliations of
-- microservices whose names are not internal, new starts with this load balancer, and changes by
-- other clients to anything but the ConfigMap of the load balancer keep, in any order, that in the
-- stored configuration and in the operator's copy every router leads to a service under its own
-- key that is there, if the stored one was so at first. The empty text decodes to no
-- configuration, the server keeps the ConfigMap as documented, reads of it are not behind, and it
-- answers objects under the names that were asked for, and `Unmarshal` reads what `Marshal` wrote.
pub Reach-IsServed :
    {p : Platform} (title : String) (lb : LoadBalancer)
    (store : ConfigStore p lb.namespace lb.config_name) (w : p.World) (t : Sys p)
    → StoresConfigs p
    → NamesKept p
    → init_load_balancer p title none ≡ returns lb
    → p.unmarshal "" ≡ none
    → ((c : ConfigMap) → store.held w ≡ some c → Sound p IsServed c)
    → Reach store IsExternal lb (boot lb w) t
    → Satisfies store IsServed t
Reach-IsServed title lb store w t v names init empty sound path =
    IsServed-Reach store v names lb w t (init-IsFresh title lb store init empty) sound path
