-- ===== src/Cluster/Steps.antt =====
-- The steps of the system: reconciliations in any order, what other clients do in between, and new
-- starts of the operator's process.
use kom_operator.Prelude.{String, ◌≡◌, sym, ◌∙◌, none, some, []}
use kom_operator.Platform.{Platform}
use kom_operator.Traefik.{Http, new_traefik_config}
use kom_operator.Exec.{Sys, LoadBalancer}
use kom_operator.LoadBalancer.Controller.{raw_config}
use kom_operator.LoadBalancer.Controller.Held.{StoresConfigs}
use kom_operator.LoadBalancer.Deploy.{start}
use kom_operator.LoadBalancer.Deploy.Kept.{Keeps-start}
use kom_operator.Controller.Reconcile.{reconcile}
use kom_operator.Controller.Reconcile.Kept.Interface.{Rules}
use kom_operator.Controller.Reconcile.Kept.{Keeps-reconcile}
use kom_operator.Cluster.Laws.{Sound-law}
use kom_operator.Cluster.{ConfigStore, Satisfies, Sound}

-- The system as a new process finds it.
abbrev pub boot : {p : Platform} → LoadBalancer → p.World → Sys p
boot fresh w = record { world = w; sent = []; lb = fresh }

module _ {p : Platform} {namespace name : String} (store : ConfigStore p namespace name)
    (fresh : LoadBalancer) where
  -- The load balancer of a new process: it has its name, and no configuration yet.
  pub record IsFresh : Type 0 where
    pub namespace_fresh : fresh.namespace ≡ namespace
    pub name_fresh : fresh.config_name ≡ name
    pub no_config : p.unmarshal (raw_config fresh.config) ≡ none

module _ {p : Platform} {namespace name : String} (store : ConfigStore p namespace name)
    (Own : String → String → Type 0) (fresh : LoadBalancer) where
  -- One microservice is reconciled, whatever the outcome; another client changes the server's state
  -- and leaves the ConfigMap of the load balancer alone; or a new process starts.
  pub data Step (s : Sys p) : Sys p → Type 0 where
    reconciles : (ns n : String) → Own ns n → Step s (reconcile p ns n s).1
    others : (w : p.World) → store.held w ≡ store.held s.world → Step s (record s { world = w })
    restarts : Step s (start p (record s { lb = fresh })).1

  pub data Reach (s : Sys p) : Sys p → Type 0 where
    here : Reach s s
    next : {t u : Sys p} → Reach s t → Step t u → Reach s u

  module _ (f : IsFresh store fresh) (P : Http → Type 0) where
    fresh-Sound : Sound p P fresh.config
    fresh-Sound cfg e = absurd (cc (f.no_config, e))

    pub fresh-Satisfies :
        (s : Sys p)
        → ((c : _) → store.held s.world ≡ some c → Sound p P c)
        → Satisfies store P (record s { lb = fresh })
    fresh-Satisfies s remote = record {
      namespace_kept = f.namespace_fresh;
      name_kept = f.name_fresh;
      local = fresh-Sound;
      remote = remote;
    }

    module _ (v : StoresConfigs p) (r : Rules p (Satisfies store P) Own)
        (initial : P new_traefik_config.http) where
      Step-Satisfies : {s t : Sys p} → Step s t → Satisfies store P s → Satisfies store P t
      Step-Satisfies {s = s} (reconciles ns n own) i = (Keeps-reconcile r ns n own).state s i
      Step-Satisfies (others w same) i = record {
        namespace_kept = i.namespace_kept;
        name_kept = i.name_kept;
        local = i.local;
        remote = λ c e. i.remote c (sym same ∙ e);
      }
      Step-Satisfies {s = s} restarts i =
          (Keeps-start store (Sound-law v P) initial).state (record s { lb = fresh })
            (fresh-Satisfies s i.remote)

      pub Reach-Satisfies : {s t : Sys p} → Reach s t → Satisfies store P s → Satisfies store P t
      Reach-Satisfies here i = i
      Reach-Satisfies (next path step) i = Step-Satisfies step (Reach-Satisfies path i)
