-- ===== src/Cluster/Laws.antt =====
-- Predicates on the ConfigMap of the load balancer that writes of a configuration establish.
use kom_operator.Prelude.{String, ◌≡◌, refl, ap, sym, ◌∙◌, subst, some}
use kom_operator.Dict.{get}
use kom_operator.Errors.{ok}
use kom_operator.Kube.{ConfigMap}
use kom_operator.Traefik.{TraefikConfig, Http}
use kom_operator.Platform.{Platform}
use kom_operator.Exec.{LoadBalancer}
use kom_operator.LoadBalancer.{config_of}
use kom_operator.LoadBalancer.Controller.{raw_config, text_or_empty}
use kom_operator.LoadBalancer.Controller.Held.{StoresConfigs}
use kom_operator.Cluster.{Sound}

pub some_inj : {A : Type 0} {a b : A} → some a ≡ some b → a ≡ b
some_inj e = cc

-- What is asked of a predicate on ConfigMaps that a write is to establish from one on the routing.
pub record Lawful (p : Platform) (L R : ConfigMap → Type 0) (P : Http → Type 0) : Type 0 where
  pub entries : (c d : ConfigMap) → d.entries ≡ c.entries → R c → R d
  pub text :
      (c : ConfigMap) (cfg : TraefikConfig) (text : String)
      → raw_config c ≡ text
      → P cfg.http
      → p.marshal cfg ≡ ok text
      → R c
  pub found : (c : ConfigMap) → R c → L c
  pub decoded :
      (c : ConfigMap) (cfg : TraefikConfig)
      → L c
      → p.unmarshal (raw_config c) ≡ some cfg
      → P cfg.http

module _ (p : Platform) where
  same_raw : (c d : ConfigMap) → d.entries ≡ c.entries → raw_config d ≡ raw_config c
  unfolding raw_config
  same_raw c d e = ap (λ es. text_or_empty (get "traefik.yaml" es)) e

  pub config_of_text : (lb : LoadBalancer) (text : String) → raw_config (config_of p lb text) ≡ text
  unfolding raw_config config_of get text_or_empty
  config_of_text lb text = refl

-- The configuration can be decoded.
abbrev pub Decodes : Platform → ConfigMap → Type 0
Decodes p c = (cfg : TraefikConfig) × (p.unmarshal (raw_config c) ≡ some cfg)

module _ {p : Platform} (v : StoresConfigs p) where
  pub Sound-law : (P : Http → Type 0) → Lawful p (Sound p P) (Sound p P) P
  Sound-law P = record {
    entries = λ c d e h cfg decoded. h cfg (ap p.unmarshal (sym (same_raw p c d e)) ∙ decoded);
    text = λ c cfg text raw h e cfg' decoded.
        subst (λ (c : TraefikConfig). P c.http)
          (some_inj (sym (v.reads_back cfg text e) ∙ (ap p.unmarshal (sym raw) ∙ decoded))) h;
    found = λ c h. h;
    decoded = λ c cfg h e. h cfg e;
  }

  pub Decodes-law : Lawful p (Decodes p) (Decodes p) (λ h. Unit {0})
  Decodes-law = record {
    entries = λ c d e h. (h.0, ap p.unmarshal (same_raw p c d e) ∙ h.1);
    text = λ c cfg text raw h e. (cfg, ap p.unmarshal raw ∙ v.reads_back cfg text e);
    found = λ c h. h;
    decoded = λ c cfg h e. tt;
  }
