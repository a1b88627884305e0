-- ===== src/LoadBalancer/Controller/Branches.antt =====
-- How `CreateRouter` and `RemoveRouter` end on every branch, by what they are answered.
use kom_operator.Prelude.{
  String, ◌≡◌, refl, sym, ap, ◌∙◌, subst, Bool, true, false, none, some, List, [], ◌∷◌, ◌++◌,
  Bool-cases, inl, inr, ◌⊎◌, Option, Option-cases,
}
use kom_operator.Errors.{Error, Result, ok, err, is_not_found, Result-cases}
use kom_operator.Kube.{ConfigMap}
use kom_operator.Traefik.{TraefikConfig, Http}
use kom_operator.Platform.{Platform, PatchInterfaceValue}
use kom_operator.Exec.{
  Exec, Sys, Request, Outcome, of_result, returns, fails, panics, get_config_map, update_config_map,
  patch_deployment, get_lb, set_lb, send, try, lift, pure, panic, fail, ◌>>=◌, ◌>>◌,
}
use kom_operator.Routes.{Route, add_routes, remove_routes}
use kom_operator.LoadBalancer.{
  find_existing_object, keep_config, config_of, load_config, write_config, send_config, now,
  reload_patch, reload_deployment,
}
use kom_operator.LoadBalancer.Controller.{
  raw_config, read_config, deref, create_router, remove_router, reload_if,
}
pub mod Runs
pub mod Endings

-- The configuration after the server's answer: the answer, or what was held if there is none.
abbrev pub loaded : Result ConfigMap → ConfigMap → ConfigMap
loaded (ok c) held = c
loaded (err e) held = held

module _ {p : Platform} (s : Sys p) where
  -- The server's answer to the request for the configuration, and its state then.
  abbrev pub answer : Result ConfigMap
  answer = (p.config_maps.get s.lb.namespace s.lb.config_name s.world).0

  abbrev pub asked : p.World
  asked = (p.config_maps.get s.lb.namespace s.lb.config_name s.world).1

  abbrev pub ask : Request
  ask = get_config_map s.lb.namespace s.lb.config_name

  -- The configuration from the text that was loaded.
  abbrev pub decoded : Option TraefikConfig
  decoded = p.unmarshal (raw_config (loaded answer s.lb.config))

  -- What is sent for a text, the answer to it, and the server's state then.
  abbrev pub sends : String → Request
  sends text = update_config_map (config_of p s.lb text)

  abbrev pub update_answer : String → Result ConfigMap
  update_answer text = (p.config_maps.update (config_of p s.lb text) asked).0

  abbrev pub updated : String → p.World
  updated text = (p.config_maps.update (config_of p s.lb text) asked).1

  abbrev pub patch : String → List PatchInterfaceValue
  patch text = reload_patch p (p.now (updated text))

  abbrev pub patch_answer : String → Result (Unit {0})
  patch_answer text = (p.patch_deployment s.lb.deployment (patch text) (updated text)).0

  abbrev pub patched_world : String → p.World
  patched_world text = (p.patch_deployment s.lb.deployment (patch text) (updated text)).1

-- A missing ConfigMap is no error.
abbrev pub IsRead : Result ConfigMap → Type 0
IsRead (ok c) = Unit
IsRead (err e) = is_not_found e ≡ true

-- The configuration could be loaded and decoded, and with its routing changed by `f` has this text.
pub record IsWritten {p : Platform} (f : Http → Http) (s : Sys p) (text : String) : Type 0 where
  pub read : IsRead (answer s)
  pub cfg : TraefikConfig
  pub decodes : decoded s ≡ some cfg
  pub marshals : p.marshal (record cfg { http = f cfg.http }) ≡ ok text

-- The outcome of a change of the routing by `f`, the requests that it sends, the last one first, the
-- configuration that the load balancer then holds, and the server's state.
pub data Ends {p : Platform} (f : Http → Http) (s : Sys p)
    : Bool → Outcome (Unit {0}) → List Request → ConfigMap → p.World → Type 0 where
  unread :
      {b : Bool} (e : Error)
      → answer s ≡ err e
      → is_not_found e ≡ false
      → Ends f s b (fails e) (ask s ∷ []) s.lb.config (asked s)
  undecoded :
      {b : Bool}
      → IsRead (answer s)
      → decoded s ≡ none
      → Ends f s b
          (panics "invalid memory address or nil pointer dereference")
          (ask s ∷ [])
          (loaded (answer s) s.lb.config)
          (asked s)
  unwritable :
      {b : Bool} (cfg : TraefikConfig) (e : Error)
      → IsRead (answer s)
      → decoded s ≡ some cfg
      → p.marshal (record cfg { http = f cfg.http }) ≡ err e
      → Ends f s b (fails e) (ask s ∷ []) (loaded (answer s) s.lb.config) (asked s)
  refused :
      {b : Bool} (text : String) (e : Error)
      → IsWritten f s text
      → update_answer s text ≡ err e
      → Ends f s b (fails e) (sends s text ∷ ask s ∷ []) (config_of p s.lb text) (updated s text)
  stored :
      (text : String) (c : ConfigMap)
      → IsWritten f s text
      → update_answer s text ≡ ok c
      → Ends f s false (returns tt) (sends s text ∷ ask s ∷ []) c (updated s text)
  unpatched :
      (text : String) (c : ConfigMap) (e : Error)
      → IsWritten f s text
      → update_answer s text ≡ ok c
      → patch_answer s text ≡ err e
      → Ends f s true
          (fails e)
          (patch_deployment s.lb.deployment (patch s text) ∷ sends s text ∷ ask s ∷ [])
          c
          (patched_world s text)
  patched :
      (text : String) (c : ConfigMap)
      → IsWritten f s text
      → update_answer s text ≡ ok c
      → patch_answer s text ≡ ok tt
      → Ends f s true
          (returns tt)
          (patch_deployment s.lb.deployment (patch s text) ∷ sends s text ∷ ask s ∷ [])
          c
          (patched_world s text)

-- A run from `s` ended so, and changed nothing but the configuration of the load balancer.
pub record Ended {p : Platform} (f : Http → Http) (reload : Bool) (s : Sys p)
    (r : Outcome (Unit {0}) × Sys p) : Type 0 where
  pub requests : List Request
  pub ends : Ends f s reload r.0 requests r.1.lb.config r.1.world
  pub sent : r.1.sent ≡ requests ++ s.sent
  pub same_lb : r.1.lb ≡ record s.lb { config = r.1.lb.config }
