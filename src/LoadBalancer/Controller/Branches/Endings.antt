-- ===== src/LoadBalancer/Controller/Branches/Endings.antt =====
-- A change of the routing ends as its answers say.
use kom_operator.Prelude.{
  String, ◌≡◌, refl, sym, ◌∙◌, subst, Bool, true, false, some, List, [], ◌∷◌, inl, inr,
  Option-cases,
}
use kom_operator.Errors.{Error, ok, err, Result-cases}
use kom_operator.Kube.{ConfigMap}
use kom_operator.Traefik.{TraefikConfig, Http}
use kom_operator.Platform.{Platform}
use kom_operator.Exec.{Exec, Sys, returns, fails, panics, patch_deployment, ◌>>=◌}
use kom_operator.Routes.{Route, add_routes, remove_routes}
use kom_operator.LoadBalancer.{config_of}
use kom_operator.LoadBalancer.Controller.{read_config, create_router, remove_router, reload_if}
use kom_operator.LoadBalancer.Controller.Branches.{
  answer, ask, decoded, sends, update_answer, updated, patch, patch_answer, IsRead, IsWritten, Ends,
  Ended,
}
use kom_operator.LoadBalancer.Controller.Branches.Runs.{
  after_read, read_run, read_fails, IsRead-cases, deref-some, deref-none, write_unwritable,
  write_refused, write_stored, reload_patched, reload_none, write_and_reload,
}

module _ {p : Platform} (f : Http → Http) (s : Sys p) where
  abbrev changed : TraefikConfig → TraefikConfig
  changed cfg = record cfg { http = f cfg.http }

  abbrev change : Bool → Exec p (Unit {0})
  change reload = read_config p >>= λ cfg. write_and_reload p (changed cfg) reload

  change_unread :
      (reload : Bool) (r : Sys p) (e : Error)
      → read_config p s ≡ (fails e, r)
      → change reload s ≡ (fails e, r)
  unfolding ◌>>=◌
  change_unread reload r e h = rw h refl

  change_panics :
      (reload : Bool) (reason : String)
      → read_config p s ≡ (panics reason, after_read s)
      → change reload s ≡ (panics reason, after_read s)
  unfolding ◌>>=◌
  change_panics reload reason h = rw h refl

  change_read :
      (reload : Bool) (cfg : TraefikConfig)
      → read_config p s ≡ (returns cfg, after_read s)
      → change reload s ≡ write_and_reload p (changed cfg) reload (after_read s)
  unfolding ◌>>=◌
  change_read reload cfg h = rw h refl

  reload_ends :
      (reload : Bool) (text : String) (c : ConfigMap)
      → IsWritten f s text
      → update_answer s text ≡ ok c
      → Ended f reload s (
          reload_if p reload (record s {
            world = updated s text;
            sent = sends s text ∷ ask s ∷ s.sent;
            lb = record s.lb { config = c };
          }))
  reload_ends false text c written e =
      subst (Ended f false s)
        (sym (
          reload_none s (record s {
            world = updated s text;
            sent = sends s text ∷ ask s ∷ s.sent;
            lb = record s.lb { config = c };
          })))
        record {
          requests = sends s text ∷ ask s ∷ [];
          ends = Ends.stored text c written e;
          sent = refl;
          same_lb = refl;
        }
  reload_ends true text c written e = elim (Result-cases (patch_answer s text)) [
    | inl (done, e') ↦ subst (Ended f true s) (sym (reload_patched s _ (ok tt) e')) record {
      requests = patch_deployment s.lb.deployment (patch s text) ∷ sends s text ∷ ask s ∷ [];
      ends = Ends.patched text c written e e';
      sent = refl;
      same_lb = refl;
    }
    | inr (reason, e') ↦ subst (Ended f true s) (sym (reload_patched s _ (err reason) e')) record {
      requests = patch_deployment s.lb.deployment (patch s text) ∷ sends s text ∷ ask s ∷ [];
      ends = Ends.unpatched text c reason written e e';
      sent = refl;
      same_lb = refl;
    }
  ]

  update_ends :
      (reload : Bool) (cfg : TraefikConfig) (text : String)
      → IsRead (answer s)
      → decoded s ≡ some cfg
      → p.marshal (changed cfg) ≡ ok text
      → Ended f reload s (write_and_reload p (changed cfg) reload (after_read s))
  unfolding config_of
  update_ends reload cfg text read decodes marshals =
      let written : IsWritten f s text = record {
        read = read;
        cfg = cfg;
        decodes = decodes;
        marshals = marshals;
      } in
      elim (Result-cases (update_answer s text)) [
        | inl (c, e) ↦
            subst (Ended f reload s)
              (sym (write_stored s (changed cfg) reload (after_read s) text c marshals e))
              (reload_ends reload text c written e)
        | inr (e, eq) ↦
            subst (Ended f reload s)
              (sym (write_refused s (changed cfg) reload (after_read s) text e marshals eq))
              record {
                requests = sends s text ∷ ask s ∷ [];
                ends = Ends.refused text e written eq;
                sent = refl;
                same_lb = refl;
              }
      ]

  write_ends :
      (reload : Bool) (cfg : TraefikConfig)
      → IsRead (answer s)
      → decoded s ≡ some cfg
      → Ended f reload s (write_and_reload p (changed cfg) reload (after_read s))
  write_ends reload cfg read decodes = elim (Result-cases (p.marshal (changed cfg))) [
    | inl (text, e) ↦ update_ends reload cfg text read decodes e
    | inr (e, eq) ↦
        subst (Ended f reload s) (sym (write_unwritable s (changed cfg) reload (after_read s) e eq))
          record {
            requests = ask s ∷ [];
            ends = Ends.unwritable cfg e read decodes eq;
            sent = refl;
            same_lb = refl;
          }
  ]

  decode_ends : (reload : Bool) → IsRead (answer s) → Ended f reload s (change reload s)
  decode_ends reload read = elim (Option-cases (decoded s)) [
    | inl e ↦
        subst (Ended f reload s) (sym (change_panics reload _ (read_run s read ∙ deref-none s e)))
          record {
            requests = ask s ∷ [];
            ends = Ends.undecoded read e;
            sent = refl;
            same_lb = refl;
          }
    | inr (cfg, e) ↦
        subst (Ended f reload s)
          (sym (change_read reload cfg (read_run s read ∙ deref-some s cfg e)))
          (write_ends reload cfg read e)
  ]

  change_ends : (reload : Bool) → Ended f reload s (change reload s)
  change_ends reload = elim (IsRead-cases s) [
    | inl (e, eq, other) ↦
        subst (Ended f reload s) (sym (change_unread reload _ e (read_fails s e eq other))) record {
          requests = ask s ∷ [];
          ends = Ends.unread e eq other;
          sent = refl;
          same_lb = refl;
        }
    | inr read ↦ decode_ends reload read
  ]

module _ {p : Platform} (namespace service : String) (s : Sys p) where
  -- `CreateRouter` takes one of the courses of `Ends`, by what it is answered. It asks for the
  -- configuration and fails if that fails, but for a missing one. The answer is decoded, or what
  -- the process held if there is none, and a configuration that does not decode is a panic. With
  -- the routes added it is written as a text and sent, and the load balancer then holds the
  -- server's reply, or what was sent if it was refused. Then the deployment is patched, and the
  -- result is that of the patch. It sends no other request, the server is in the state after
  -- these, and of the load balancer only the configuration changes.
  pub create_router-Ended :
      (routes : List Route)
      → Ended
          (add_routes namespace service routes)
          true
          s
          (create_router p namespace service routes s)
  unfolding create_router reload_if
  create_router-Ended routes = change_ends (add_routes namespace service routes) s true

  -- `RemoveRouter` takes one of the courses of `Ends`, by what it is answered: those of
  -- `CreateRouter` with the routes removed in place of added, and without the patch of the
  -- deployment, as a success, if no reload is asked for.
  pub remove_router-Ended :
      (reload : Bool)
      → Ended
          (remove_routes namespace service)
          reload
          s
          (remove_router p namespace service reload s)
  unfolding remove_router
  remove_router-Ended reload = change_ends (remove_routes namespace service) s reload
