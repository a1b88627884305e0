-- ===== src/Controller/Reconcile/Updating.antt =====
-- An existing deployment: what becomes of errors when the service is replaced.

use kom_operator.Exec.Inversion.{continue-returns}
use kom_operator.Prelude.{String, refl, ◌∷◌, ◌≡◌, ap, true, false, none}
use kom_operator.Errors.{Error, ok, err}
use kom_operator.Kube.{KubeService}
use kom_operator.Api.{Microservice}
use kom_operator.Platform.{Platform}
use kom_operator.Exec.{
  delete_service, get_service, Sys, returns, fails, panics, pure, send, panic, lift, try, ◌>>=◌,
}
use kom_operator.Controller.Objects.{InstanceObjects}
use kom_operator.Controller.Status.{update_status}
use kom_operator.Controller.Status.Stored.{update_status_lem}
use kom_operator.Controller.Reconcile.{
  nil_pointer, update_deployment_if, replace_service, replace_service_if, renew_service,
  apply_changes,
}

module _ {p : Platform} where
  module _ (instance : Microservice) (o : InstanceObjects) (s u : Sys p) where
    -- When only the service changed and replacing it fails, the changes end without an error, in the
    -- state after the status of a success is stored.
    pub service_error_is_lost :
        (e : Error)
        → replace_service p o.deployment o.service o.routers s ≡ (fails e, u)
        → ((apply_changes p instance o (false, true) s).0 ≡ returns tt)
          × ((apply_changes p instance o (false, true) s).1
              ≡ (update_status p instance (ok tt) u).1)
    unfolding apply_changes update_deployment_if replace_service_if ◌>>=◌ try pure lift
    service_error_is_lost e h =
        let done =
          continue-returns (update_status p instance (ok tt) u) (λ stored. lift (ok tt)) _
            (update_status_lem instance (ok tt) u).0 in
        (rw h (ap (λ r. r.0) done), rw h (ap (λ r. r.1) done))

  -- After the old service is deleted, the missing new one is used.
  pub no_service_panics :
      (instance : Microservice) (o : InstanceObjects) (s : Sys p) (svc : KubeService)
      (namespace name : String)
      → o.deployment.meta.namespace ≡ namespace
      → o.deployment.meta.name ≡ name
      → o.service ≡ none
      → (p.services.get namespace name s.world).0 ≡ ok svc
      → (p.services.delete svc (p.services.get namespace name s.world).1).0 ≡ ok tt
      → ((apply_changes p instance o (false, true) s).0 ≡ panics nil_pointer)
        × ((apply_changes p instance o (false, true) s).1.sent
            ≡ delete_service svc ∷ get_service namespace name ∷ s.sent)
  unfolding apply_changes update_deployment_if replace_service_if replace_service renew_service
      ◌>>=◌ try pure lift send panic
  no_service_panics instance o s svc namespace name own_namespace own_name e found deleted = (
    rw (own_namespace, own_name, found, deleted, e) refl,
    rw (own_namespace, own_name, found, deleted, e) refl,
  )

  -- A service that the server does not give is not replaced.
  pub replace_unread :
      (o : InstanceObjects) (s : Sys p) (e : Error) (namespace name : String)
      → o.deployment.meta.namespace ≡ namespace
      → o.deployment.meta.name ≡ name
      → (p.services.get namespace name s.world).0 ≡ err e
      → replace_service p o.deployment o.service o.routers s ≡ (
        fails e,
        record s {
          world = (p.services.get namespace name s.world).1;
          sent = get_service namespace name ∷ s.sent;
        },
      )
  unfolding replace_service ◌>>=◌ send
  replace_unread o s e namespace name own_namespace own_name refused =
      rw (own_namespace, own_name, refused) refl
