-- ===== src/LoadBalancer/Deploy/Reload.antt =====
-- What the start of the operator does to a load balancer that is there already.
use kom_operator.Prelude.{◌≡◌, List, [], ◌∷◌, ◌++◌, arith, if◌then◌else◌}
use kom_operator.Errors.{Result, ok, err, is_not_found}
use kom_operator.Kube.{Deployment}
use kom_operator.Platform.{Platform}
use kom_operator.Exec.{
  Sys, Request, get_deployment, create_deployment, update_deployment, pure, panic, fail, send, try,
  get_lb, set_lb, ◌>>=◌,
}
use kom_operator.LoadBalancer.{find_existing_object}
use kom_operator.LoadBalancer.Deploy.{
  lb_deployment, deploy_load_balancer, create_or_update, keep_deployment, must, or_panic,
}

module _ {p : Platform} (s : Sys p) where
  abbrev reply : Result Deployment
  reply = (p.deployments.get s.lb.namespace "kom-loadbalancer" s.world).0

  -- The change of the deployment that follows the server's reply.
  pub deployment_change : Result Deployment → List Request
  deployment_change (ok found) = update_deployment found ∷ []
  deployment_change (err e) =
      if is_not_found e then create_deployment (lb_deployment p s.lb) ∷ [] else []

  -- `deployLoadBalancer` asks for the deployment and sends at most one change: a missing one is
  -- created as the operator builds it, one that is there is sent back as it was found, so that
  -- neither the replica count nor the image of the operator reaches it, and after another error
  -- nothing is sent.
  pub deploy_sends :
      (deploy_load_balancer p s).1.sent
      ≡ deployment_change reply ++ get_deployment s.lb.namespace "kom-loadbalancer" ∷ s.sent
  unfolding deploy_load_balancer create_or_update keep_deployment must or_panic find_existing_object
      deployment_change ◌>>=◌ send try pure panic fail get_lb set_lb
  deploy_sends = ground arith
