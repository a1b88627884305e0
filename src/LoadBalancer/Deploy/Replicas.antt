-- ===== src/LoadBalancer/Deploy/Replicas.antt =====
-- The replica count of the load balancer, from the environment to its deployment.
use kom_operator.Prelude.{◌≡◌, ap, ◌∙◌, some, ℤ, pos, negsuc, to_int32, arith}
use kom_operator.Decimal.{itoa, atoi}
use kom_operator.Decimal.RoundTrip.{Fits, parse_int-itoa}
use kom_operator.Platform.{Platform}
use kom_operator.Exec.{LoadBalancer}
use kom_operator.Util.Env.{get_loadbalancer_replica_count, loadbalancer_replica_count_var}
use kom_operator.LoadBalancer.Deploy.{lb_deployment}

to_int32_id : (n : ℤ) → Fits 32 n → to_int32 n ≡ n
to_int32_id (pos n) h = ground arith
to_int32_id (negsuc n) h = ground arith

Fits-more : (n : ℤ) → Fits 32 n → Fits 64 n
Fits-more (pos n) h = omega arith
Fits-more (negsuc n) h = omega arith

module _ (p : Platform) (n : ℤ) where
  replica_count-itoa :
      Fits 64 n
      → p.lookup_env loadbalancer_replica_count_var ≡ some (itoa n)
      → get_loadbalancer_replica_count p ≡ n
  unfolding get_loadbalancer_replica_count atoi
  replica_count-itoa fits given = rw (given, parse_int-itoa 64 n fits)

  -- A replica count that fits in 32 bits and stands in decimal in the environment is the replica
  -- count of the load balancer's deployment.
  pub lb_deployment-itoa :
      (lb : LoadBalancer)
      → Fits 32 n
      → p.lookup_env loadbalancer_replica_count_var ≡ some (itoa n)
      → (lb_deployment p lb).replicas ≡ some n
  unfolding lb_deployment
  lb_deployment-itoa lb fits given =
      ap (λ k. some (to_int32 k)) (replica_count-itoa (Fits-more n fits) given)
      ∙ ap (λ k. some k) (to_int32_id n fits)
