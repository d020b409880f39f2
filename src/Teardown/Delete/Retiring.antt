-- ===== src/Teardown/Delete/Retiring.antt =====
-- The teardown of a load balancer that a resource has moved away from.
use vngcloud_load_balancer_c.Base.{refl, Bool, []}
use vngcloud_load_balancer_c.Api.{LoadBalancerConfig, RetiringLoadBalancer}
use vngcloud_load_balancer_c.Cloud.{LoadBalancerEntity}
use vngcloud_load_balancer_c.Errs.{Result, ok, failed, is_load_balancer_not_found}
use vngcloud_load_balancer_c.Program.{Call, Prog}
use vngcloud_load_balancer_c.Program.Calls.{Settings}
use vngcloud_load_balancer_c.Program.Only.{Only, Only-attempt, Only-bind, Only-if, calls, ended}
use vngcloud_load_balancer_c.Teardown.Delete.{
  teardown_parts, teardown_retiring_load_balancer, unless_gone,
}
use vngcloud_load_balancer_c.Teardown.Listeners.Recorded.{delete_redundant_listeners_from-Only}
use vngcloud_load_balancer_c.Teardown.Pools.Recorded.{delete_redundant_pools_from-Only}
use vngcloud_load_balancer_c.Teardown.Release.Calls.{delete_redundant_tags_from-Only}
use vngcloud_load_balancer_c.Teardown.Scope.{stays_within}

module _ (s : Settings) (lbc : LoadBalancerConfig) where
  unless_gone-Only :
      {t : Call → Bool} {m : Prog (Unit {0})} (r : Result LoadBalancerEntity)
      → Only t m
      → Only t (unless_gone s lbc m r)
  unfolding unless_gone
  unless_gone-Only (ok _) o = o
  unless_gone-Only (failed e) o =
      Only-if (is_load_balancer_not_found s.show_duration e) (λ _. ended _) (λ _. ended _)

  teardown_parts-Only :
      (r : RetiringLoadBalancer)
      → Only (stays_within r.id r.created_listeners r.created_pools) (teardown_parts s lbc r)
  unfolding teardown_parts
  teardown_parts-Only r =
      Only-bind
        (delete_redundant_listeners_from-Only s lbc r.id r.created_listeners r.created_pools [] [])
        (λ _.
          Only-bind
            (delete_redundant_pools_from-Only s lbc r.id r.created_listeners r.created_pools [])
            (λ _. delete_redundant_tags_from-Only lbc r.id r.created_listeners r.created_pools _))

  -- Whatever the cloud and Kubernetes answer, the teardown of a retiring load balancer deletes no
  -- load balancer; it deletes only listeners, policies and pools of its record, of these no
  -- adopted listener, updates only adopted listeners and pools of the record, and writes tags to
  -- the retiring load balancer alone.
  pub retiring_stays_within_record :
      (r : RetiringLoadBalancer)
      → Only
          (stays_within r.id r.created_listeners r.created_pools)
          (teardown_retiring_load_balancer s lbc r)
  unfolding teardown_retiring_load_balancer stays_within
  retiring_stays_within_record r =
      Only-bind (Only-attempt (calls refl (λ e. ended e)))
        (λ e. unless_gone-Only e (teardown_parts-Only r))
