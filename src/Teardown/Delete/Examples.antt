-- ===== src/Teardown/Delete/Examples.antt =====
-- A resource on its own load balancer, which still owes another one its teardown.
use vngcloud_load_balancer_c.Base.{true, [], ◌∷◌, none, some, text}
use vngcloud_load_balancer_c.Api.{
  CreatedListener, CreatedPool, LoadBalancerConfig, RetiringLoadBalancer,
}
use vngcloud_load_balancer_c.Program.Histories.{Meets}
use vngcloud_load_balancer_c.Program.Only.{Only}
use vngcloud_load_balancer_c.Samples.{cluster_a, config, member, settings, spec_of, status_of}
use vngcloud_load_balancer_c.Teardown.Delete.{delete, teardown_retiring_load_balancer}
use vngcloud_load_balancer_c.Teardown.Delete.Grounds.{Guarded}
use vngcloud_load_balancer_c.Teardown.Delete.Retiring.{retiring_stays_within_record}
use vngcloud_load_balancer_c.Teardown.Delete.Safe.{delete_has_grounds}
use vngcloud_load_balancer_c.Teardown.Scope.{stays_within}

abbrev found_listener : CreatedListener
found_listener = record {
  id = text "lis-9";
  port = 443;
  created_policies = record { id = text "pol-9" } ∷ [];
  adopted = true;
  original_default_pool_id = some (text "pool-8");
  original_acl = none;
}

abbrev own_pool : CreatedPool
own_pool = record {
  id = text "pool-9";
  name = text "web";
  created_members = member (text "10.0.0.1") 80 ∷ [];
}

abbrev old : RetiringLoadBalancer
old = record {
  id = text "lb-0";
  created_listeners = found_listener ∷ [];
  created_pools = own_pool ∷ [];
  created_tags = [];
}

abbrev moving : LoadBalancerConfig
moving =
    config (text "web") (spec_of (some cluster_a) none [])
      (record (status_of (some (text "lb-1")) none []) {
        retiring_load_balancer = some old;
        created_pools = own_pool ∷ [];
      })

retiring_stays_within_record_example :
    Only
      (stays_within (text "lb-0") (found_listener ∷ []) (own_pool ∷ []))
      (teardown_retiring_load_balancer settings moving old)
retiring_stays_within_record_example = retiring_stays_within_record settings moving old

delete_has_grounds_example :
    Meets (Guarded moving (text "lb-1")) (λ _ _. Unit {0}) [] (delete settings moving)
delete_has_grounds_example = delete_has_grounds settings moving
