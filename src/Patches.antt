-- ===== src/Patches.antt =====
-- What a reconcile records in the status (internal/usecase/lbc_uc/status.go and deploy_lb.go): each
-- patch is a mutation of the fresh status, `none` where the status needs no patch.
pub mod Resources
use vngcloud_load_balancer_c.Base.{
  ℕ, Bool, true, false, not, ◌&&◌, List, [], ◌∷◌, Option, none, some, Text, ◌==◌, nat_eq, text_eq,
  length, all, if◌then◌else◌, names, ptr_equal,
}
use vngcloud_load_balancer_c.Base.Maps.{Map, get}
use vngcloud_load_balancer_c.Api.{LoadBalancerConfigStatus, PoolMember, RetiringLoadBalancer}
use vngcloud_load_balancer_c.Cloud.{LoadBalancerEntity}
use vngcloud_load_balancer_c.Patches.Resources.{record_policy, record_pool, record_pool_members}

-- `maps.Equal`.
unfoldable pub equal_maps : Map Text → Map Text → Bool
unfolding names
equal_maps a b = length a == length b && all (λ (e : Text × Text). names (get e.0 b) e.1) a

unfoldable pub record_created_tags :
    Map Text → LoadBalancerConfigStatus → Option LoadBalancerConfigStatus
unfolding equal_maps
record_created_tags tags status =
    if equal_maps status.created_tags tags
    then none
    else some (record status { created_tags = tags })

unfoldable pub record_retiring :
    Option RetiringLoadBalancer → LoadBalancerConfigStatus → Option LoadBalancerConfigStatus
record_retiring (some retiring) status =
    some (record status { retiring_load_balancer = some retiring })
record_retiring none status = elim (status.retiring_load_balancer) [
  | none ↦ none
  | some _ ↦ some (record status { retiring_load_balancer = none })
]

unfoldable pub record_load_balancer_id :
    Option Text → Option Text → LoadBalancerConfigStatus → Option LoadBalancerConfigStatus
record_load_balancer_id lb_id address status =
    if ptr_equal status.load_balancer_id lb_id && ptr_equal status.address address
    then none
    else some (record status { load_balancer_id = lb_id; address = address })

unfoldable pub record_created_id : Text → LoadBalancerConfigStatus → Option LoadBalancerConfigStatus
record_created_id lb_id status =
    if names status.created_load_balancer_id lb_id
    then none
    else some (record status { created_load_balancer_id = some lb_id })

unfoldable pub record_adopted_id : Text → LoadBalancerConfigStatus → Option LoadBalancerConfigStatus
record_adopted_id lb_id status =
    if names status.adopted_load_balancer_id lb_id
    then none
    else some (record status { adopted_load_balancer_id = some lb_id })

unfoldable pub clear_created : LoadBalancerConfigStatus → LoadBalancerConfigStatus
clear_created status = record status {
  created_listeners = [];
  created_pools = [];
  created_tags = [];
}

unfoldable pub record_cleared : LoadBalancerConfigStatus → Option LoadBalancerConfigStatus
unfolding clear_created
record_cleared status =
    if length status.created_listeners == 0
      && (length status.created_pools == 0 && length status.created_tags == 0)
    then none
    else some (clear_created status)

-- What `syncLBCStatusFromLoadBalancer` observes: an empty text changes nothing.
unfoldable pub observed : Text → Option Text → Option Text
observed seen recorded = if seen == [] then recorded else some seen

unfoldable pub observe : LoadBalancerEntity → LoadBalancerConfigStatus → LoadBalancerConfigStatus
unfolding observed
observe lb status = record status {
  load_balancer_name = observed lb.name status.load_balancer_name;
  subnet_id =
      observed (if lb.backend_subnet_id == [] then lb.private_subnet_id else lb.backend_subnet_id)
        status.subnet_id;
  type = observed lb.type status.type;
  zone_id = observed lb.zone_id status.zone_id;
}

unfoldable pub record_observed :
    LoadBalancerEntity → LoadBalancerConfigStatus → Option LoadBalancerConfigStatus
unfolding observe
record_observed lb status =
    let seen = observe lb status in
    if ptr_equal seen.load_balancer_name status.load_balancer_name
      && (ptr_equal seen.subnet_id status.subnet_id
          && (ptr_equal seen.type status.type && ptr_equal seen.zone_id status.zone_id))
    then none
    else some seen

pub data Patch : Type 0 where
  created_tags : (tags : Map Text) → Patch
  retiring_load_balancer : (retiring : Option RetiringLoadBalancer) → Patch
  load_balancer_id : (lb_id address : Option Text) → Patch
  created_load_balancer_id adopted_load_balancer_id : (lb_id : Text) → Patch
  cleared : Patch
  load_balancer : (lb : LoadBalancerEntity) → Patch
  pool : (pool_id name : Text) → Patch
  policy : (listener_id : Text) (port : ℕ) (policy_id : Text) → Patch
  pool_members : (pool_id name : Text) (members : List PoolMember) → Patch

-- The mutation that a patch runs.
unfoldable pub mutate : Patch → LoadBalancerConfigStatus → Option LoadBalancerConfigStatus
unfolding record_created_tags record_retiring record_load_balancer_id record_created_id
    record_adopted_id record_cleared record_observed record_pool record_pool_members record_policy
mutate (Patch.created_tags tags) = record_created_tags tags
mutate (Patch.retiring_load_balancer retiring) = record_retiring retiring
mutate (Patch.load_balancer_id lb_id address) = record_load_balancer_id lb_id address
mutate (Patch.created_load_balancer_id lb_id) = record_created_id lb_id
mutate (Patch.adopted_load_balancer_id lb_id) = record_adopted_id lb_id
mutate Patch.cleared = record_cleared
mutate (Patch.load_balancer lb) = record_observed lb
mutate (Patch.pool pool_id name) = record_pool pool_id name
mutate (Patch.policy listener_id port policy_id) = record_policy listener_id port policy_id
mutate (Patch.pool_members pool_id name members) = record_pool_members pool_id name members
