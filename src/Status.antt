-- ===== src/Status.antt =====
-- The records of a reconcile as programs (internal/usecase/lbc_uc/status.go). Where the source
-- mirrors a record in the resource that the task holds, the program gives the resource back.
use vngcloud_load_balancer_c.Base.{
  ◌≡◌, ℕ, Bool, true, List, [], Option, some, Text, text, ◌==◌, text_eq, if◌then◌else◌,
}
use vngcloud_load_balancer_c.Base.Maps.{Map}
use vngcloud_load_balancer_c.Api.{LoadBalancerConfig, PoolMember, RetiringLoadBalancer}
use vngcloud_load_balancer_c.Errs.{Error}
use vngcloud_load_balancer_c.Patches.{Patch, clear_created}
use vngcloud_load_balancer_c.Program.{Call, Prog, ◌>>◌, fail, pure}
use vngcloud_load_balancer_c.Program.Calls.{patch_status}
use vngcloud_load_balancer_c.Program.Only.{Only, Only-bind, calls, ended}

pub status_add_created_tags : Map Text → Prog (Unit {0})
status_add_created_tags tags = patch_status (Patch.created_tags tags) >> pure tt

unfoldable pub status_set_retiring_load_balancer :
    Option RetiringLoadBalancer → LoadBalancerConfig → Prog LoadBalancerConfig
status_set_retiring_load_balancer retiring lbc = do
  patch_status (Patch.retiring_load_balancer retiring)
  pure (record lbc { status = record lbc.status { retiring_load_balancer = retiring } })

unfoldable pub status_add_load_balancer_id : Option Text → Option Text → Prog (Unit {0})
status_add_load_balancer_id lb_id address =
    patch_status (Patch.load_balancer_id lb_id address) >> pure tt

unfoldable pub status_set_created_load_balancer_id :
    Text → LoadBalancerConfig → Prog LoadBalancerConfig
status_set_created_load_balancer_id lb_id lbc = do
  patch_status (Patch.created_load_balancer_id lb_id)
  pure (record lbc { status = record lbc.status { created_load_balancer_id = some lb_id } })

unfoldable pub status_set_adopted_load_balancer_id :
    Text → LoadBalancerConfig → Prog LoadBalancerConfig
status_set_adopted_load_balancer_id lb_id lbc = do
  patch_status (Patch.adopted_load_balancer_id lb_id)
  pure (record lbc { status = record lbc.status { adopted_load_balancer_id = some lb_id } })

unfoldable pub status_clear_created_resources : LoadBalancerConfig → Prog LoadBalancerConfig
unfolding clear_created
status_clear_created_resources lbc = do
  patch_status Patch.cleared
  pure (record lbc { status = clear_created lbc.status })

unfoldable pub status_add_policy : Text → ℕ → Text → Prog (Unit {0})
status_add_policy listener_id port policy_id =
    let write = patch_status (Patch.policy listener_id port policy_id) >> pure tt in
    if policy_id == []
    then fail (Error.plain (text "policy has no id after create, need to retry"))
    else write

unfoldable pub status_add_pool : Text → Text → Prog (Unit {0})
status_add_pool pool_id name =
    let write = patch_status (Patch.pool pool_id name) >> pure tt in
    if pool_id == []
    then fail (Error.plain (text "pool has no id after create, need to retry"))
    else write

unfoldable pub status_add_pool_member : Text → Text → List PoolMember → Prog (Unit {0})
status_add_pool_member pool_id name members =
    patch_status (Patch.pool_members pool_id name members) >> pure tt

pub status_add_created_tags-Only :
    {t : Call → Bool} (tags : Map Text)
    → ((p : Patch) → t (Call.patch_status p) ≡ true)
    → Only t (status_add_created_tags tags)
unfolding status_add_created_tags
status_add_created_tags-Only tags p = Only-bind (calls (p _) (λ r. ended r)) (λ _. ended _)

pub status_set_retiring_load_balancer-Only :
    {t : Call → Bool} (retiring : Option RetiringLoadBalancer) (lbc : LoadBalancerConfig)
    → ((p : Patch) → t (Call.patch_status p) ≡ true)
    → Only t (status_set_retiring_load_balancer retiring lbc)
unfolding status_set_retiring_load_balancer
status_set_retiring_load_balancer-Only retiring lbc p =
    Only-bind (calls (p _) (λ r. ended r)) (λ _. ended _)
