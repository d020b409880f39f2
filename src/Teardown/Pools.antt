-- ===== src/Teardown/Pools.antt =====
-- `deleteRedundantPoolsFrom` (internal/usecase/lbc_uc/delete_pool.go).
pub mod Recorded
use vngcloud_load_balancer_c.Base.{
  Bool, true, false, not, ◌&&◌, List, [], ◌∷◌, ◌++◌, map, Option, none, some, Text, text, ◌==◌,
  text_eq, any, find?, if◌then◌else◌, leb, length,
}
use vngcloud_load_balancer_c.Api.{CreatedPool, LoadBalancerConfig, PoolMember}
use vngcloud_load_balancer_c.Cloud.{
  ListenerEntity, LoadBalancerEntity, MemberEntity, PolicyEntity, PoolEntity,
}
use vngcloud_load_balancer_c.Errs.{Error, Result}
use vngcloud_load_balancer_c.Members.{can_delete_whole_pool, sent_member}
use vngcloud_load_balancer_c.Program.{Prog, ◌>>=◌, ◌>>◌, attempt, pure, wrapping}
use vngcloud_load_balancer_c.Program.Calls.{
  Settings, delete_pool, get_pool_members, list_listeners, list_policies, list_pools,
  update_pool_members, wait_active,
}
use vngcloud_load_balancer_c.Teardown.{convert_member}
use vngcloud_load_balancer_c.Teardown.Busy.{retry_write}
use vngcloud_load_balancer_c.Teardown.Failures.{collect_failure, report}

-- The members recorded for a pool, off the first record of it that has any.
unfoldable pub members_of : Text → List CreatedPool → List PoolMember
members_of pool_id [] = []
members_of pool_id (p ∷ pools) =
    let rest = members_of pool_id pools in
    if p.id == pool_id && leb 1 (length p.created_members) then p.created_members else rest

-- The pools that policies redirect to.
redirects : List PolicyEntity → List Text
redirects [] = []
redirects (p ∷ policies) =
    let rest = redirects policies in
    if p.redirect_pool_id == [] then rest else p.redirect_pool_id ∷ rest

module _ (s : Settings) (lbc : LoadBalancerConfig) (lb_id : Text) where
  policies_on : ListenerEntity → Prog (List PolicyEntity)
  policies_on l =
      if lbc.spec.type == s.layer7
      then wrapping (text "list policies of listener " ++ (l.uuid ++ (text " on LB " ++ lb_id)))
          (list_policies lb_id l.uuid)
      else pure []

  -- `mapPoolInUse`, as a list of ids.
  pools_in_use : List ListenerEntity → Prog (List Text)
  unfolding policies_on redirects
  pools_in_use [] = pure []
  pools_in_use (l ∷ listeners) = do
    policies ← policies_on l
    rest ← pools_in_use listeners
    pure (l.default_pool_id ∷ (redirects policies ++ rest))

  -- A whole pool goes, if it is of no use.
  remove_pool : Text → Prog LoadBalancerEntity
  remove_pool pool_id = do
    wrapping (text "pool " ++ (pool_id ++ text ": delete"))
        (retry_write s lb_id (delete_pool lb_id pool_id))
    wrapping (text "pool " ++ (pool_id ++ text ": wait after delete")) (wait_active lb_id)

  -- The members that are not ours stay.
  shrink_pool : Text → Option (List PoolMember) → Prog (Unit {0})
  shrink_pool pool_id none = pure tt
  shrink_pool pool_id (some members) = do
    wrapping (text "pool " ++ (pool_id ++ text ": update members"))
        (retry_write s lb_id (update_pool_members lb_id pool_id (map sent_member members)))
    wrapping (text "pool " ++ (pool_id ++ text ": wait after update")) (wait_active lb_id)
    pure tt

  clean_decided : Text → Bool → Bool × Option (List PoolMember) → Prog (Unit {0})
  unfolding remove_pool shrink_pool
  clean_decided pool_id in_use (whole, members) =
      if not in_use && whole then remove_pool pool_id >> pure tt else shrink_pool pool_id members

  -- One candidate that is on the load balancer.
  clean_pool : List Text → List PoolMember → List PoolMember → Text → Prog (Unit {0})
  unfolding clean_decided
  clean_pool in_use created wanted pool_id = do
    current ←
        wrapping (text "pool " ++ (pool_id ++ text ": get members"))
          (get_pool_members lb_id pool_id)
    clean_decided pool_id (any (λ u. u == pool_id) in_use)
        (can_delete_whole_pool (map convert_member current) created wanted)

  -- The loop over the candidates: what failed.
  clean_pools :
      List PoolEntity
      → List Text
      → List CreatedPool
      → List CreatedPool
      → List CreatedPool
      → Prog (List Error)
  unfolding clean_pool members_of
  clean_pools current in_use created wanted [] = pure []
  clean_pools current in_use created wanted (p ∷ candidates) =
      let rest = clean_pools current in_use created wanted candidates in
      let both = do
        r ← attempt (clean_pool in_use (members_of p.id created) (members_of p.id wanted) p.id)
        failures ← rest
        pure (collect_failure r failures)
      in if any (λ (c : PoolEntity). c.uuid == p.id) current then both else rest

  unfoldable pub delete_redundant_pools_from : List CreatedPool → List CreatedPool → Prog (Unit {0})
  unfolding pools_in_use clean_pools
  delete_redundant_pools_from created wanted = do
    current ← wrapping (text "list pools of LB " ++ lb_id) (list_pools lb_id)
    listeners ← wrapping (text "list listeners of LB " ++ lb_id) (list_listeners lb_id)
    in_use ← pools_in_use listeners
    failures ← clean_pools current in_use created wanted created
    report failures
