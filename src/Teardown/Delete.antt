-- ===== src/Teardown/Delete.antt =====
-- The teardown of a resource (internal/usecase/lbc_uc/delete_lb.go: delete, deleteLoadBalancer and
-- lastClusterOutOf; teardownRetiringLoadBalancer of deploy_lb.go).
pub mod Retiring
pub mod Grounds
pub mod Safe
mod Examples
use vngcloud_load_balancer_c.Base.{
  Bool, true, false, not, ◌&&◌, ◌||◌, List, [], ◌∷◌, Option, none, some, Text, ◌==◌, text_eq,
  if◌then◌else◌, get_or, is_set,
}
use vngcloud_load_balancer_c.Base.Maps.{Map}
use vngcloud_load_balancer_c.Api.{LoadBalancerConfig, RetiringLoadBalancer}
use vngcloud_load_balancer_c.Cloud.{LoadBalancerEntity}
use vngcloud_load_balancer_c.Errs.{Error, Result, ok, failed, is_load_balancer_not_found}
use vngcloud_load_balancer_c.Ownership.{created_by_this_cluster, looks_last_out_of}
use vngcloud_load_balancer_c.Program.{Prog, ◌>>=◌, ◌>>◌, attempt, fail, pure}
use vngcloud_load_balancer_c.Program.Calls.{
  Settings, delete_load_balancer, get_load_balancer, invalidate_tags_cache, list_tags,
}
use vngcloud_load_balancer_c.Status.{status_set_retiring_load_balancer}
use vngcloud_load_balancer_c.Tags.{tags_to_map}
use vngcloud_load_balancer_c.Teardown.Listeners.{delete_redundant_listeners_from}
use vngcloud_load_balancer_c.Teardown.Pools.{delete_redundant_pools_from}
use vngcloud_load_balancer_c.Teardown.Release.{
  delete_redundant_tags_from, load_balancer_has_other_lbc,
}
use vngcloud_load_balancer_c.Teardown.Whole.{can_delete_whole, is_empty_now}

module _ (s : Settings) (lbc : LoadBalancerConfig) where
  -- What is done with a load balancer that may be gone.
  unless_gone : Prog (Unit {0}) → Result LoadBalancerEntity → Prog (Unit {0})
  unless_gone m (ok _) = m
  unless_gone m (failed e) =
      if is_load_balancer_not_found s.show_duration e then pure tt else fail e

  teardown_parts : RetiringLoadBalancer → Prog (Unit {0})
  teardown_parts r = do
    delete_redundant_listeners_from s lbc r.id r.created_listeners [] []
    delete_redundant_pools_from s lbc r.id r.created_pools []
    delete_redundant_tags_from lbc r.id r.created_tags

  unfoldable pub teardown_retiring_load_balancer : RetiringLoadBalancer → Prog (Unit {0})
  unfolding unless_gone teardown_parts
  teardown_retiring_load_balancer r =
      attempt (get_load_balancer r.id) >>= unless_gone (teardown_parts r)

  module _ (lb_id : Text) where
    last_cluster_out_of : Map Text → Prog Bool
    last_cluster_out_of current =
        let asked = load_balancer_has_other_lbc lbc lb_id >>= λ other. pure (not other) in
        if looks_last_out_of lbc current then asked else pure false

    -- A read-through list of the tags.
    read_tags : Prog (Map Text)
    read_tags = do invalidate_tags_cache lb_id; tags ← list_tags lb_id; pure (tags_to_map tags)

    is_ours : Bool → Map Text → Prog Bool
    unfolding last_cluster_out_of
    is_ours created_here current = if created_here then pure true else last_cluster_out_of current

    -- The question asked again, of an empty load balancer that was not created here.
    still_ours : Bool → Bool → Bool → Prog Bool
    unfolding read_tags last_cluster_out_of
    still_ours created_here ours empty =
        let again = do fresh ← read_tags; last_cluster_out_of fresh
        in if empty && not created_here then again else pure ours

    delete_or_release : Bool → Prog (Unit {0})
    delete_or_release gone =
        if gone
        then delete_load_balancer lb_id
        else delete_redundant_tags_from lbc lb_id lbc.status.created_tags

    clear_load_balancer : Bool → Bool → Prog (Unit {0})
    unfolding still_ours delete_or_release is_empty_now
    clear_load_balancer created_here ours = do
      delete_redundant_listeners_from s lbc lb_id lbc.status.created_listeners [] []
      delete_redundant_pools_from s lbc lb_id lbc.status.created_pools []
      empty ← is_empty_now lb_id
      finally_ours ← still_ours created_here ours empty
      delete_or_release (empty && finally_ours)

    delete_whole_or_parts : Bool → Bool → Bool → Prog (Unit {0})
    unfolding clear_load_balancer
    delete_whole_or_parts created_here ours whole =
        if whole && ours then delete_load_balancer lb_id else clear_load_balancer created_here ours

    decide_delete : Prog (Unit {0})
    unfolding read_tags is_ours delete_whole_or_parts can_delete_whole
    decide_delete = do
      current ← read_tags
      let created_here = created_by_this_cluster lbc lb_id current
      ours ← is_ours created_here current
      whole ← can_delete_whole s.layer4 lbc lb_id
      delete_whole_or_parts created_here ours whole

    unfoldable pub delete_load_balancer_of : Prog (Unit {0})
    unfolding unless_gone decide_delete
    delete_load_balancer_of = attempt (get_load_balancer lb_id) >>= unless_gone decide_delete

  delete_retiring : Option RetiringLoadBalancer → Prog (Unit {0})
  unfolding teardown_retiring_load_balancer
  delete_retiring none = pure tt
  delete_retiring (some r) =
      teardown_retiring_load_balancer r >> (status_set_retiring_load_balancer none lbc >> pure tt)

  unfoldable pub delete : Prog (Unit {0})
  unfolding delete_retiring delete_load_balancer_of
  delete = do
    delete_retiring lbc.status.retiring_load_balancer
    if is_set lbc.status.load_balancer_id
        then delete_load_balancer_of (get_or lbc.status.load_balancer_id [])
        else pure tt
