-- ===== src/Teardown/Scope.antt =====
-- What a cleanup of a load balancer may write: listeners, policies and pools of the record.
use vngcloud_load_balancer_c.Base.{Bool, true, false, not, ◌&&◌, List, Text, ◌==◌, text_eq, any}
use vngcloud_load_balancer_c.Api.{CreatedListener, CreatedPolicy, CreatedPool}
use vngcloud_load_balancer_c.Program.{Call}
use vngcloud_load_balancer_c.Teardown.Policies.{policies_of}

abbrev pub is_recorded_pool : List CreatedPool → Text → Bool
is_recorded_pool pools pool_id = any (λ (p : CreatedPool). p.id == pool_id) pools

module _ (lb_id : Text) (listeners : List CreatedListener) (pools : List CreatedPool) where
  -- Listeners that were created go, adopted ones are only updated; a load balancer never goes.
  unfoldable pub stays_within : Call → Bool
  unfolding policies_of
  stays_within (Call.delete_load_balancer _) = false
  stays_within (Call.delete_listener lb id) =
      lb == lb_id && any (λ (l : CreatedListener). l.id == id && not l.adopted) listeners
  stays_within (Call.update_listener lb id _) =
      lb == lb_id && any (λ (l : CreatedListener). l.id == id && l.adopted) listeners
  stays_within (Call.delete_policy lb id policy_id) =
      lb == lb_id && any (λ (p : CreatedPolicy). p.id == policy_id) (policies_of id listeners)
  stays_within (Call.delete_pool lb id) = lb == lb_id && is_recorded_pool pools id
  stays_within (Call.update_pool_members lb id _) = lb == lb_id && is_recorded_pool pools id
  stays_within (Call.create_tags lb _) = lb == lb_id
  stays_within (Call.create_pool _ _) = false
  stays_within (Call.update_pool _ _ _) = false
  stays_within (Call.delete_certificate _) = false
  stays_within (Call.create_policy _ _ _) = false
  stays_within (Call.update_policy _ _ _ _) = false
  stays_within (Call.reorder_policies _ _ _) = false
  stays_within (Call.create_load_balancer _) = false
  stays_within (Call.create_inter_load_balancer _) = false
  stays_within (Call.resize_load_balancer _ _) = false
  stays_within _ = true
