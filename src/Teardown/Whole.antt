-- ===== src/Teardown/Whole.antt =====
-- The checks of delete_lb.go as programs over the calls: canDeleteWholeLoadBalancer,
-- isLoadBalancerEmpty and canCover (internal/usecase/lbc_uc/delete_lb.go).
pub mod Facts
use vngcloud_load_balancer_c.Base.{
  Bool, true, false, List, [], ◌∷◌, Option, none, some, Text, ◌==◌, text_eq, find?, if◌then◌else◌,
}
use vngcloud_load_balancer_c.Api.{CreatedListener, CreatedPool, LoadBalancerConfig}
use vngcloud_load_balancer_c.Cloud.{ListenerEntity, PoolEntity}
use vngcloud_load_balancer_c.Program.{Prog, ◌>>=◌, ◌>>◌, pure}
use vngcloud_load_balancer_c.Program.Calls.{
  get_pool_members, list_listeners, list_policies, list_pools,
}
use vngcloud_load_balancer_c.Teardown.{covers_members, covers_policies}

-- `canCover`: every item is known, up to the first that is not.
unfoldable pub cover_all : {U : Type 0} → (U → Prog Bool) → List U → Prog Bool
cover_all is_exist [] = pure true
cover_all is_exist (b ∷ small_one) =
    let rest = cover_all is_exist small_one in
    is_exist b >>= λ exist. if exist then rest else pure false

module _ (layer4 : Text) (lbc : LoadBalancerConfig) (lb_id : Text) where
  unfoldable pub ask_policies : Option CreatedListener → Prog Bool
  unfolding covers_policies
  ask_policies none = pure false
  ask_policies (some created) =
      let asked = list_policies lb_id created.id >>= λ policies.
      pure (covers_policies created.created_policies policies) in
      if lbc.spec.type == layer4 then pure true else asked

  unfoldable pub ask_listener : ListenerEntity → Prog Bool
  unfolding ask_policies
  ask_listener b =
      ask_policies (find? (λ (l : CreatedListener). l.id == b.uuid) lbc.status.created_listeners)

  unfoldable pub ask_members : Text → Option CreatedPool → Prog Bool
  unfolding covers_members
  ask_members pool_id none = pure false
  ask_members pool_id (some created) = get_pool_members lb_id pool_id >>= λ members.
      pure (covers_members created.created_members members)

  unfoldable pub ask_pool : PoolEntity → Prog Bool
  unfolding ask_members
  ask_pool b =
      ask_members b.uuid (find? (λ (p : CreatedPool). p.id == b.uuid) lbc.status.created_pools)

  -- The second half, where the listeners are covered.
  unfoldable pub ask_pools : Bool → Prog Bool
  unfolding ask_pool cover_all
  ask_pools covered =
      let pools = list_pools lb_id >>= λ pools. cover_all ask_pool pools in
      if covered then pools else pure false

  unfoldable pub can_delete_whole : Prog Bool
  unfolding ask_listener ask_pools cover_all
  can_delete_whole = do
    listeners ← list_listeners lb_id
    covered ← cover_all ask_listener listeners
    ask_pools covered

unfoldable pub no_pools : List PoolEntity → Bool
no_pools [] = true
no_pools (_ ∷ _) = false

unfoldable pub empty_of : Text → List ListenerEntity → Prog Bool
unfolding no_pools
empty_of lb_id [] = list_pools lb_id >>= λ pools. pure (no_pools pools)
empty_of lb_id (_ ∷ _) = pure false

unfoldable pub is_empty_now : Text → Prog Bool
unfolding empty_of
is_empty_now lb_id = list_listeners lb_id >>= λ listeners. empty_of lb_id listeners
