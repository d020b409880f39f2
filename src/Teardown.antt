-- ===== src/Teardown.antt =====
-- What must be gone before a load balancer is deleted (internal/usecase/lbc_uc/delete_lb.go:
-- canCover, canDeleteWholeLoadBalancer, isLoadBalancerEmpty). The cloud's lists are functions that
-- can fail, read at one moment.
pub mod Certs
pub mod Recorded
pub mod Busy
pub mod Scope
pub mod Release
pub mod Delete
pub mod Whole
pub mod Listeners
pub mod Failures
pub mod Policies
pub mod Pools
mod Examples
use vngcloud_load_balancer_c.Base.{
  ℕ, Bool, true, false, not, ◌&&◌, List, [], ◌∷◌, Option, none, some, Text, text, ◌==◌, text_eq,
  find?, any, if◌then◌else◌,
}
use vngcloud_load_balancer_c.Api.{
  CreatedListener, CreatedPolicy, CreatedPool, LoadBalancerConfig, PoolMember,
}
use vngcloud_load_balancer_c.Cloud.{ListenerEntity, MemberEntity, PolicyEntity, PoolEntity}
use vngcloud_load_balancer_c.Errs.{Error, Result, ok, failed}
use vngcloud_load_balancer_c.Members.{pool_member_exists}

-- The lists of the cloud, by load balancer, and by listener or pool.
pub record Reads : Type 0 where
  pub list_listeners : Text → Result (List ListenerEntity)
  pub list_policies : Text → Text → Result (List PolicyEntity)
  pub list_pools : Text → Result (List PoolEntity)
  pub pool_members : Text → Text → Result (List MemberEntity)

module _ {U : Type 0} where
  -- `canCover`: every item is known, up to the first that is not.
  unfoldable pub can_cover : (U → Result Bool) → List U → Result Bool
  can_cover is_exist [] = Result.ok true
  can_cover is_exist (b ∷ small_one) =
      let rest = can_cover is_exist small_one in
      elim (is_exist b) [
        | failed e ↦ Result.failed e
        | ok exist ↦ if exist then rest else Result.ok false
      ]

unfoldable pub convert_member : MemberEntity → PoolMember
convert_member m = record {
  ip = m.address;
  port = m.protocol_port;
  monitor_port = m.monitor_port;
  name = m.name;
  weight = some m.weight;
  backup = some m.backup;
}

-- The inner `canCover`s, whose tests cannot fail.
unfoldable pub covers_policies : List CreatedPolicy → List PolicyEntity → Bool
covers_policies created [] = true
covers_policies created (b ∷ policies) =
    any (λ (p : CreatedPolicy). p.id == b.uuid) created && covers_policies created policies

unfoldable pub covers_members : List PoolMember → List MemberEntity → Bool
unfolding convert_member pool_member_exists
covers_members created [] = true
covers_members created (b ∷ members) =
    pool_member_exists created (convert_member b) && covers_members created members

module _ (reads : Reads) (layer4 : Text)  -- `LoadBalancerTypeLayer4` of the SDK
    (lbc : LoadBalancerConfig) (lb_id : Text) where
  -- A listener is recorded as created, and so are its policies, which layer 4 has none of.
  unfoldable pub knows_listener : ListenerEntity → Result Bool
  unfolding covers_policies
  knows_listener b =
      elim (find? (λ (l : CreatedListener). l.id == b.uuid) lbc.status.created_listeners) [
        | none ↦ Result.ok false
        | some created ↦
            if lbc.spec.type == layer4
            then Result.ok true
            else elim (reads.list_policies lb_id created.id) [
              | failed e ↦ Result.failed e
              | ok policies ↦ Result.ok (covers_policies created.created_policies policies)
            ]
      ]

  -- A pool is recorded as created, and so are its members.
  unfoldable pub knows_pool : PoolEntity → Result Bool
  unfolding covers_members
  knows_pool b = elim (find? (λ (p : CreatedPool). p.id == b.uuid) lbc.status.created_pools) [
    | none ↦ Result.ok false
    | some created ↦ elim (reads.pool_members lb_id b.uuid) [
      | failed e ↦ Result.failed e
      | ok members ↦ Result.ok (covers_members created.created_members members)
    ]
  ]

  -- The second half of `canDeleteWholeLoadBalancer`.
  unfoldable pub knows_pools : Result Bool
  unfolding knows_pool can_cover
  knows_pools = elim (reads.list_pools lb_id) [
    | failed e ↦ Result.failed e
    | ok pools ↦ can_cover knows_pool pools
  ]

  unfoldable pub can_delete_whole_load_balancer : Result Bool
  unfolding knows_listener knows_pools can_cover
  can_delete_whole_load_balancer = elim (reads.list_listeners lb_id) [
    | failed e ↦ Result.failed e
    | ok listeners ↦ elim (can_cover knows_listener listeners) [
      | failed e ↦ Result.failed e
      | ok covered ↦ if covered then knows_pools else Result.ok false
    ]
  ]

  -- The second half of `isLoadBalancerEmpty`.
  unfoldable pub has_no_pools : Result Bool
  has_no_pools = elim (reads.list_pools lb_id) [
    | failed e ↦ Result.failed e
    | ok pools ↦ elim pools [ [] ↦ Result.ok true | _ ∷ _ ↦ Result.ok false ]
  ]

  unfoldable pub is_load_balancer_empty : Result Bool
  unfolding has_no_pools
  is_load_balancer_empty = elim (reads.list_listeners lb_id) [
    | failed e ↦ Result.failed e
    | ok listeners ↦ elim listeners [ [] ↦ has_no_pools | _ ∷ _ ↦ Result.ok false ]
  ]
