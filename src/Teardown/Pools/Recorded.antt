-- ===== src/Teardown/Pools/Recorded.antt =====
-- The cleanup of pools writes to pools of the record only.
use vngcloud_load_balancer_c.Base.{
  ◌≡◌, refl, Bool, true, not, ◌&&◌, List, [], ◌∷◌, Option, none, some, Text, ◌==◌, text_eq,
  text_beq_refl, any, arith,
}
use vngcloud_load_balancer_c.Api.{CreatedListener, CreatedPool, LoadBalancerConfig, PoolMember}
use vngcloud_load_balancer_c.Cloud.{ListenerEntity, PoolEntity}
use vngcloud_load_balancer_c.Program.{Prog}
use vngcloud_load_balancer_c.Program.Calls.{Settings}
use vngcloud_load_balancer_c.Program.Only.{
  Only, Only-attempt, Only-bind, Only-if, Only-wrapping, calls, ended,
}
use vngcloud_load_balancer_c.Teardown.Busy.Writes.{retry_write-Only}
use vngcloud_load_balancer_c.Teardown.Failures.{report-Only}
use vngcloud_load_balancer_c.Teardown.Pools.{
  clean_decided, clean_pool, clean_pools, delete_redundant_pools_from, policies_on, pools_in_use,
  remove_pool, shrink_pool,
}
use vngcloud_load_balancer_c.Teardown.Scope.{is_recorded_pool, stays_within}

module _ (s : Settings) (lbc : LoadBalancerConfig) (lb_id : Text) (listeners : List CreatedListener)
    (pools : List CreatedPool) where
  abbrev Inside : {A : Type 0} → Prog A → Type 0
  Inside m = Only (stays_within lb_id listeners pools) m

  policies_on-Only : (l : ListenerEntity) → Inside (policies_on s lbc lb_id l)
  unfolding policies_on stays_within
  policies_on-Only l =
      Only-if (lbc.spec.type == s.layer7) (λ _. Only-wrapping _ (calls refl (λ r. ended r)))
        (λ _. ended _)

  pools_in_use-Only : (ls : List ListenerEntity) → Inside (pools_in_use s lbc lb_id ls)
  unfolding pools_in_use
  pools_in_use-Only [] = ended _
  pools_in_use-Only (l ∷ ls) =
      Only-bind (policies_on-Only l) (λ _. Only-bind (pools_in_use-Only ls) (λ _. ended _))

  module _ (pool_id : Text) (recorded : is_recorded_pool pools pool_id ≡ true) where
    remove_pool-Only : Inside (remove_pool s lbc lb_id pool_id)
    unfolding remove_pool stays_within
    remove_pool-Only =
        Only-bind
          (Only-wrapping _ (
            retry_write-Only s lb_id _ refl
              (calls (ground (arith, text_beq_refl lb_id, recorded)) (λ r. ended r))))
          (λ _. Only-wrapping _ (calls refl (λ r. ended r)))

    shrink_pool-Only : (ms : Option (List PoolMember)) → Inside (shrink_pool s lbc lb_id pool_id ms)
    unfolding shrink_pool stays_within
    shrink_pool-Only none = ended _
    shrink_pool-Only (some ms) =
        Only-bind
          (Only-wrapping _ (
            retry_write-Only s lb_id _ refl
              (calls (ground (arith, text_beq_refl lb_id, recorded)) (λ r. ended r))))
          (λ _. Only-bind (Only-wrapping _ (calls refl (λ r. ended r))) (λ _. ended _))

    clean_decided-Only :
        (in_use : Bool) (d : Bool × Option (List PoolMember))
        → Inside (clean_decided s lbc lb_id pool_id in_use d)
    unfolding clean_decided
    clean_decided-Only in_use (whole, ms) =
        Only-if (not in_use && whole) (λ _. Only-bind remove_pool-Only (λ _. ended _))
          (λ _. shrink_pool-Only ms)

    clean_pool-Only :
        (in_use : List Text) (created wanted : List PoolMember)
        → Inside (clean_pool s lbc lb_id in_use created wanted pool_id)
    unfolding clean_pool stays_within
    clean_pool-Only in_use created wanted =
        Only-bind (Only-wrapping _ (calls refl (λ r. ended r))) (λ _. search clean_decided-Only)

  -- The candidates that are left are a tail of the record.
  clean_pools-Only :
      (current : List PoolEntity) (in_use : List Text) (created wanted rest : List CreatedPool)
      → ((pool_id : Text)
          → is_recorded_pool rest pool_id ≡ true
          → is_recorded_pool pools pool_id ≡ true)
      → Inside (clean_pools s lbc lb_id current in_use created wanted rest)
  unfolding clean_pools any
  clean_pools-Only current in_use created wanted [] w = ended _
  clean_pools-Only current in_use created wanted (p ∷ rest) w =
      let later =
        clean_pools-Only current in_use created wanted rest (λ id e. w id (ground (arith, e))) in
      Only-if (any (λ (c : PoolEntity). c.uuid == p.id) current)
        (λ _.
          Only-bind
            (Only-attempt
              (clean_pool-Only p.id (w p.id (ground (arith, text_beq_refl p.id))) _ _ _))
            (λ _. Only-bind later (λ _. ended _)))
        (λ _. later)

  pub delete_redundant_pools_from-Only :
      (wanted : List CreatedPool) → Inside (delete_redundant_pools_from s lbc lb_id pools wanted)
  unfolding delete_redundant_pools_from stays_within
  delete_redundant_pools_from-Only wanted =
      Only-bind (Only-wrapping _ (calls refl (λ r. ended r))) (λ current.
        Only-bind (Only-wrapping _ (calls refl (λ r. ended r))) (λ ls.
          Only-bind (pools_in_use-Only ls) (λ in_use.
            Only-bind (clean_pools-Only current in_use pools wanted pools (λ _ e. e))
              (λ es. report-Only es))))
