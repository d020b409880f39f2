-- ===== src/Patches/Resources.antt =====
-- The records of listeners, policies and pools (internal/usecase/lbc_uc/status.go), as mutations
-- of the fresh status.
use vngcloud_load_balancer_c.Base.{
  ℕ, Bool, true, false, ◌&&◌, ◌||◌, List, [], ◌∷◌, ◌++◌, Option, none, some, Text, ◌==◌, nat_eq,
  text_eq, any, find?, if◌then◌else◌, is_some,
}
use vngcloud_load_balancer_c.Acl.{neutral_acl, spec_acl}
use vngcloud_load_balancer_c.Api.{
  CreatedListener, CreatedPolicy, CreatedPool, Listener, ListenerAcl, LoadBalancerConfig,
  LoadBalancerConfigStatus, PoolMember,
}
use vngcloud_load_balancer_c.Members.{compare_pool_members}
use vngcloud_load_balancer_c.Ownership.{load_balancer_is_ours}

module _ {A : Type 0} where
  -- The first item that passes the test is changed; `none` where no item does.
  unfoldable pub change_first : (A → Bool) → (A → A) → List A → Option (List A)
  change_first p f [] = none
  change_first p f (x ∷ xs) =
      let rest = change_first p f xs in
      if p x then some (f x ∷ xs) else elim rest [ none ↦ none | some ys ↦ some (x ∷ ys) ]

-- `statusAddPool`, for a pool that has an id.
unfoldable pub record_pool :
    Text → Text → LoadBalancerConfigStatus → Option LoadBalancerConfigStatus
unfolding change_first
record_pool pool_id name status =
    if any (λ (p : CreatedPool). p.id == pool_id && p.name == name) status.created_pools
    then none
    else elim (change_first (λ (p : CreatedPool). p.id == pool_id) (λ p. record p { name = name })
        status.created_pools) [
          | some pools ↦ some (record status { created_pools = pools })
          | none ↦ some (record status {
            created_pools =
                status.created_pools
                ++ (record { id = pool_id; name = name; created_members = [] } ∷ []);
          })
        ]

-- `statusAddPoolMember`.
unfoldable pub record_pool_members :
    Text → Text → List PoolMember → LoadBalancerConfigStatus → Option LoadBalancerConfigStatus
unfolding change_first
record_pool_members pool_id name members status =
    if any
      (λ (p : CreatedPool).
        p.id == pool_id && (p.name == name && compare_pool_members p.created_members members))
      status.created_pools
    then none
    else elim (change_first (λ (p : CreatedPool). p.id == pool_id)
        (λ p. record p { name = name; created_members = members }) status.created_pools) [
          | some pools ↦ some (record status { created_pools = pools })
          | none ↦ some (record status {
            created_pools =
                status.created_pools
                ++ (record { id = pool_id; name = name; created_members = members } ∷ []);
          })
        ]

-- `statusAddPolicy`, for a policy that has an id.
add_policy : Text → CreatedListener → CreatedListener
add_policy policy_id l = record l {
  created_policies = l.created_policies ++ (record { id = policy_id } ∷ []);
}

holds_policy : Text → CreatedListener → Bool
holds_policy policy_id l = any (λ (p : CreatedPolicy). p.id == policy_id) l.created_policies

unfoldable pub record_policy :
    Text → ℕ → Text → LoadBalancerConfigStatus → Option LoadBalancerConfigStatus
unfolding change_first add_policy holds_policy
record_policy listener_id port policy_id status =
    elim (find? (λ (l : CreatedListener). l.id == listener_id) status.created_listeners) [
      | some l ↦
          if holds_policy policy_id l
            || any
                (λ (m : CreatedListener).
                  m.id == listener_id && (m.port == port && holds_policy policy_id m))
                status.created_listeners
          then none
          else elim (change_first (λ (m : CreatedListener). m.id == listener_id)
              (λ m. add_policy policy_id (record m { port = port })) status.created_listeners) [
                | some listeners ↦ some (record status { created_listeners = listeners })
                | none ↦ none
              ]
      | none ↦ some (record status {
        created_listeners =
            status.created_listeners
            ++ (record {
              id = listener_id;
              port = port;
              created_policies = record { id = policy_id } ∷ [];
              adopted = false;
              original_default_pool_id = none;
              original_acl = none;
            }
                ∷ []);
      })
    ]

-- A listener without policies, as it is first recorded.
new_listener : Text → ℕ → Bool → Option Text → Option ListenerAcl → CreatedListener
new_listener id port adopted original_pool acl = record {
  id = id;
  port = port;
  created_policies = [];
  adopted = adopted;
  original_default_pool_id = original_pool;
  original_acl = acl;
}

-- `statusAddListener`: what is decided of the listener in a fresh status.
decide_created : Text → ℕ → Option ListenerAcl → LoadBalancerConfigStatus → CreatedListener
unfolding new_listener
decide_created id port original status =
    elim (find? (λ (l : CreatedListener). l.id == id) status.created_listeners) [
      | none ↦ new_listener id port false none original
      | some l ↦ record l {
        port = port;
        original_acl = if is_some l.original_acl then l.original_acl else original;
      }
    ]

-- `newAdoptedListener`.
new_adopted_listener : Text → ℕ → Text → CreatedListener
unfolding new_listener
new_adopted_listener id port original_pool =
    new_listener id port true (if original_pool == [] then none else some original_pool) none

module _ (default_allowed_cidrs : Text) (lbc : LoadBalancerConfig) where
  -- What the listener of the spec on that port would have had without its access lists.
  neutral_on : ℕ → Option ListenerAcl
  neutral_on port = elim (find? (λ (l : Listener). l.protocol_port == port) lbc.spec.listeners) [
    | none ↦ none
    | some l ↦ neutral_acl (spec_acl l) default_allowed_cidrs
  ]

  -- `statusAdoptListener`: on our own load balancer the listener counts as created.
  unfoldable pub decide_adopted : Text → ℕ → Text → LoadBalancerConfigStatus → CreatedListener
  unfolding new_listener new_adopted_listener neutral_on
  decide_adopted id port original_pool status =
      elim (find? (λ (l : CreatedListener). l.id == id) status.created_listeners) [
        | some l ↦ record l { port = port }
        | none ↦
            if load_balancer_is_ours lbc
            then new_listener id port false none (neutral_on port)
            else new_adopted_listener id port original_pool
      ]

-- The decided record put in place of the first one of the listener, or at the end.
unfoldable pub put_listener : CreatedListener → List CreatedListener → List CreatedListener
unfolding change_first
put_listener l listeners =
    elim (change_first (λ (m : CreatedListener). m.id == l.id) (λ _. l) listeners) [
      | some changed ↦ changed
      | none ↦ listeners ++ (l ∷ [])
    ]
