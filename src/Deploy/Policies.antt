-- ===== src/Deploy/Policies.antt =====
-- The deploy of policies: deployPolicies and deployPolicy (internal/usecase/lbc_uc/deploy_policy.go).
pub mod Requests
pub mod Settled
pub mod Order
use vngcloud_load_balancer_c.Base.{
  ℕ, List, [], ◌∷◌, ◌++◌, Option, none, some, Text, text, ◌==◌, text_eq, find?,
}
use vngcloud_load_balancer_c.Api.{CreatedPolicy, CreatedPool, Policy}
use vngcloud_load_balancer_c.Cloud.{LoadBalancerEntity, PolicyEntity, UpdatePolicyRequest}
use vngcloud_load_balancer_c.Deploy.Policies.Requests.{
  build_policy_create_request, build_policy_update_request,
}
use vngcloud_load_balancer_c.Program.{Prog, ◌>>=◌, ◌>>◌, pure, wrapping}
use vngcloud_load_balancer_c.Program.Calls.{
  Settings, create_policy, list_policies, update_policy, wait_active,
}
use vngcloud_load_balancer_c.Status.{status_add_policy}

module _ (s : Settings) (lb_id listener_id : Text) (port : ℕ) (pools : List CreatedPool) where
  settle_after : Text → Text → Prog LoadBalancerEntity
  settle_after about policy_id =
      wrapping (text "wait LB " ++ (lb_id ++ (about ++ policy_id))) (wait_active lb_id)

  create_new_policy : Policy → Prog CreatedPolicy
  unfolding settle_after
  create_new_policy policy = do
    created ←
        create_policy lb_id listener_id
          (build_policy_create_request s lb_id listener_id policy pools)
    status_add_policy listener_id port created.uuid
    settle_after (text " active after creating policy ") created.uuid
    pure (record { id = created.uuid })

  update_found_policy : PolicyEntity → Option UpdatePolicyRequest → Prog CreatedPolicy
  unfolding settle_after
  update_found_policy current none = pure (record { id = current.uuid })
  update_found_policy current (some request) = do
    update_policy lb_id listener_id current.uuid request
    status_add_policy listener_id port current.uuid
    settle_after (text " active after updating policy ") current.uuid
    pure (record { id = current.uuid })

  deploy_policy : Policy → List PolicyEntity → Prog CreatedPolicy
  unfolding create_new_policy update_found_policy
  deploy_policy policy current_policies =
      elim (find? (λ (p : PolicyEntity). p.name == policy.name) current_policies) [
        | none ↦ create_new_policy policy
        | some current ↦
            update_found_policy current
              (build_policy_update_request s lb_id listener_id policy pools current)
      ]

  -- The loop, which ends with the first error.
  deploy_each_policy : List PolicyEntity → List Policy → Prog (List CreatedPolicy)
  unfolding deploy_policy
  deploy_each_policy current [] = pure []
  deploy_each_policy current (p ∷ policies) = do
    created ← deploy_policy p current
    rest ← deploy_each_policy current policies
    pure (created ∷ rest)

  unfoldable pub deploy_policies : List Policy → Prog (List CreatedPolicy)
  unfolding deploy_each_policy
  deploy_policies policies = do
    current ← list_policies lb_id listener_id
    deploy_each_policy current policies
