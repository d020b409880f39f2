-- ===== src/Teardown/Policies.antt =====
-- `deployDeleteRedundantPoliciesFrom` (internal/usecase/lbc_uc/delete_policy.go).
pub mod Recorded
use vngcloud_load_balancer_c.Base.{
  Bool, true, false, not, ◌||◌, List, [], ◌∷◌, ◌++◌, Option, none, some, Text, text, ◌==◌, text_eq,
  any, find?, if◌then◌else◌,
}
use vngcloud_load_balancer_c.Api.{CreatedListener, CreatedPolicy, LoadBalancerConfig}
use vngcloud_load_balancer_c.Cloud.{LoadBalancerEntity, PolicyEntity}
use vngcloud_load_balancer_c.Program.{Prog, ◌>>=◌, ◌>>◌, pure, wrapping}
use vngcloud_load_balancer_c.Program.Calls.{Settings, delete_policy, list_policies, wait_active}

-- The policies recorded for a listener; of two records the first counts.
unfoldable pub policies_of : Text → List CreatedListener → List CreatedPolicy
policies_of listener_id created =
    elim (find? (λ (l : CreatedListener). l.id == listener_id) created) [
      | none ↦ []
      | some l ↦ l.created_policies
    ]

module _ (s : Settings) (lbc : LoadBalancerConfig) (lb_id listener_id : Text) where
  delete_one_policy : CreatedPolicy → Prog LoadBalancerEntity
  delete_one_policy p = do
    wrapping
        (text "delete policy "
          ++ (p.id ++ (text " of listener " ++ (listener_id ++ (text " on LB " ++ lb_id)))))
        (delete_policy lb_id listener_id p.id)
    wrapping (text "wait LB " ++ (lb_id ++ (text " active after deleting policy " ++ p.id)))
        (wait_active lb_id)

  -- The loop over the candidates.
  delete_policies : List PolicyEntity → List CreatedPolicy → List CreatedPolicy → Prog (Unit {0})
  unfolding delete_one_policy
  delete_policies current in_use [] = pure tt
  delete_policies current in_use (p ∷ created) =
      let rest = delete_policies current in_use created in
      if any (λ (q : CreatedPolicy). q.id == p.id) in_use
        || not (any (λ (q : PolicyEntity). q.uuid == p.id) current)
      then rest
      else delete_one_policy p >> rest

  delete_recorded_policies : List CreatedPolicy → List CreatedPolicy → Prog (Unit {0})
  unfolding delete_policies
  delete_recorded_policies in_use [] = pure tt
  delete_recorded_policies in_use (p ∷ created) = do
    current ← list_policies lb_id listener_id
    delete_policies current in_use (p ∷ created)

  unfoldable pub delete_redundant_policies_from :
      List CreatedListener → List CreatedPolicy → Prog (Unit {0})
  unfolding delete_recorded_policies policies_of
  delete_redundant_policies_from created_listeners in_use =
      if lbc.spec.type == s.layer4
      then pure tt
      else delete_recorded_policies in_use (policies_of listener_id created_listeners)
