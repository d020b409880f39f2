-- ===== src/Teardown/Policies/Recorded.antt =====
-- The cleanup of policies deletes policies of the record only.
use vngcloud_load_balancer_c.Base.{
  ◌≡◌, refl, Bool, true, not, ◌||◌, List, [], ◌∷◌, Text, ◌==◌, text_eq, text_beq_refl, any, arith,
}
use vngcloud_load_balancer_c.Api.{CreatedListener, CreatedPolicy, CreatedPool, LoadBalancerConfig}
use vngcloud_load_balancer_c.Cloud.{PolicyEntity}
use vngcloud_load_balancer_c.Program.{Prog}
use vngcloud_load_balancer_c.Program.Calls.{Settings}
use vngcloud_load_balancer_c.Program.Only.{Only, Only-bind, Only-if, Only-wrapping, calls, ended}
use vngcloud_load_balancer_c.Teardown.Policies.{
  delete_one_policy, delete_policies, delete_recorded_policies, delete_redundant_policies_from,
  policies_of,
}
use vngcloud_load_balancer_c.Teardown.Scope.{stays_within}

module _ (s : Settings) (lbc : LoadBalancerConfig) (lb_id listener_id : Text)
    (listeners : List CreatedListener) (pools : List CreatedPool) where
  abbrev Inside : {A : Type 0} → Prog A → Type 0
  Inside m = Only (stays_within lb_id listeners pools) m

  abbrev is_recorded : List CreatedPolicy → Text → Bool
  is_recorded created policy_id = any (λ (p : CreatedPolicy). p.id == policy_id) created

  delete_one_policy-Only :
      (p : CreatedPolicy)
      → is_recorded (policies_of listener_id listeners) p.id ≡ true
      → Inside (delete_one_policy s lbc lb_id listener_id p)
  unfolding delete_one_policy stays_within
  delete_one_policy-Only p e =
      Only-bind (Only-wrapping _ (calls (ground (arith, text_beq_refl lb_id, e)) (λ r. ended r)))
        (λ _. Only-wrapping _ (calls refl (λ r. ended r)))

  delete_policies-Only :
      (current : List PolicyEntity) (in_use created : List CreatedPolicy)
      → ((id : Text)
          → is_recorded created id ≡ true
          → is_recorded (policies_of listener_id listeners) id ≡ true)
      → Inside (delete_policies s lbc lb_id listener_id current in_use created)
  unfolding delete_policies any
  delete_policies-Only current in_use [] w = ended _
  delete_policies-Only current in_use (p ∷ created) w =
      let later = delete_policies-Only current in_use created (λ id e. w id (ground (arith, e))) in
      Only-if
        (any (λ (q : CreatedPolicy). q.id == p.id) in_use
          || not (any (λ (q : PolicyEntity). q.uuid == p.id) current))
        (λ _. later)
        (λ _.
          Only-bind (delete_one_policy-Only p (w p.id (ground (arith, text_beq_refl p.id))))
            (λ _. later))

  delete_recorded_policies-Only :
      (in_use created : List CreatedPolicy)
      → ((id : Text)
          → is_recorded created id ≡ true
          → is_recorded (policies_of listener_id listeners) id ≡ true)
      → Inside (delete_recorded_policies s lbc lb_id listener_id in_use created)
  unfolding delete_recorded_policies stays_within
  delete_recorded_policies-Only in_use [] w = ended _
  delete_recorded_policies-Only in_use (p ∷ created) w =
      Only-bind (calls refl (λ r. ended r))
        (λ current. delete_policies-Only current in_use (p ∷ created) w)

  pub delete_redundant_policies_from-Only :
      (in_use : List CreatedPolicy)
      → Inside (delete_redundant_policies_from s lbc lb_id listener_id listeners in_use)
  unfolding delete_redundant_policies_from
  delete_redundant_policies_from-Only in_use =
      Only-if (lbc.spec.type == s.layer4) (λ _. ended _)
        (λ _. delete_recorded_policies-Only in_use (policies_of listener_id listeners) (λ _ e. e))
