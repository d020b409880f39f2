-- ===== src/Deploy/Policies/Order.antt =====
-- The order of policies: deployReorderPolicies (internal/usecase/lbc_uc/deploy_policy.go). A
-- position that is not there, -1 in the source, is `none` and comes before all others. Of policies
-- equal in both positions, for which sort.Slice promises no order, the order of the spec is kept.
pub mod Sent
use vngcloud_load_balancer_c.Base.{
  ℕ, Bool, true, false, ◌&&◌, ◌||◌, List, [], ◌∷◌, map, any, Option, none, some, Text, ltb, ◌==◌,
  text_eq, find?, if◌then◌else◌, is_some,
}
use vngcloud_load_balancer_c.Api.{Policy}
use vngcloud_load_balancer_c.Cloud.{PolicyEntity}
use vngcloud_load_balancer_c.Program.{Prog, ◌>>=◌, ◌>>◌, pure}
use vngcloud_load_balancer_c.Program.Calls.{list_policies, reorder_policies, wait_active}

pub record Place : Type 0 where
  pub policy_id : Text
  pub current_position : Option ℕ
  pub expect_position : Option ℕ

position_before : Option ℕ → Option ℕ → Bool
position_before _ none = false
position_before none (some n) = true
position_before (some m) (some n) = ltb m n

-- The order of the sort.
place_before : Place → Place → Bool
unfolding position_before
place_before a b =
    if position_before a.expect_position b.expect_position
    then true
    else if position_before b.expect_position a.expect_position
    then false
    else position_before a.current_position b.current_position

insert_place : Place → List Place → List Place
unfolding place_before
insert_place p [] = p ∷ []
insert_place p (q ∷ places) =
    let rest = insert_place p places in if place_before q p then q ∷ rest else p ∷ q ∷ places

sort_places : List Place → List Place
unfolding insert_place
sort_places [] = []
sort_places (p ∷ places) = insert_place p (sort_places places)

-- Two neighbours that stand the other way round.
out_of_order : List Place → Bool
unfolding position_before
out_of_order [] = false
out_of_order (p ∷ []) = false
out_of_order (p ∷ q ∷ places) =
    (position_before p.expect_position q.expect_position
      && position_before q.current_position p.current_position)
    || out_of_order (q ∷ places)

unfoldable pub place_of : List PolicyEntity → Policy → Place
place_of current policy = elim (find? (λ (p : PolicyEntity). p.name == policy.name) current) [
  | none ↦ record { policy_id = []; current_position = none; expect_position = policy.position }
  | some p ↦ record {
    policy_id = p.uuid;
    current_position = some p.position;
    expect_position = policy.position;
  }
]

module _ (lb_id listener_id : Text) where
  send_order : List Text → Prog (Unit {0})
  send_order policy_ids = do
    reorder_policies lb_id listener_id policy_ids
    wait_active lb_id
    pure tt

  reorder_places : List Place → Prog (Unit {0})
  unfolding out_of_order send_order
  reorder_places places =
      if out_of_order places then send_order (map (λ (p : Place). p.policy_id) places) else pure tt

  reorder_listed : List Policy → Prog (Unit {0})
  unfolding reorder_places sort_places place_of
  reorder_listed policies = do
    current ← list_policies lb_id listener_id
    reorder_places (sort_places (map (place_of current) policies))

  unfoldable pub deploy_reorder_policies : List Policy → Prog (Unit {0})
  unfolding reorder_listed any
  deploy_reorder_policies policies =
      if any (λ (p : Policy). is_some p.position) policies then reorder_listed policies else pure tt
