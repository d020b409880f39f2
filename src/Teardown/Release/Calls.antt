-- ===== src/Teardown/Release/Calls.antt =====
-- Releasing the tags of a load balancer writes to its tags and to the status only.
use vngcloud_load_balancer_c.Base.{refl, List, none, some, Text, text_beq_refl, is_some}
use vngcloud_load_balancer_c.Base.Maps.{Map, get}
use vngcloud_load_balancer_c.Api.{CreatedListener, CreatedPool, LoadBalancerConfig}
use vngcloud_load_balancer_c.Domain.{cluster_tag_key}
use vngcloud_load_balancer_c.Program.{Prog}
use vngcloud_load_balancer_c.Program.Only.{
  Only, Only-attempt, Only-bind, Only-if, Only-wrapping, calls, ended,
}
use vngcloud_load_balancer_c.Program.Tags.Calls.{ensure_tags-Only}
use vngcloud_load_balancer_c.Teardown.Release.{
  Lookup, compute_released, delete_redundant_tags_from, load_balancer_has_other_lbc, still_shared,
}
use vngcloud_load_balancer_c.Teardown.Scope.{stays_within}

module _ (lbc : LoadBalancerConfig) (lb_id : Text) (listeners : List CreatedListener)
    (pools : List CreatedPool) where
  abbrev Inside : {A : Type 0} → Prog A → Type 0
  Inside m = Only (stays_within lb_id listeners pools) m

  load_balancer_has_other_lbc-Only : Inside (load_balancer_has_other_lbc lbc lb_id)
  unfolding load_balancer_has_other_lbc stays_within
  load_balancer_has_other_lbc-Only =
      Only-bind (Only-wrapping _ (calls refl (λ r. ended r))) (λ _. ended _)

  still_shared-Only : (memo : Lookup) → Inside (still_shared lbc lb_id memo)
  unfolding still_shared
  still_shared-Only none = Only-bind (Only-attempt load_balancer_has_other_lbc-Only) (λ _. ended _)
  still_shared-Only (some memo) = ended _

  compute_released-Only :
      (recorded current : Map Text) (memo : Lookup)
      → Inside (compute_released lbc lb_id recorded current memo)
  unfolding compute_released
  compute_released-Only recorded current memo =
      Only-if (is_some (get cluster_tag_key current))
        (λ _. Only-bind (still_shared-Only memo) (λ _. ended _)) (λ _. ended _)

  pub delete_redundant_tags_from-Only :
      (recorded : Map Text) → Inside (delete_redundant_tags_from lbc lb_id recorded)
  unfolding delete_redundant_tags_from stays_within
  delete_redundant_tags_from-Only recorded =
      Only-bind
        (ensure_tags-Only lb_id (compute_released lbc lb_id recorded) refl refl
          (λ _. text_beq_refl lb_id) (λ _. refl) (compute_released-Only recorded) none)
        (λ _. ended _)
