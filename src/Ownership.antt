-- ===== src/Ownership.antt =====
-- Whose load balancer it is (internal/usecase/lbc_uc: createdByThisCluster of deploy_tag.go,
-- loadBalancerIsOurs of status.go, looksLastOutOf of delete_lb.go, loadBalancerHasOtherLBC of
-- delete_tag.go, and which load balancer a resource references, as in validate.go and lbc_uc.go).
pub mod Laws
mod Examples
use vngcloud_load_balancer_c.Base.{
  Bool, true, false, not, ◌&&◌, ◌||◌, List, [], ◌∷◌, Option, none, some, Text, ◌==◌, text_eq, any,
  if◌then◌else◌, get_or, split, names, is_set,
}
use vngcloud_load_balancer_c.Base.Maps.{Map, get}
use vngcloud_load_balancer_c.Api.{LoadBalancerConfig}
use vngcloud_load_balancer_c.Domain.{
  cluster_tag_key, cluster_tag_value_separator, created_by_cluster_tag_key,
}
use vngcloud_load_balancer_c.Tags.{is_valid_vks_id, remove_tag_value}

unfoldable pub created_by_this_cluster : LoadBalancerConfig → Text → Map Text → Bool
unfolding names is_set
created_by_this_cluster lbc lb_id current = elim (get created_by_cluster_tag_key current) [
  | some created_by ↦ names lbc.spec.cluster_id created_by
  | none ↦
      if names lbc.status.created_load_balancer_id lb_id
      then true
      else if names lbc.status.adopted_load_balancer_id lb_id
      then false
      else not (is_set lbc.spec.load_balancer_id)
]

-- `id != nil && (*id == lbId || lbId == "")`.
names_or_unknown : Option Text → Text → Bool
names_or_unknown none s = false
names_or_unknown (some id) s = id == s || s == []

unfoldable pub load_balancer_is_ours : LoadBalancerConfig → Bool
unfolding names_or_unknown is_set
load_balancer_is_ours lbc =
    let lb_id = get_or lbc.status.load_balancer_id [] in
    if names_or_unknown lbc.status.created_load_balancer_id lb_id
    then true
    else if names_or_unknown lbc.status.adopted_load_balancer_id lb_id
    then false
    else not (is_set lbc.spec.load_balancer_id)

-- The cluster of the spec is the only one listed.
alone_on : Text → Text → Bool
alone_on users id =
    any (λ u. u == id) (split users cluster_tag_value_separator)
    && remove_tag_value users id cluster_tag_value_separator == []

unfoldable pub looks_last_out_of : LoadBalancerConfig → Map Text → Bool
unfolding alone_on
looks_last_out_of lbc current = elim (get created_by_cluster_tag_key current) [
  | none ↦ false
  | some created_by ↦ elim (lbc.spec.cluster_id) [
    | none ↦ false
    | some id ↦
        is_valid_vks_id created_by
        && (is_valid_vks_id id && alone_on (get_or (get cluster_tag_key current) []) id)
  ]
]

-- Another resource, not on its way out, is deployed on the load balancer or pinned to it.
uses_load_balancer : LoadBalancerConfig → Text → LoadBalancerConfig → Bool
unfolding names
uses_load_balancer lbc lb_id other =
    not (other.uid == lbc.uid || other.deleting)
    && (names other.status.load_balancer_id lb_id || names other.spec.load_balancer_id lb_id)

-- The loop of `loadBalancerHasOtherLBC` over the listed resources.
pub has_other_lbc : LoadBalancerConfig → Text → List LoadBalancerConfig → Bool
has_other_lbc lbc lb_id all = any (uses_load_balancer lbc lb_id) all

-- The load balancer that a resource references: the pinned one, or else the deployed one; the
-- empty string for none (`getLoadBalancerID`, and the loops of validate.go).
unfoldable pub load_balancer_of : LoadBalancerConfig → Text
unfolding is_set
load_balancer_of lbc =
    if is_set lbc.spec.load_balancer_id
    then get_or lbc.spec.load_balancer_id []
    else if is_set lbc.status.load_balancer_id
    then get_or lbc.status.load_balancer_id []
    else []
