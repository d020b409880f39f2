-- ===== src/Tags/Wanted.antt =====
-- The tags that a deploy wants (the closure of `deployTags`, deploy_tag.go) and those that a
-- teardown leaves (the closure of `deleteRedundantTagsFrom`, delete_tag.go), with what the
-- written set then holds.
pub mod Sharing
pub mod Leaving
mod Examples
use vngcloud_load_balancer_c.Base.{
  ◌≡◌, refl, sym, ◌∙◌, ◌≢◌, ◌⊎◌, inl, inr, ◌<◌, Bool, Bool-cases, true, false, not, ◌&&◌, List, [],
  ◌∷◌, arith, Option, none, some, Text, ◌==◌, text_eq, text_beq, text_beq_iff, text_beq_refl, In,
  if◌then◌else◌, is_some, get_or, names,
}
use vngcloud_load_balancer_c.Base.Maps.{
  Map, IsMap, get, put, delete, get-put, get-delete, put-IsMap, get_nil,
}
use vngcloud_load_balancer_c.Base.Parts.{Lacks}
use vngcloud_load_balancer_c.Api.{LoadBalancerConfig}
use vngcloud_load_balancer_c.Domain.{
  cluster_tag_key, cluster_tag_value_separator, vpc_tag_key, billing_tag_key, billing_tag_value,
  created_by_cluster_tag_key,
}
use vngcloud_load_balancer_c.Tags.{
  fits, build_tag, join_tag_value, remove_tag_value, is_valid_vks_id,
}
use vngcloud_load_balancer_c.Tags.Merge.{fitting, or_else, merged_entry, get-build_tag}
use vngcloud_load_balancer_c.Tags.Values.{join_tag_value-Lists, remove_tag_value-Lists}

-- The cluster id of the spec, if it is set and valid.
unfoldable pub valid_cluster_id : LoadBalancerConfig → Option Text
valid_cluster_id lbc = elim (lbc.spec.cluster_id) [
  | none ↦ none
  | some id ↦ if is_valid_vks_id id then some id else none
]

-- The cluster list of the load balancer with this cluster added.
add_cluster : Option Text → Map Text → Map Text → Map Text
add_cluster none current tags = tags
add_cluster (some id) current tags =
    put cluster_tag_key
      (join_tag_value (get_or (get cluster_tag_key current) []) id cluster_tag_value_separator) tags

add_vpc : Text → Map Text → Map Text
add_vpc vpc_id tags = if vpc_id == [] then tags else put vpc_tag_key vpc_id tags

add_provenance : Option Text → Bool → Map Text → Map Text
add_provenance none recorded tags = tags
add_provenance (some id) recorded tags =
    if recorded then put created_by_cluster_tag_key id tags else tags

-- `ensuredTags` of a deploy; the tags written before are `status.created_tags`.
pub want_tags : LoadBalancerConfig → Text → Map Text → Map Text
want_tags lbc lb_id current =
    add_provenance (valid_cluster_id lbc) (names lbc.status.created_load_balancer_id lb_id) (
      put billing_tag_key billing_tag_value
        (add_vpc lbc.spec.vpc_id (add_cluster (valid_cluster_id lbc) current lbc.spec.tags)))

-- What a teardown still wants: the cluster list less this cluster, if anyone is left on it.
pub release_ensured : LoadBalancerConfig → Bool → Map Text → Map Text
release_ensured lbc shared current =
    if is_some (get cluster_tag_key current) && shared then [] else elim (lbc.spec.cluster_id) [
      | none ↦ []
      | some id ↦
          let left =
            remove_tag_value (get_or (get cluster_tag_key current) []) id
              cluster_tag_value_separator in
          if left == [] then [] else (cluster_tag_key, left) ∷ []
    ]

release_cluster : LoadBalancerConfig → Bool → Map Text → Map Text → Map Text
release_cluster lbc shared recorded current =
    if is_some (get cluster_tag_key current) && shared
    then delete cluster_tag_key recorded
    else elim (lbc.spec.cluster_id) [
      | none ↦ recorded
      | some id ↦ elim (get cluster_tag_key current) [
        | none ↦ recorded
        | some value ↦ put cluster_tag_key value recorded
      ]
    ]

-- `createdTags` of a teardown: what the write may drop.
pub release_created : LoadBalancerConfig → Bool → Map Text → Map Text → Map Text
release_created lbc shared recorded current =
    delete created_by_cluster_tag_key
      (delete billing_tag_key (delete vpc_tag_key (release_cluster lbc shared recorded current)))
