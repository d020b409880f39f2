-- ===== src/Tags/Wanted/Examples.antt =====
-- Clusters that share a load balancer, at concrete tags.
use vngcloud_load_balancer_c.Base.{
  ◌≡◌, refl, ◌≢◌, ◌↔◌, ◌⊎◌, inr, true, false, [], ◌∷◌, ◌++◌, arith, none, some, Text, text, In,
  text_beq, length, split, push_head, join, sort, text_leb, any, has_prefix, equal_fold, names, ◌<◌,
}
use vngcloud_load_balancer_c.Base.Maps.{Map, get, put, delete}
use vngcloud_load_balancer_c.Api.{LoadBalancerConfig}
use vngcloud_load_balancer_c.Domain.{
  cluster_tag_key, billing_tag_key, billing_tag_value, vpc_tag_key,
}
use vngcloud_load_balancer_c.Samples.{cluster_a, cluster_b, spec_of, status_of, config}
use vngcloud_load_balancer_c.Tags.{
  fits, merge_tags, need_update, refuse_empty, build_tag, join_tag_value, remove_tag_value,
  is_valid_vks_id,
}
use vngcloud_load_balancer_c.Tags.Wanted.{
  valid_cluster_id, add_cluster, add_vpc, add_provenance, want_tags, release_ensured,
  release_cluster, release_created,
}
use vngcloud_load_balancer_c.Tags.Wanted.Sharing.{
  clusters, deploy_keeps_clusters, deploy_loses_clusters,
}
use vngcloud_load_balancer_c.Tags.Wanted.Leaving.{
  billing, release_keeps_lasting, release_drops_cluster, release_shared_writes_nothing,
}

abbrev shared_by_b : Map Text
shared_by_b = (cluster_tag_key, cluster_b) ∷ []

abbrev lbc : LoadBalancerConfig
lbc = config (text "web") (spec_of (some cluster_a) none []) (status_of none none shared_by_b)

abbrev both : Text
both = cluster_a ++ (b'/' ∷ cluster_b)

valid : valid_cluster_id lbc ≡ some cluster_a
unfolding valid_cluster_id is_valid_vks_id has_prefix
valid = refl

joined : join_tag_value cluster_b cluster_a b'/' ≡ both
unfolding join_tag_value split push_head sort text_beq text_leb any join
joined = refl

wanted_written :
    build_tag shared_by_b shared_by_b (want_tags lbc (text "lb-1") shared_by_b)
    ≡ some (
        (cluster_tag_key, both)
        ∷ (vpc_tag_key, text "net-1")
        ∷ (billing_tag_key, billing_tag_value)
        ∷ [])
unfolding want_tags valid_cluster_id is_valid_vks_id has_prefix add_cluster add_vpc add_provenance
    names join_tag_value split push_head sort text_leb join build_tag merge_tags need_update
    refuse_empty get put delete any equal_fold text_beq fits
wanted_written = refl

deploy_keeps_clusters_example :
    In cluster_b (
      split
        (clusters (
          (cluster_tag_key, both)
          ∷ (vpc_tag_key, text "net-1")
          ∷ (billing_tag_key, billing_tag_value)
          ∷ []))
        b'/')
    ↔ ((cluster_b ≡ cluster_a) ⊎ In cluster_b (split (clusters shared_by_b) b'/'))
unfolding get text_beq
deploy_keeps_clusters_example =
    deploy_keeps_clusters lbc (text "lb-1") cluster_a shared_by_b
      ((cluster_tag_key, both)
        ∷ (vpc_tag_key, text "net-1")
        ∷ (billing_tag_key, billing_tag_value)
        ∷ [])
      cluster_b (refl, tt) tt valid (omega arith)
      (unfold join_tag_value split push_head sort text_leb any join fits in refl) wanted_written
      (λ e. cc)

abbrev others : Text
others =
    cluster_b
    ++ text "/k8s-cccccccccccccccccccccccccccccccccccc"
    ++ text "/k8s-dddddddddddddddddddddddddddddddddddd"
    ++ text "/k8s-eeeeeeeeeeeeeeeeeeeeeeeeeeeeeeeeeeee"
    ++ text "/k8s-ffffffffffffffffffffffffffffffffffff"
    ++ text "/k8s-000000000000000000000000000000000000"

abbrev crowded : Map Text
crowded = (cluster_tag_key, others) ∷ []

too_long : 255 < length (join_tag_value (clusters crowded) cluster_a b'/')
unfolding get text_beq join_tag_value split push_head sort text_leb any join
too_long = omega arith

deploy_loses_clusters_example :
    (w : Map Text) × (build_tag crowded shared_by_b (want_tags lbc (text "lb-1") crowded) ≡ some w)
    × (get cluster_tag_key w ≡ none)
unfolding get text_beq
deploy_loses_clusters_example =
    deploy_loses_clusters lbc (text "lb-1") cluster_a others cluster_b crowded (refl, tt) tt valid
      refl refl too_long

abbrev two_users : Map Text
two_users = (cluster_tag_key, both) ∷ (billing_tag_key, billing_tag_value) ∷ []

abbrev left_to_b : Map Text
left_to_b = (billing_tag_key, billing_tag_value) ∷ (cluster_tag_key, cluster_b) ∷ []

released :
    build_tag two_users
      (release_created lbc false [] two_users)
      (release_ensured lbc false two_users)
    ≡ some left_to_b
unfolding release_created release_cluster release_ensured remove_tag_value split push_head sort
    text_leb join build_tag merge_tags need_update refuse_empty get put delete any equal_fold
    text_beq fits
released = refl

release_keeps_lasting_example : get billing_tag_key left_to_b ≡ some billing_tag_value
unfolding get text_beq fits
release_keeps_lasting_example =
    release_keeps_lasting lbc false [] two_users left_to_b billing_tag_key billing_tag_value
      (refl, (refl, tt)) billing refl refl released

release_drops_cluster_example :
    In cluster_b (split (clusters left_to_b) b'/')
    ↔ (In cluster_b (split both b'/') × (cluster_b ≢ cluster_a))
unfolding get text_beq
release_drops_cluster_example =
    release_drops_cluster lbc [] two_users left_to_b cluster_a both cluster_b (refl, (refl, tt))
      refl refl (inr (unfold remove_tag_value split push_head sort text_leb join fits in refl))
      released (λ e. cc)

release_shared_writes_nothing_example :
    build_tag two_users (release_created lbc true [] two_users) (release_ensured lbc true two_users)
    ≡ none
unfolding get text_beq fits
release_shared_writes_nothing_example =
    release_shared_writes_nothing lbc [] two_users both (refl, (refl, tt)) refl refl
