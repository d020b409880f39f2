-- ===== src/Tags/Wanted/Sharing.antt =====
-- Clusters that share a load balancer keep each other's ids in its cluster tag.
use vngcloud_load_balancer_c.Base.{
  ◌≡◌, refl, ap, ◌∙◌, ◌≢◌, ◌↔◌, ◌⊎◌, inl, inr, ◌<◌, Bool, Bool-cases, true, false, [], arith,
  Option, none, some, Text, ◌==◌, text_eq, text_beq, In, get_or, split, length,
}
use vngcloud_load_balancer_c.Base.Maps.{Map, IsMap, get, get-put_self, get-put_ne, put-IsMap}
use vngcloud_load_balancer_c.Base.Parts.{Lacks}
use vngcloud_load_balancer_c.Api.{LoadBalancerConfig}
use vngcloud_load_balancer_c.Domain.{
  cluster_tag_key, cluster_tag_value_separator, vpc_tag_key, billing_tag_key, billing_tag_value,
  created_by_cluster_tag_key,
}
use vngcloud_load_balancer_c.Tags.{fits, build_tag, join_tag_value}
use vngcloud_load_balancer_c.Tags.Merge.{merged_entry, get-build_tag, build_tag_drops_cluster}
use vngcloud_load_balancer_c.Tags.Values.{join_tag_value-Lists}
use vngcloud_load_balancer_c.Tags.Wanted.{
  valid_cluster_id, add_cluster, add_vpc, add_provenance, want_tags,
}

-- The tag keys of the controller are distinct.
vpc-ne-cluster : text_beq vpc_tag_key cluster_tag_key ≡ false
unfolding text_beq
vpc-ne-cluster = refl

billing-ne-cluster : text_beq billing_tag_key cluster_tag_key ≡ false
unfolding text_beq
billing-ne-cluster = refl

provenance-ne-cluster : text_beq created_by_cluster_tag_key cluster_tag_key ≡ false
unfolding text_beq
provenance-ne-cluster = refl

provenance-ne-billing : text_beq created_by_cluster_tag_key billing_tag_key ≡ false
unfolding text_beq
provenance-ne-billing = refl

-- The value of the cluster tag; a missing tag reads as the empty string.
abbrev pub clusters : Map Text → Text
clusters tags = get_or (get cluster_tag_key tags) []

add_provenance-get :
    (id : Option Text) (b : Bool) (k : Text) (tags : Map Text)
    → text_beq created_by_cluster_tag_key k ≡ false
    → get k (add_provenance id b tags) ≡ get k tags
unfolding add_provenance
add_provenance-get none b k tags n = refl
add_provenance-get (some id) true k tags n = get-put_ne created_by_cluster_tag_key k id tags n
add_provenance-get (some id) false k tags n = refl

add_vpc-get :
    (vpc k : Text) (tags : Map Text)
    → text_beq vpc_tag_key k ≡ false
    → get k (add_vpc vpc tags) ≡ get k tags
unfolding add_vpc
add_vpc-get vpc k tags n = ground (arith, get-put_ne vpc_tag_key k vpc tags n)

add_provenance-IsMap :
    (id : Option Text) (b : Bool) (tags : Map Text) → IsMap tags → IsMap (add_provenance id b tags)
unfolding add_provenance
add_provenance-IsMap none b tags h = h
add_provenance-IsMap (some id) true tags h = put-IsMap created_by_cluster_tag_key id tags h
add_provenance-IsMap (some id) false tags h = h

add_vpc-IsMap : (vpc : Text) (tags : Map Text) → IsMap tags → IsMap (add_vpc vpc tags)
unfolding add_vpc
add_vpc-IsMap vpc tags h = elim (Bool-cases (vpc == [])) [
  | inl e ↦ rw e h
  | inr d ↦ rw d (put-IsMap vpc_tag_key vpc tags h)
]

add_cluster-IsMap :
    (id : Option Text) (current tags : Map Text) → IsMap tags → IsMap (add_cluster id current tags)
unfolding add_cluster
add_cluster-IsMap none current tags h = h
add_cluster-IsMap (some id) current tags h = put-IsMap cluster_tag_key _ tags h

want-cluster :
    (lbc : LoadBalancerConfig) (lb_id : Text) (current : Map Text) {id : Text}
    → valid_cluster_id lbc ≡ some id
    → get cluster_tag_key (want_tags lbc lb_id current)
      ≡ some (join_tag_value (clusters current) id cluster_tag_value_separator)
unfolding want_tags
want-cluster lbc lb_id current {id} e =
    let own = add_cluster (valid_cluster_id lbc) current lbc.spec.tags in
    let with_vpc = add_vpc lbc.spec.vpc_id own in
    add_provenance-get (valid_cluster_id lbc) _ cluster_tag_key _ provenance-ne-cluster
    ∙ get-put_ne billing_tag_key cluster_tag_key billing_tag_value with_vpc billing-ne-cluster
    ∙ add_vpc-get lbc.spec.vpc_id cluster_tag_key own vpc-ne-cluster
    ∙ rw e (unfold add_cluster in get-put_self cluster_tag_key _ lbc.spec.tags)

want-billing :
    (lbc : LoadBalancerConfig) (lb_id : Text) (current : Map Text)
    → get billing_tag_key (want_tags lbc lb_id current) ≡ some billing_tag_value
unfolding want_tags
want-billing lbc lb_id current =
    add_provenance-get (valid_cluster_id lbc) _ billing_tag_key _ provenance-ne-billing
    ∙ get-put_self billing_tag_key billing_tag_value _

want-IsMap :
    (lbc : LoadBalancerConfig) (lb_id : Text) (current : Map Text)
    → IsMap lbc.spec.tags
    → IsMap (want_tags lbc lb_id current)
unfolding want_tags
want-IsMap lbc lb_id current h = add_provenance-IsMap (valid_cluster_id lbc) _ _ (
    put-IsMap billing_tag_key billing_tag_value _ (
      add_vpc-IsMap lbc.spec.vpc_id _
        (add_cluster-IsMap (valid_cluster_id lbc) current lbc.spec.tags h)))

-- Where a deploy writes tags, the id of this cluster has no slash, the separator, and the joined
-- cluster list has an allowed length, the load balancer then lists exactly the clusters that it
-- listed and this one: no cluster takes the id of another off.
pub deploy_keeps_clusters :
    (lbc : LoadBalancerConfig) (lb_id id : Text) (current written : Map Text) (v : Text)
    → IsMap current
    → IsMap lbc.spec.tags
    → valid_cluster_id lbc ≡ some id
    → Lacks cluster_tag_value_separator id
    → fits cluster_tag_key (join_tag_value (clusters current) id cluster_tag_value_separator) ≡ true
    → build_tag current lbc.status.created_tags (want_tags lbc lb_id current) ≡ some written
    → v ≢ []
    → In v (split (clusters written) cluster_tag_value_separator)
      ↔ ((v ≡ id) ⊎ In v (split (clusters current) cluster_tag_value_separator))
unfolding merged_entry
deploy_keeps_clusters lbc lb_id id current written v h g c l f e n =
    let entries = (get-build_tag current _ _ written h (want-IsMap lbc lb_id current g) e).1 in
    let joined = join_tag_value (clusters current) id cluster_tag_value_separator in
    let holds : get cluster_tag_key written ≡ some joined =
      ground (arith, entries cluster_tag_key, want-cluster lbc lb_id current c) in
    rw (ap (λ o. get_or o []) holds) (join_tag_value-Lists (clusters current) id _ v l n)

-- Where the joined cluster list exceeds 255 bytes and this cluster has recorded the cluster tag,
-- a deploy writes a set without the cluster tag: every cluster's id comes off.
pub deploy_loses_clusters :
    (lbc : LoadBalancerConfig) (lb_id id c r : Text) (current : Map Text)
    → IsMap current
    → IsMap lbc.spec.tags
    → valid_cluster_id lbc ≡ some id
    → get cluster_tag_key current ≡ some c
    → get cluster_tag_key lbc.status.created_tags ≡ some r
    → 255 < length (join_tag_value (clusters current) id cluster_tag_value_separator)
    → (written : Map Text) × (build_tag current lbc.status.created_tags
          (want_tags lbc lb_id current)
        ≡ some written)
      × (get cluster_tag_key written ≡ none)
unfolding merged_entry fits
deploy_loses_clusters lbc lb_id id c r current h g valid present recorded long =
    let wanted = want_tags lbc lb_id current in
    let m = want-IsMap lbc lb_id current g in
    let gone : merged_entry current lbc.status.created_tags wanted cluster_tag_key ≡ none =
      ground (arith, want-cluster lbc lb_id current valid) in
    let billing : merged_entry current lbc.status.created_tags wanted billing_tag_key
        ≡ some billing_tag_value =
      ground (arith, want-billing lbc lb_id current) in
    let (written, e) =
      build_tag_drops_cluster current _ wanted billing_tag_key h m present gone billing in
    (written, e, (get-build_tag current _ wanted written h m e).1 cluster_tag_key ∙ gone)
