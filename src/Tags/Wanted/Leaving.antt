-- ===== src/Tags/Wanted/Leaving.antt =====
-- What a teardown leaves of the tags of a load balancer that outlives it.
use vngcloud_load_balancer_c.Base.{
  ◌≡◌, refl, ◌∙◌, ◌≢◌, ◌↔◌, ◌⊎◌, Bool, true, false, [], arith, none, some, Text, ◌==◌, text_eq,
  text_beq, text_beq_iff, In, split, if◌then◌else◌,
}
use vngcloud_load_balancer_c.Base.Maps.{
  Map, IsMap, get, get_nil, get-put_self, get-delete_self, get-delete_ne,
}
use vngcloud_load_balancer_c.Api.{LoadBalancerConfig}
use vngcloud_load_balancer_c.Domain.{
  cluster_tag_key, cluster_tag_value_separator, vpc_tag_key, billing_tag_key,
  created_by_cluster_tag_key,
}
use vngcloud_load_balancer_c.Tags.{fits, build_tag, remove_tag_value}
use vngcloud_load_balancer_c.Tags.Merge.{merged_entry, get-build_tag, build_tag_within}
use vngcloud_load_balancer_c.Tags.Values.{remove_tag_value-Lists}
use vngcloud_load_balancer_c.Tags.Wanted.{release_ensured, release_cluster, release_created}
use vngcloud_load_balancer_c.Tags.Wanted.Sharing.{clusters}

-- The tags that a teardown never takes off.
pub data IsLasting : Text → Type 0 where
  vpc : IsLasting vpc_tag_key
  billing : IsLasting billing_tag_key
  provenance : IsLasting created_by_cluster_tag_key

lasting-ne-cluster : {k : Text} → IsLasting k → text_beq cluster_tag_key k ≡ false
unfolding text_beq
lasting-ne-cluster vpc = refl
lasting-ne-cluster billing = refl
lasting-ne-cluster provenance = refl

get-release_ensured_lasting :
    (lbc : LoadBalancerConfig) (shared : Bool) (current : Map Text) {k : Text}
    → IsLasting k
    → get k (release_ensured lbc shared current) ≡ none
unfolding release_ensured get
get-release_ensured_lasting lbc shared current {k} l = ground (arith, lasting-ne-cluster l)

release_ensured-IsMap :
    (lbc : LoadBalancerConfig) (shared : Bool) (current : Map Text)
    → IsMap (release_ensured lbc shared current)
unfolding release_ensured get
release_ensured-IsMap lbc shared current = ground arith

get-release_created_lasting :
    (lbc : LoadBalancerConfig) (shared : Bool) (recorded current : Map Text) {k : Text}
    → IsLasting k
    → get k (release_created lbc shared recorded current) ≡ none
unfolding release_created text_beq
get-release_created_lasting lbc shared recorded current vpc =
    get-delete_ne created_by_cluster_tag_key vpc_tag_key _ refl
    ∙ get-delete_ne billing_tag_key vpc_tag_key _ refl
    ∙ get-delete_self vpc_tag_key _
get-release_created_lasting lbc shared recorded current billing =
    get-delete_ne created_by_cluster_tag_key billing_tag_key _ refl
    ∙ get-delete_self billing_tag_key _
get-release_created_lasting lbc shared recorded current provenance =
    get-delete_self created_by_cluster_tag_key _

get-release_created_cluster :
    (lbc : LoadBalancerConfig) (shared : Bool) (recorded current : Map Text)
    → get cluster_tag_key (release_created lbc shared recorded current)
      ≡ get cluster_tag_key (release_cluster lbc shared recorded current)
unfolding release_created text_beq
get-release_created_cluster lbc shared recorded current =
    get-delete_ne created_by_cluster_tag_key cluster_tag_key _ refl
    ∙ get-delete_ne billing_tag_key cluster_tag_key _ refl
    ∙ get-delete_ne vpc_tag_key cluster_tag_key _ refl

-- A teardown that writes leaves the VPC, billing and provenance tags as they are, if their lengths
-- are allowed, whoever shares the load balancer.
pub release_keeps_lasting :
    (lbc : LoadBalancerConfig) (shared : Bool) (recorded current written : Map Text) (k v : Text)
    → IsMap current
    → IsLasting k
    → get k current ≡ some v
    → fits k v ≡ true
    → build_tag current
        (release_created lbc shared recorded current)
        (release_ensured lbc shared current)
      ≡ some written
    → get k written ≡ some v
unfolding merged_entry
release_keeps_lasting lbc shared recorded current written k v h l c f e = ground (
  arith,
  (get-build_tag current _ _ written h (release_ensured-IsMap lbc shared current) e).1 k,
  get-release_ensured_lasting lbc shared current l,
  get-release_created_lasting lbc shared recorded current l,
)

get-release_ensured_cluster :
    (lbc : LoadBalancerConfig) (current : Map Text) {id : Text}
    → lbc.spec.cluster_id ≡ some id
    → get cluster_tag_key (release_ensured lbc false current) ≡ (
        let left = remove_tag_value (clusters current) id cluster_tag_value_separator in
        if left == [] then none else some left)
unfolding release_ensured get text_beq
get-release_ensured_cluster lbc current {id} e = ground (arith, e)

get-release_cluster_own :
    (lbc : LoadBalancerConfig) (recorded current : Map Text) {id c : Text}
    → lbc.spec.cluster_id ≡ some id
    → get cluster_tag_key current ≡ some c
    → get cluster_tag_key (release_cluster lbc false recorded current) ≡ some c
unfolding release_cluster
get-release_cluster_own lbc recorded current {id} {c} e present =
    ground (arith, e, present, get-put_self cluster_tag_key c recorded)

-- Where no sibling resource uses the load balancer, a teardown that writes leaves on its cluster
-- list exactly the other clusters; the list is assumed present, and what is left of it empty or
-- of an allowed length.
pub release_drops_cluster :
    (lbc : LoadBalancerConfig) (recorded current written : Map Text) (id c v : Text)
    → IsMap current
    → lbc.spec.cluster_id ≡ some id
    → get cluster_tag_key current ≡ some c
    → (let left = remove_tag_value c id cluster_tag_value_separator in
        (left ≡ []) ⊎ (fits cluster_tag_key left ≡ true))
    → build_tag current
        (release_created lbc false recorded current)
        (release_ensured lbc false current)
      ≡ some written
    → v ≢ []
    → In v (split (clusters written) cluster_tag_value_separator)
      ↔ (In v (split c cluster_tag_value_separator) × (v ≢ id))
unfolding merged_entry
release_drops_cluster lbc recorded current written id c v h ours present short e n =
    let entries =
      (get-build_tag current _ _ written h (release_ensured-IsMap lbc false current) e).1 in
    let left = remove_tag_value c id cluster_tag_value_separator in
    let same : clusters written ≡ left = ground (
      arith,
      entries cluster_tag_key,
      get-release_ensured_cluster lbc current ours,
      get-release_created_cluster lbc false recorded current,
      get-release_cluster_own lbc recorded current ours present,
      text_beq_iff left [],
    ) in
    rw same (remove_tag_value-Lists c id cluster_tag_value_separator v n)

-- While a sibling resource of this cluster uses the load balancer, a teardown writes no tags: the
-- cluster list, of an allowed length, stays as it is.
pub release_shared_writes_nothing :
    (lbc : LoadBalancerConfig) (recorded current : Map Text) (c : Text)
    → IsMap current
    → get cluster_tag_key current ≡ some c
    → fits cluster_tag_key c ≡ true
    → build_tag current
        (release_created lbc true recorded current)
        (release_ensured lbc true current)
      ≡ none
unfolding merged_entry release_ensured release_cluster
release_shared_writes_nothing lbc recorded current c h present f =
    build_tag_within current _ (release_ensured lbc true current) {c = c} h
      (release_ensured-IsMap lbc true current) (λ k v e. ground (arith, get_nil {V = Text} k))
      (ground (
        arith,
        get-release_created_cluster lbc true recorded current,
        get-delete_self cluster_tag_key recorded,
        get_nil {V = Text} cluster_tag_key,
      ))
