-- ===== src/Ownership/Laws.antt =====
-- When this cluster is the last user of a load balancer.
use vngcloud_load_balancer_c.Base.{
  ◌≡◌, ◌≢◌, inl, inr, Bool-cases, true, [], arith, some, Text, ◌==◌, text_eq, text_beq_iff,
  Option-cases, In, get_or, split,
}
use vngcloud_load_balancer_c.Base.Maps.{Map, get}
use vngcloud_load_balancer_c.Api.{LoadBalancerConfig}
use vngcloud_load_balancer_c.Domain.{
  cluster_tag_key, cluster_tag_value_separator, created_by_cluster_tag_key,
}
use vngcloud_load_balancer_c.Tags.{remove_tag_value}
use vngcloud_load_balancer_c.Tags.Values.{any-In, remove_tag_value-Lists}
use vngcloud_load_balancer_c.Ownership.{alone_on, looks_last_out_of}

In-empty : {v : Text} → v ≢ [] → In v (split [] cluster_tag_value_separator) → ⊥
unfolding split
In-empty n i = elim i [ inl e ↦ n e | inr k ↦ k ]

alone_on_sound :
    (users id : Text)
    → alone_on users id ≡ true
    → In id (split users cluster_tag_value_separator)
      × ((v : Text) → v ≢ [] → In v (split users cluster_tag_value_separator) → v ≡ id)
unfolding alone_on
alone_on_sound users id h = (
  any-In id _ (ground arith),
  λ v n i. elim (Bool-cases (v == id)) [
    | inl e ↦ (text_beq_iff v id).0 e
    | inr d ↦
        let left = remove_tag_value users id cluster_tag_value_separator in
        let none_left : left ≡ [] = ground (arith, text_beq_iff left []) in
        let stays =
          (remove_tag_value-Lists users id cluster_tag_value_separator v n).1
            (i, λ e. ground (arith, text_beq_iff v id)) in
        absurd (In-empty n (rw none_left at stays))
  ],
)

-- A cluster that looks like the last one out is listed on the load balancer, and every id listed
-- there is its own; some cluster is recorded as the creator.
pub last_out_alone :
    (lbc : LoadBalancerConfig) (current : Map Text)
    → looks_last_out_of lbc current ≡ true
    → (id : Text) × (creator : Text) × (lbc.spec.cluster_id ≡ some id)
      × (get created_by_cluster_tag_key current ≡ some creator)
      × In id (split (get_or (get cluster_tag_key current) []) cluster_tag_value_separator)
      × ((v : Text)
          → v ≢ []
          → In v (split (get_or (get cluster_tag_key current) []) cluster_tag_value_separator)
          → v ≡ id)
unfolding looks_last_out_of
last_out_alone lbc current h = elim (Option-cases (get created_by_cluster_tag_key current)) [
  | inl n ↦ ground arith
  | inr (creator, c) ↦ elim (Option-cases lbc.spec.cluster_id) [
    | inl n ↦ ground arith
    | inr (id, o) ↦
        let (listed, only) =
          alone_on_sound (get_or (get cluster_tag_key current) []) id (ground arith) in
        (id, creator, o, c, listed, only)
  ]
]
