-- ===== src/Ownership/Examples.antt =====
-- Ownership at concrete resources.
use vngcloud_load_balancer_c.Base.{
  ◌≡◌, refl, ◌≢◌, [], ◌∷◌, none, some, Text, text, text_beq, In, split, push_head, join, sort, any,
  has_prefix, get_or,
}
use vngcloud_load_balancer_c.Base.Maps.{Map, get}
use vngcloud_load_balancer_c.Api.{LoadBalancerConfig}
use vngcloud_load_balancer_c.Domain.{
  cluster_tag_key, cluster_tag_value_separator, created_by_cluster_tag_key,
}
use vngcloud_load_balancer_c.Samples.{cluster_a, cluster_b, spec_of, status_of, config}
use vngcloud_load_balancer_c.Tags.{is_valid_vks_id, remove_tag_value}
use vngcloud_load_balancer_c.Ownership.{looks_last_out_of}
use vngcloud_load_balancer_c.Ownership.Laws.{last_out_alone}

abbrev made_by_b : Map Text
made_by_b = (created_by_cluster_tag_key, cluster_b) ∷ (cluster_tag_key, cluster_a) ∷ []

abbrev leaving : LoadBalancerConfig
leaving = config (text "web") (spec_of (some cluster_a) none []) (status_of none none [])

last_out_alone_example :
    (id : Text) × (creator : Text) × (some cluster_a ≡ some id)
    × (get created_by_cluster_tag_key made_by_b ≡ some creator)
    × In id (split (get_or (get cluster_tag_key made_by_b) []) cluster_tag_value_separator)
    × ((v : Text)
        → v ≢ []
        → In v (split (get_or (get cluster_tag_key made_by_b) []) cluster_tag_value_separator)
        → v ≡ id)
last_out_alone_example = last_out_alone leaving made_by_b (
    unfold looks_last_out_of get text_beq is_valid_vks_id has_prefix any split push_head
      remove_tag_value sort join in
    refl)
