-- ===== src/Tags/Ensure/Examples.antt =====
-- A cloud that keeps the tags of one load balancer, and a cache that is out of date.
use vngcloud_load_balancer_c.Base.{
  ◌≡◌, ◌⊎◌, refl, false, List, [], ◌∷◌, Option, none, some, Text, text, text_beq, map, any,
  equal_fold,
}
use vngcloud_load_balancer_c.Base.Maps.{Map, get, put, delete}
use vngcloud_load_balancer_c.Errs.{Error}
use vngcloud_load_balancer_c.Errs.{Result}
use vngcloud_load_balancer_c.Api.{LoadBalancerConfig}
use vngcloud_load_balancer_c.Samples.{cluster_a, config, spec_of, status_of}
use vngcloud_load_balancer_c.Tags.Wanted.{want_tags}
use vngcloud_load_balancer_c.Tags.{
  Tag, build_tag, fits, tags_to_map, need_update, merge_tags, refuse_empty,
}
use vngcloud_load_balancer_c.Tags.Ensure.{ensure_tags}
use vngcloud_load_balancer_c.Tags.Ensure.Stale.{cache_only_delays, with_cache}

abbrev tag : Text → Text → Tag
tag k v = record { key = k; value = v; system_tag = false }

abbrev cloud_list : List Tag → Result (Option (List (Option Tag)))
cloud_list w = Result.ok (some (map (λ t. some t) w))

abbrev cloud_create : Map Text → List Tag → List Tag × Option Error
cloud_create m w = (map (λ (e : Text × Text). tag e.0 e.1) m, none)

abbrev no_patch : Map Text → List Tag → List Tag × Option Error
no_patch m w = (w, none)

-- The closure of a deploy, which keeps nothing.
abbrev lbc : LoadBalancerConfig
lbc = config (text "web") (spec_of (some cluster_a) none []) (status_of none none [])

abbrev want_deploy : Map Text → List Tag → Unit {0} → (Map Text × Map Text) × Unit {0}
want_deploy current w memo = ((want_tags lbc (text "lb-1") current, lbc.status.created_tags), memo)

-- The tag `env` is wanted to be `production`.
abbrev want_env : Map Text → List Tag → Unit {0} → (Map Text × Map Text) × Unit {0}
want_env current w memo = (((text "env", text "production") ∷ [], []), memo)

abbrev on_cloud : List Tag
on_cloud = tag (text "owner") (text "team") ∷ []

abbrev remembered : List Tag
remembered = tag (text "env") (text "test") ∷ []

cache_only_delays_example :
    ((ensure_tags cloud_list cloud_create no_patch want_deploy
        (with_cache on_cloud (some remembered))
        tt).0.0.world
      ≡ on_cloud)
    ⊎ ((ensure_tags cloud_list cloud_create no_patch want_deploy
          (with_cache on_cloud (some remembered))
          tt).0
        ≡ (ensure_tags cloud_list cloud_create no_patch want_deploy
            (with_cache on_cloud none)
            tt).0)
cache_only_delays_example =
    cache_only_delays cloud_list cloud_create no_patch want_deploy (λ _ _ _ _. refl) on_cloud
      (some remembered) tt tt

-- The stale cache leads to a write, which keeps the tag that only the cloud has.
stale_write_test :
    (ensure_tags cloud_list cloud_create no_patch want_env
      (with_cache on_cloud (some remembered))
      tt).0.0.world
    ≡ tag (text "owner") (text "team") ∷ tag (text "env") (text "production") ∷ []
unfolding ensure_tags build_tag fits tags_to_map get put delete text_beq any equal_fold need_update
    merge_tags refuse_empty
stale_write_test = refl
