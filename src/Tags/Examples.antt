-- ===== src/Tags/Examples.antt =====
-- The tag theorems at concrete tag sets.
use vngcloud_load_balancer_c.Base.{
  ◌≡◌, refl, ◌≢◌, ◌↔◌, ◌⊎◌, [], ◌∷◌, arith, none, some, Text, text, In, text_beq, split, push_head,
  join, sort, text_leb, any, equal_fold,
}
use vngcloud_load_balancer_c.Base.Maps.{Map, get, put, delete}
use vngcloud_load_balancer_c.Domain.{cluster_tag_key}
use vngcloud_load_balancer_c.Samples.{cluster_a, cluster_b}
use vngcloud_load_balancer_c.Tags.{
  fits, merge_tags, need_update, refuse_empty, build_tag, join_tag_value, remove_tag_value,
}
use vngcloud_load_balancer_c.Tags.Values.{join_tag_value-Lists, remove_tag_value-Lists}
use vngcloud_load_balancer_c.Tags.Merge.{merged_entry, get-build_tag, build_tag_settles}

abbrev current : Map Text
current = (cluster_tag_key, cluster_b) ∷ (text "team", text "web") ∷ []

abbrev wanted : Map Text
wanted = (cluster_tag_key, cluster_a) ∷ []

abbrev written : Map Text
written = (text "team", text "web") ∷ (cluster_tag_key, cluster_a) ∷ []

builds : build_tag current wanted wanted ≡ some written
unfolding build_tag merge_tags need_update refuse_empty get put delete any equal_fold text_beq fits
builds = refl

joins : join_tag_value (text "bb/aa") (text "cc") b'/' ≡ text "aa/bb/cc"
unfolding join_tag_value split push_head sort text_beq text_leb any join
joins = refl

get-build_tag_example :
    (written ≢ []) × ((k : Text) → get k written ≡ merged_entry current wanted wanted k)
unfolding get text_beq
get-build_tag_example =
    get-build_tag current wanted wanted written (refl, (refl, tt)) (refl, tt) builds

build_tag_settles_example : build_tag written wanted wanted ≡ none
unfolding get text_beq
build_tag_settles_example =
    build_tag_settles current wanted wanted written (refl, (refl, tt)) (refl, tt) builds

join_tag_value-Lists_example :
    In (text "cc") (split (join_tag_value (text "bb/aa") (text "cc") b'/') b'/')
    ↔ ((text "cc" ≡ text "cc") ⊎ In (text "cc") (split (text "bb/aa") b'/'))
join_tag_value-Lists_example =
    join_tag_value-Lists (text "bb/aa") (text "cc") b'/' (text "cc") (omega arith) (λ e. cc)

remove_tag_value-Lists_example :
    In (text "aa") (split (remove_tag_value (text "bb/aa") (text "bb") b'/') b'/')
    ↔ (In (text "aa") (split (text "bb/aa") b'/') × (text "aa" ≢ text "bb"))
remove_tag_value-Lists_example =
    remove_tag_value-Lists (text "bb/aa") (text "bb") b'/' (text "aa") (λ e. cc)
