-- ===== src/Tags.antt =====
-- The tags of a load balancer (internal/usecase/lbc_uc/deploy_tag.go and delete_tag.go): what
-- this cluster wants on it, and the set to write.
pub mod Values
pub mod Merge
pub mod Wanted
pub mod Ensure
mod Examples
use vngcloud_load_balancer_c.Base.{
  ℕ, Bool, true, false, not, ◌&&◌, ◌||◌, List, [], ◌∷◌, Option, none, some, Text, ◌==◌, nat_eq,
  text_eq, length, leb, if◌then◌else◌, any, has_prefix, split, join, sort, equal_fold, get_or,
  is_some,
}
use vngcloud_load_balancer_c.Base.Maps.{Map, get, put, delete}
use vngcloud_load_balancer_c.Domain.{cluster_tag_key, vks_cluster_id_length, vks_cluster_id_prefix}

-- entityv2.Tag of the SDK: what the code reads of it.
pub record Tag : Type 0 where
  pub key : Text
  pub value : Text
  pub system_tag : Bool

flatten_tags : List (Option Tag) → Map Text → Map Text
flatten_tags [] tags = tags
flatten_tags (none ∷ items) tags = flatten_tags items tags
flatten_tags (some tag ∷ items) tags =
    flatten_tags items (if tag.system_tag then tags else put tag.key tag.value tags)

-- A nil list has no items.
unfoldable pub tags_to_map : Option (List (Option Tag)) → Map Text
unfolding flatten_tags
tags_to_map none = []
tags_to_map (some items) = flatten_tags items []

-- The keys of the Go map `values`, in the order in which they were added.
add_value : Text → List Text → List Text
add_value v values = if v == [] || any (λ w. w == v) values then values else v ∷ values

add_values : List Text → List Text → List Text
unfolding add_value
add_values [] values = values
add_values (v ∷ vs) values = add_values vs (add_value v values)

unfoldable pub join_tag_value : Text → Text → ℕ → Text
unfolding add_values
join_tag_value current value separator =
    join (sort (add_value value (add_values (split current separator) []))) separator

drop_value : Text → List Text → List Text
drop_value value [] = []
drop_value value (v ∷ vs) =
    let rest = drop_value value vs in if v == [] || v == value then rest else v ∷ rest

unfoldable pub remove_tag_value : Text → Text → ℕ → Text
unfolding drop_value
remove_tag_value current value separator =
    join (sort (drop_value value (split current separator))) separator

unfoldable pub is_valid_vks_id : Text → Bool
is_valid_vks_id id = length id == vks_cluster_id_length && has_prefix vks_cluster_id_prefix id

-- The length tests on a key and a value, in bytes.
unfoldable pub fits : Text → Text → Bool
fits k v = leb 3 (length k) && (leb (length k) 255 && (leb 3 (length v) && leb (length v) 255))

add_tags : Map Text → Map Text → Map Text
unfolding fits
add_tags [] merged = merged
add_tags ((k, v) ∷ tags) merged = add_tags tags (if fits k v then put k v merged else merged)

remove_keys : Map Text → Map Text → Map Text
remove_keys [] merged = merged
remove_keys ((k, _) ∷ tags) merged = remove_keys tags (delete k merged)

merge_tags : Map Text → Map Text → Map Text → Map Text
unfolding add_tags remove_keys
merge_tags current old new = add_tags new (remove_keys old (add_tags current []))

-- A missing key reads as the empty string.
differs : Map Text → Text × Text → Bool
differs current (k, v) = not (equal_fold (get_or (get k current) []) v)

-- Whether the merged set differs from the current one, or drops the cluster tag.
need_update : Map Text → Map Text → Bool
unfolding differs
need_update current merged =
    any (differs current) merged
    || (not (is_some (get cluster_tag_key merged)) && is_some (get cluster_tag_key current))

-- An empty set is never written.
refuse_empty : Map Text → Option (Map Text)
refuse_empty [] = none
refuse_empty (m ∷ ms) = some (m ∷ ms)

-- `some` is `true` with the set to write.
pub build_tag : Map Text → Map Text → Map Text → Option (Map Text)
build_tag current old new =
    let merged = merge_tags current old new in
    if need_update current merged then refuse_empty merged else none
