-- ===== src/Tags/Merge.antt =====
-- What `buildTag` writes, key by key.
use vngcloud_load_balancer_c.Base.{
  ◌≡◌, refl, sym, ◌∙◌, ◌≢◌, inl, inr, Bool-cases, true, false, [], ◌∷◌, arith, Option, none, some,
  Text, text_eq, text_beq_iff, any, In, if◌then◌else◌, is_some, equal_fold_refl,
}
use vngcloud_load_balancer_c.Base.Maps.{
  Map, IsMap, get, put, delete, get-put, get-delete, put-IsMap, delete-IsMap, get_of_In, get_nil,
}
use vngcloud_load_balancer_c.Domain.{cluster_tag_key}
use vngcloud_load_balancer_c.Tags.{
  fits, add_tags, remove_keys, merge_tags, differs, need_update, refuse_empty, build_tag,
}

-- The entry under a key, if its key and value have allowed lengths.
abbrev pub fitting : Text → Option Text → Option Text
fitting k none = none
fitting k (some v) = if fits k v then some v else none

abbrev pub or_else : Option Text → Option Text → Option Text
or_else none b = b
or_else (some a) b = some a

get-add_tags :
    (ts m : Map Text) (k : Text)
    → IsMap ts
    → get k (add_tags ts m) ≡ or_else (fitting k (get k ts)) (get k m)
unfolding get add_tags
get-add_tags [] m k h = refl
get-add_tags ((j, v) ∷ ts) m k (n, h) = ground (
  arith,
  get-add_tags ts (if fits j v then put j v m else m) k h,
  get-put j k v m,
  text_beq_iff j k,
)

get-remove_keys :
    (ts m : Map Text) (k : Text)
    → get k (remove_keys ts m) ≡ (if is_some (get k ts) then none else get k m)
unfolding get remove_keys
get-remove_keys [] m k = refl
get-remove_keys ((j, v) ∷ ts) m k =
    ground (arith, get-remove_keys ts (delete j m) k, get-delete j k m, text_beq_iff j k)

add_tags-IsMap : (ts m : Map Text) → IsMap m → IsMap (add_tags ts m)
unfolding add_tags
add_tags-IsMap [] m h = h
add_tags-IsMap ((j, v) ∷ ts) m h = elim (Bool-cases (fits j v)) [
  | inl e ↦ rw e (add_tags-IsMap ts (put j v m) (put-IsMap j v m h))
  | inr d ↦ rw d (add_tags-IsMap ts m h)
]

remove_keys-IsMap : (ts m : Map Text) → IsMap m → IsMap (remove_keys ts m)
unfolding remove_keys
remove_keys-IsMap [] m h = h
remove_keys-IsMap ((j, _) ∷ ts) m h = remove_keys-IsMap ts (delete j m) (delete-IsMap j m h)

merge_tags-IsMap : (current old new : Map Text) → IsMap (merge_tags current old new)
unfolding merge_tags
merge_tags-IsMap current old new =
    add_tags-IsMap new _ (remove_keys-IsMap old _ (add_tags-IsMap current [] tt))

-- What the merged set holds under a key: the wanted value; else nothing, for a key of the old
-- set; else the current value. Values of a forbidden length count as absent.
unfoldable pub merged_entry : Map Text → Map Text → Map Text → Text → Option Text
merged_entry current old new k =
    or_else (fitting k (get k new))
      (if is_some (get k old) then none else fitting k (get k current))

get-merge_tags :
    (current old new : Map Text) (k : Text)
    → IsMap current
    → IsMap new
    → get k (merge_tags current old new) ≡ merged_entry current old new k
unfolding merge_tags merged_entry
get-merge_tags current old new k h g =
    let kept = add_tags current [] in
    ground (
      arith,
      get-add_tags new (remove_keys old kept) k g,
      get-remove_keys old kept k,
      get-add_tags current [] k h,
      get_nil {V = Text} k,
    )

refuse_empty_sound :
    (m written : Map Text) → refuse_empty m ≡ some written → (written ≡ m) × (written ≢ [])
unfolding refuse_empty
refuse_empty_sound [] written e = cc
refuse_empty_sound (x ∷ m) written e = (ground arith, λ n. ground arith)

build_tag_sound :
    (current old new written : Map Text)
    → build_tag current old new ≡ some written
    → (written ≡ merge_tags current old new) × (need_update current written ≡ true) × (written ≢ [])
unfolding build_tag
build_tag_sound current old new written e =
    elim (Bool-cases (need_update current (merge_tags current old new))) [
      | inl u ↦
          let (same, full) = refuse_empty_sound (merge_tags current old new) written (rw u at e) in
          (same, rw same u, full)
      | inr n ↦ ground arith
    ]

-- For each key, the set that `buildTag` writes holds the wanted value if its length is allowed;
-- else nothing, if the key was recorded as written before; else the current value if its length
-- is allowed, and nothing otherwise. The set is never empty.
pub get-build_tag :
    (current old new written : Map Text)
    → IsMap current
    → IsMap new
    → build_tag current old new ≡ some written
    → (written ≢ []) × ((k : Text) → get k written ≡ merged_entry current old new k)
get-build_tag current old new written h g e =
    let (same, _, full) = build_tag_sound current old new written e in
    (full, λ k. rw same (get-merge_tags current old new k h g))

written-IsMap :
    (current old new written : Map Text) → build_tag current old new ≡ some written → IsMap written
written-IsMap current old new written e =
    rw (build_tag_sound current old new written e).0 (merge_tags-IsMap current old new)

merged_entry_settles :
    (current old new written : Map Text) (k : Text)
    → get k written ≡ merged_entry current old new k
    → merged_entry written old new k ≡ get k written
unfolding merged_entry
merged_entry_settles current old new written k e = ground arith

-- No entry of a list differs from the map, if the map holds each.
any-differs_none :
    (current m : Map Text)
    → ((k v : Text) → In (k, v) m → get k current ≡ some v)
    → any (differs current) m ≡ false
unfolding any differs
any-differs_none current [] h = refl
any-differs_none current ((k, v) ∷ m) h = ground (
  arith,
  h k v (inl refl),
  equal_fold_refl v,
  any-differs_none current m (λ j w i. h j w (inr i)),
)

need_update_steady :
    (current merged : Map Text)
    → IsMap merged
    → ((k : Text) → get k merged ≡ get k current)
    → need_update current merged ≡ false
unfolding need_update
need_update_steady current merged w h = ground (
  arith,
  h cluster_tag_key,
  any-differs_none current merged (λ k v i. sym (h k) ∙ get_of_In k v merged w i),
)

build_tag_steady :
    (current old new : Map Text)
    → IsMap current
    → IsMap new
    → ((k : Text) → merged_entry current old new k ≡ get k current)
    → build_tag current old new ≡ none
unfolding build_tag
build_tag_steady current old new h g same = rw (
    need_update_steady current (merge_tags current old new) (merge_tags-IsMap current old new)
      (λ k. get-merge_tags current old new k h g ∙ same k))

-- Where a set was written, building again from the written set asks for no write.
pub build_tag_settles :
    (current old new written : Map Text)
    → IsMap current
    → IsMap new
    → build_tag current old new ≡ some written
    → build_tag written old new ≡ none
build_tag_settles current old new written h g e =
    let (full, entries) = get-build_tag current old new written h g e in
    let whole = written-IsMap current old new written e in
    build_tag_steady written old new whole g
      (λ k. merged_entry_settles current old new written k (entries k))

refuse_nonempty : (m : Map Text) (k v : Text) → get k m ≡ some v → refuse_empty m ≡ some m
unfolding get refuse_empty
refuse_nonempty [] k v e = cc
refuse_nonempty (x ∷ m) k v e = refl

-- A merged set with an entry that lacks the cluster tag of the current one is written.
pub build_tag_drops_cluster :
    (current old new : Map Text) {c v : Text} (k : Text)
    → IsMap current
    → IsMap new
    → get cluster_tag_key current ≡ some c
    → merged_entry current old new cluster_tag_key ≡ none
    → merged_entry current old new k ≡ some v
    → (written : Map Text) × (build_tag current old new ≡ some written)
unfolding build_tag need_update
build_tag_drops_cluster current old new {c} {v} k h g present gone other =
    let merged = merge_tags current old new in
    let no_cluster = get-merge_tags current old new cluster_tag_key h g ∙ gone in
    let entry = get-merge_tags current old new k h g ∙ other in
    (merged, ground (arith, present, no_cluster, refuse_nonempty merged k v entry))

-- A merged set that holds only current entries, the cluster tag among them, asks for no write.
pub build_tag_within :
    (current old new : Map Text) {c : Text}
    → IsMap current
    → IsMap new
    → ((k v : Text) → merged_entry current old new k ≡ some v → get k current ≡ some v)
    → merged_entry current old new cluster_tag_key ≡ some c
    → build_tag current old new ≡ none
unfolding build_tag need_update
build_tag_within current old new {c} h g within cluster =
    let merged = merge_tags current old new in
    ground (
      arith,
      get-merge_tags current old new cluster_tag_key h g ∙ cluster,
      any-differs_none current merged (λ k v i. within k v (
          sym (get-merge_tags current old new k h g)
          ∙ get_of_In k v merged (merge_tags-IsMap current old new) i)),
    )
