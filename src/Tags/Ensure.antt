-- ===== src/Tags/Ensure.antt =====
-- Reading and writing the tags of one load balancer (internal/usecase/lbc_uc/deploy_tag.go:
-- ensureTags and diffTags; internal/repository/vngcloud_repo/vngcloud_tags.go: ListTags,
-- InvalidateTagsCache and CreateTags). The SDK's calls are parameters: a list is read off the
-- world, a write changes it. The closure that computes the tags may read the world, and what it
-- keeps from one run to the next is the memo.
pub mod Stale
mod Examples
use vngcloud_load_balancer_c.Base.{List, [], ◌∷◌, Option, none, some, Text, map}
use vngcloud_load_balancer_c.Base.Maps.{Map}
use vngcloud_load_balancer_c.Errs.{Error}
use vngcloud_load_balancer_c.Errs.{Result, ok, failed}
use vngcloud_load_balancer_c.Tags.{Tag, build_tag, tags_to_map}

-- The cache holds the tags that are remembered for the load balancer, unless they have expired.
pub record Tagged (W : Type 0) : Type 0 where
  pub world : W
  pub tag_cache : Option (List Tag)

-- `tagValues`.
unfoldable pub present_tags : List (Option Tag) → List Tag
present_tags [] = []
present_tags (none ∷ items) = present_tags items
present_tags (some tag ∷ items) = tag ∷ present_tags items

unfoldable pub tag_values : Option (List (Option Tag)) → List Tag
unfolding present_tags
tag_values none = []
tag_values (some items) = present_tags items

-- `listTagsFrom`.
unfoldable pub list_tags_from : List Tag → Option (List (Option Tag))
list_tags_from values = some (map (λ t. some t) values)

-- `tagDiff`, of what the closure gave: `none` where no update is needed, else what to write and
-- what is authored.
unfoldable pub diff_of :
    Option (List (Option Tag)) → Map Text × Map Text → Option (Map Text × Map Text)
diff_of tags (ensured, created) = elim (build_tag (tags_to_map tags) created ensured) [
  | none ↦ none
  | some written ↦ some (written, ensured)
]

module _ {W : Type 0} (sdk_list : W → Result (Option (List (Option Tag))))
    (sdk_create : Map Text → W → W × Option Error) (patch_status : Map Text → W → W × Option Error)  -- `statusAddCreatedTags`
  where
    -- A read from the SDK, which fills the cache.
    unfoldable pub list_sdk :
        Tagged W
        → Result (Option (List (Option Tag)))
        → Tagged W × Result (Option (List (Option Tag)))
    unfolding tag_values
    list_sdk st (failed e) = (st, Result.failed e)
    list_sdk st (ok tags) = (record st { tag_cache = some (tag_values tags) }, Result.ok tags)

    unfoldable pub list_tags : Tagged W → Tagged W × Result (Option (List (Option Tag)))
    unfolding list_sdk list_tags_from
    list_tags st = elim (st.tag_cache) [
      | some cached ↦ (st, Result.ok (list_tags_from cached))
      | none ↦ list_sdk st (sdk_list st.world)
    ]

    unfoldable pub invalidate_tags_cache : Tagged W → Tagged W
    invalidate_tags_cache st = record st { tag_cache = none }

    unfoldable pub create_tags : Map Text → Tagged W → Tagged W × Option Error
    create_tags tags st =
        let (w, err) = sdk_create tags st.world in (record { world = w; tag_cache = none }, err)

    -- The write, and the record of what was authored.
    unfoldable pub write_tags : Map Text × Map Text → Tagged W → Tagged W × Option Error
    unfolding create_tags
    write_tags (written, authored) st =
        let (sent, err) = create_tags written st in
        elim err [
          | some e ↦ (sent, some e)
          | none ↦
              let (w, patched) = patch_status authored sent.world in
              (record sent { world = w }, patched)
        ]

    -- What the second decision leads to.
    unfoldable pub write_diff :
        Tagged W × Result (Option (Map Text × Map Text)) → Tagged W × Option Error
    unfolding write_tags
    write_diff (fresh, failed e) = (fresh, some e)
    write_diff (fresh, ok none) = (fresh, none)
    write_diff (fresh, ok (some d)) = write_tags d fresh

    module _ {S : Type 0} (compute_tags : Map Text → W → S → (Map Text × Map Text) × S) where
      -- The decision on what was read, and the memo after it.
      unfoldable pub diff_on :
          Tagged W × Result (Option (List (Option Tag)))
          → S
          → (Tagged W × Result (Option (Map Text × Map Text))) × S
      unfolding diff_of
      diff_on (read, failed e) memo = ((read, Result.failed e), memo)
      diff_on (read, ok tags) memo =
          let (wanted, later) = compute_tags (tags_to_map tags) read.world memo in
          ((read, Result.ok (diff_of tags wanted)), later)

      unfoldable pub diff_tags :
          Tagged W → S → (Tagged W × Result (Option (Map Text × Map Text))) × S
      unfolding list_tags diff_on
      diff_tags st memo = diff_on (list_tags st) memo

      -- The second half of `ensureTags`: decide again on a fresh read.
      unfoldable pub decide_again : Tagged W → S → (Tagged W × Option Error) × S
      unfolding diff_tags write_diff invalidate_tags_cache
      decide_again st memo =
          let (diff, later) = diff_tags (invalidate_tags_cache st) memo in (write_diff diff, later)

      -- What the first decision leads to.
      unfoldable pub decide_on :
          (Tagged W × Result (Option (Map Text × Map Text))) × S → (Tagged W × Option Error) × S
      unfolding decide_again
      decide_on ((read, failed e), later) = ((read, some e), later)
      decide_on ((read, ok none), later) = ((read, none), later)
      decide_on ((read, ok (some d)), later) = decide_again read later

      unfoldable pub ensure_tags : Tagged W → S → (Tagged W × Option Error) × S
      unfolding diff_tags decide_on
      ensure_tags st memo = decide_on (diff_tags st memo)
