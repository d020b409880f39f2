-- ===== src/Tags/Ensure/Stale.antt =====
-- What a stale cache can do.
use vngcloud_load_balancer_c.Base.{
  ◌≡◌, ◌⊎◌, ◌∙◌, sym, ap, refl, inl, inr, List, Option, none, some, Text,
}
use vngcloud_load_balancer_c.Base.Maps.{Map}
use vngcloud_load_balancer_c.Errs.{Error}
use vngcloud_load_balancer_c.Errs.{Result, ok, failed}
use vngcloud_load_balancer_c.Tags.{Tag, tags_to_map}
use vngcloud_load_balancer_c.Tags.Ensure.{
  Tagged, decide_again, decide_on, diff_on, list_sdk, diff_of, diff_tags, ensure_tags, list_tags,
  tag_values, write_diff,
}

abbrev pub with_cache : {W : Type 0} → W → Option (List Tag) → Tagged W
with_cache w c = record { world = w; tag_cache = c }

-- What the closure answers does not hang on what it has kept.
abbrev pub Forgets : {W S : Type 0} → (Map Text → W → S → (Map Text × Map Text) × S) → Type 0
Forgets {W = W} {S = S} compute_tags =
    (tags : Map Text) (w : W) (m n : S) → (compute_tags tags w m).0 ≡ (compute_tags tags w n).0

module _ {W S : Type 0} (sdk_list : W → Result (Option (List (Option Tag))))
    (sdk_create : Map Text → W → W × Option Error) (patch_status : Map Text → W → W × Option Error)
    (compute_tags : Map Text → W → S → (Map Text × Map Text) × S)
    (forgets : Forgets compute_tags) where
  abbrev decided : Tagged W → S → Tagged W × Option Error
  decided st m = (decide_again sdk_list sdk_create patch_status compute_tags st m).0

  abbrev written : Tagged W × Result (Option (Map Text × Map Text)) → Tagged W × Option Error
  written x = write_diff sdk_list sdk_create patch_status x

  abbrev read_sdk :
      W → Result (Option (List (Option Tag))) → Tagged W × Result (Option (List (Option Tag)))
  read_sdk w r = list_sdk sdk_list sdk_create patch_status (with_cache w none) r

  abbrev diff :
      Tagged W × Result (Option (List (Option Tag)))
      → S
      → (Tagged W × Result (Option (Map Text × Map Text))) × S
  diff x m = diff_on sdk_list sdk_create patch_status compute_tags x m

  abbrev ended : (Tagged W × Result (Option (Map Text × Map Text))) × S → Tagged W × Option Error
  ended x = (decide_on sdk_list sdk_create patch_status compute_tags x).0

  again_on :
      (w : W) (r : Result (Option (List (Option Tag)))) (m n : S)
      → written (diff (read_sdk w r) m).0 ≡ written (diff (read_sdk w r) n).0
  unfolding diff_on list_sdk
  again_on w (failed e) m n = refl
  again_on w (ok tags) m n =
      ap
        (λ (x : Map Text × Map Text).
          written (with_cache w (some (tag_values tags)), Result.ok (diff_of tags x)))
        (forgets (tags_to_map tags) w m n)

  -- A second decision hangs neither on the cache nor on the memo.
  again_same :
      (w : W) (a b : Option (List Tag)) (m n : S)
      → decided (with_cache w a) m ≡ decided (with_cache w b) n
  unfolding decide_again diff_tags list_tags
  again_same w a b m n = again_on w (sdk_list w) m n

  -- The end of the first decision, on what it gave.
  first_on :
      (w : W) (tags : Option (List (Option Tag))) (o : Option (Map Text × Map Text)) (m n : S)
      → decided (with_cache w none) n ≡ written (with_cache w (some (tag_values tags)), Result.ok o)
      → ended ((with_cache w (some (tag_values tags)), Result.ok o), m)
        ≡ decided (with_cache w none) n
  unfolding decide_on
  first_on w tags none m n e = sym e
  first_on w tags (some d) m n e = again_same w (some (tag_values tags)) none m n

  uncached_on :
      (w : W) (r : Result (Option (List (Option Tag)))) (m n : S)
      → decided (with_cache w none) m ≡ written (diff (read_sdk w r) m).0
      → ended (diff (read_sdk w r) m) ≡ decided (with_cache w none) n
  unfolding diff_on list_sdk decide_on
  uncached_on w (failed x) m n e = sym e ∙ again_same w none none m n
  uncached_on w (ok tags) m n e = first_on w tags _ _ n (again_same w none none n m ∙ e)

  -- Without a cache, deciding once and deciding again come to the same.
  uncached_once :
      (w : W) (c : Option (List Tag)) (m n : S)
      → (ensure_tags sdk_list sdk_create patch_status compute_tags (with_cache w none) m).0
        ≡ decided (with_cache w c) n
  unfolding ensure_tags diff_tags list_tags decide_again
  uncached_once w c m n = uncached_on w (sdk_list w) m n refl ∙ again_same w none c n n

  cached_on :
      (w : W) (v : List Tag) (o : Option (Map Text × Map Text)) (m : S)
      → ((ended ((with_cache w (some v), Result.ok o), m)).0.world ≡ w)
        ⊎ ((n : S) × (ended ((with_cache w (some v), Result.ok o), m)
              ≡ decided (with_cache w (some v)) n))
  unfolding decide_on
  cached_on w v none m = inl refl
  cached_on w v (some d) m = inr (m, refl)

  cached_once :
      (w : W) (v : List Tag) (m : S)
      → ((ensure_tags sdk_list sdk_create patch_status compute_tags
            (with_cache w (some v))
            m).0.0.world
          ≡ w)
        ⊎ ((n : S) × ((ensure_tags sdk_list sdk_create patch_status compute_tags
                (with_cache w (some v))
                m).0
              ≡ decided (with_cache w (some v)) n))
  unfolding ensure_tags diff_tags list_tags diff_on
  cached_once w v m = cached_on w v _ _

  -- For a closure whose answer does not hang on what it has kept from an earlier run, whatever
  -- the cache holds, it never decides what is written: the world stays as it is, or the whole
  -- outcome is the one without a cache.
  pub cache_only_delays :
      (w : W) (c : Option (List Tag)) (m n : S)
      → ((ensure_tags sdk_list sdk_create patch_status compute_tags (with_cache w c) m).0.0.world
          ≡ w)
        ⊎ ((ensure_tags sdk_list sdk_create patch_status compute_tags (with_cache w c) m).0
            ≡ (ensure_tags sdk_list sdk_create patch_status compute_tags (with_cache w none) n).0)
  cache_only_delays w none m n = inr (uncached_once w none m n ∙ sym (uncached_once w none n n))
  cache_only_delays w (some v) m n = elim (cached_once w v m) [
    | inl same ↦ inl same
    | inr (k, again) ↦ inr (again ∙ sym (uncached_once w (some v) n k))
  ]
