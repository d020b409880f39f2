-- ===== src/Teardown/Delete/Grounds.antt =====
-- On what grounds a load balancer is deleted: what was read, and when.
pub mod Steps
use vngcloud_load_balancer_c.Base.{
  ◌≡◌, ◌⊎◌, refl, ap, sym, ◌∙◌, Bool, true, false, List, [], ◌∷◌, Option, Text,
}
use vngcloud_load_balancer_c.Base.Maps.{Map}
use vngcloud_load_balancer_c.Api.{LoadBalancerConfig}
use vngcloud_load_balancer_c.Errs.{Result, ok, failed}
use vngcloud_load_balancer_c.Ownership.{created_by_this_cluster, has_other_lbc, looks_last_out_of}
use vngcloud_load_balancer_c.Program.{Call, Reply}
use vngcloud_load_balancer_c.Program.Histories.{Event, Extends, History, more, same}
use vngcloud_load_balancer_c.Tags.{Tag, tags_to_map}
use vngcloud_load_balancer_c.Teardown.Whole.Facts.{Recorded, is_listing}

-- Nothing is written and nothing waited for.
unfoldable pub is_reading : Call → Bool
unfolding is_listing
is_reading (Call.list_tags _) = true
is_reading (Call.invalidate_tags_cache _) = true
is_reading Call.list_configs = true
is_reading c = is_listing c

-- The tags have just been read, and not off the cache.
pub data Fresh (lb_id : Text) : History → Map Text → Type 0 where
  fresh :
      {tags : Option (List (Option Tag))} {u : Unit {0}} {h : History}
      → Fresh lb_id
          (Event.event (Call.list_tags lb_id) (Result.ok tags)
            ∷ Event.event (Call.invalidate_tags_cache lb_id) u
            ∷ h)
          (tags_to_map tags)

-- A fresh read of the tags showed that this cluster created the load balancer.
pub data CreatedHere (lbc : LoadBalancerConfig) (lb_id : Text) : History → Type 0 where
  seen :
      {h : History} {current : Map Text}
      → Fresh lb_id h current
      → created_by_this_cluster lbc lb_id current ≡ true
      → CreatedHere lbc lb_id h
  before : {e : Event} {h : History} → CreatedHere lbc lb_id h → CreatedHere lbc lb_id (e ∷ h)

-- A fresh read of the tags showed this cluster as the last one out, then no other resource was
-- found on the load balancer, and since then lists were read, and nothing else was done.
pub data LastOut (lbc : LoadBalancerConfig) (lb_id : Text) : History → Type 0 where
  alone :
      {h : History} {current : Map Text} {all : List LoadBalancerConfig}
      → Fresh lb_id h current
      → looks_last_out_of lbc current ≡ true
      → has_other_lbc lbc lb_id all ≡ false
      → LastOut lbc lb_id (Event.event Call.list_configs (Result.ok all) ∷ h)
  still :
      {c : Call} {r : Reply c} {h : History}
      → is_listing c ≡ true
      → LastOut lbc lb_id h
      → LastOut lbc lb_id (Event.event c r ∷ h)

module _ (lbc : LoadBalancerConfig) (lb_id : Text) where
  -- A delete is of this load balancer, and has grounds: all that it carries, as far as it was
  -- listed with nothing written since, is recorded, and it is ours.
  abbrev pub Guarded : History → Call → Type 0
  Guarded h c =
      (id : Text)
      → c ≡ Call.delete_load_balancer id
      → (id ≡ lb_id)
        × Recorded lbc lb_id is_reading h
        × (CreatedHere lbc lb_id h ⊎ LastOut lbc lb_id h)

  pub Guarded-other :
      (t : Call → Bool)
      → ((id : Text) → t (Call.delete_load_balancer id) ≡ false)
      → (h : History) (c : Call) → t c ≡ true
      → Guarded h c
  Guarded-other t f h c e id p =
      let q : t c ≡ t (Call.delete_load_balancer id) = ap t p in cc (q, e, f id)

module _ {lbc : LoadBalancerConfig} {lb_id : Text} where
  pub CreatedHere-Extends :
      {t : Call → Bool} {a b : History}
      → CreatedHere lbc lb_id a
      → Extends t a b
      → CreatedHere lbc lb_id b
  CreatedHere-Extends p same = p
  CreatedHere-Extends p (more e x) = before (CreatedHere-Extends p x)

  pub LastOut-Extends :
      {a b : History} → LastOut lbc lb_id a → Extends is_listing a b → LastOut lbc lb_id b
  LastOut-Extends p same = p
  LastOut-Extends p (more e x) = still e (LastOut-Extends p x)
