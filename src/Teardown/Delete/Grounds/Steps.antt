-- ===== src/Teardown/Delete/Grounds/Steps.antt =====
-- The teardown of a load balancer deletes it only on its grounds.
use vngcloud_load_balancer_c.Base.{
  ◌≡◌, ◌⊎◌, inl, inr, refl, Bool, true, false, ◌&&◌, List, [], ◌∷◌, Text, arith, Bool-cases,
}
use vngcloud_load_balancer_c.Base.Maps.{Map}
use vngcloud_load_balancer_c.Api.{LoadBalancerConfig}
use vngcloud_load_balancer_c.Cloud.{LoadBalancerEntity}
use vngcloud_load_balancer_c.Errs.{Result, ok, failed, is_load_balancer_not_found}
use vngcloud_load_balancer_c.Ownership.{created_by_this_cluster, has_other_lbc, looks_last_out_of}
use vngcloud_load_balancer_c.Program.{Call, Prog, finish, perform, ◌>>=◌, pure, wrapping}
use vngcloud_load_balancer_c.Program.Calls.{Settings}
use vngcloud_load_balancer_c.Program.Histories.{
  Event, Extends, Extends-Extends, Extends-weaken, Gives-anything, History, Meets, Meets-bind,
  Meets-reply, Meets-weaken, Only-Meets, Since, makes, more, returns, same, stops,
}
use vngcloud_load_balancer_c.Program.Only.{Only}
use vngcloud_load_balancer_c.Teardown.Delete.{
  clear_load_balancer, decide_delete, delete_load_balancer_of, delete_or_release,
  delete_whole_or_parts, is_ours, last_cluster_out_of, read_tags, still_ours, unless_gone,
}
use vngcloud_load_balancer_c.Teardown.Delete.Grounds.{
  CreatedHere, CreatedHere-Extends, Fresh, Guarded, Guarded-other, LastOut, LastOut-Extends, alone,
  fresh, is_reading, seen,
}
use vngcloud_load_balancer_c.Teardown.Listeners.Recorded.{delete_redundant_listeners_from-Only}
use vngcloud_load_balancer_c.Teardown.Pools.Recorded.{delete_redundant_pools_from-Only}
use vngcloud_load_balancer_c.Teardown.Release.{load_balancer_has_other_lbc}
use vngcloud_load_balancer_c.Teardown.Release.Calls.{delete_redundant_tags_from-Only}
use vngcloud_load_balancer_c.Teardown.Scope.{stays_within}
use vngcloud_load_balancer_c.Teardown.Whole.Facts.{
  Recorded, can_delete_whole-Meets, is_empty_now-Meets, is_listing,
}

listing-reading : (c : Call) → is_listing c ≡ true → is_reading c ≡ true
unfolding is_listing is_reading
listing-reading (Call.list_tags _) e = refl
listing-reading (Call.invalidate_tags_cache _) e = refl
listing-reading Call.list_configs e = refl
listing-reading c e = e

Since-reading :
    {e : Event} {a b : History}
    → Since is_listing e a
    → Extends is_reading a b
    → Since is_reading e b
Since-reading (h, p) q = (h, Extends-Extends (Extends-weaken listing-reading p) q)

Recorded-reading :
    (lbc : LoadBalancerConfig) (lb_id : Text) {a b : History}
    → Recorded lbc lb_id is_listing a
    → Extends is_reading a b
    → Recorded lbc lb_id is_reading b
Recorded-reading lbc lb_id (ls, ps, l, p, q, r) x =
    (ls, ps, Since-reading l x, Since-reading p x, q, r)

abbrev is_get : Call → Bool
is_get (Call.get_load_balancer _) = true
is_get _ = false

module _ (s : Settings) (lbc : LoadBalancerConfig) (lb_id : Text) where
  abbrev Safe : {A : Type 0} → (History → A → Type 0) → History → Prog A → Type 0
  Safe Q h m = Meets (Guarded lbc lb_id) Q h m

  listing-Guarded : (h : History) (c : Call) → is_listing c ≡ true → Guarded lbc lb_id h c
  unfolding is_listing
  listing-Guarded = Guarded-other lbc lb_id is_listing (λ _. refl)

  reading-Guarded : (h : History) (c : Call) → is_reading c ≡ true → Guarded lbc lb_id h c
  unfolding is_reading is_listing
  reading-Guarded = Guarded-other lbc lb_id is_reading (λ _. refl)

  -- What is known of the load balancer's owner.
  abbrev IsOurs : History → Type 0
  IsOurs h = CreatedHere lbc lb_id h ⊎ LastOut lbc lb_id h

  read_tags-Meets :
      (start h : History)
      → Extends is_reading start h
      → Safe
          (λ h current. Fresh lb_id h current × Extends is_reading start h)
          h
          (read_tags s lbc lb_id)
  unfolding read_tags is_reading is_listing
  read_tags-Meets start h x =
      makes (reading-Guarded h (Call.invalidate_tags_cache lb_id) refl) (λ u.
        let invalidated : History = Event.event (Call.invalidate_tags_cache lb_id) u ∷ h in
        makes (reading-Guarded invalidated (Call.list_tags lb_id) refl) (
          Meets-reply (λ r. Event.event (Call.list_tags lb_id) r ∷ invalidated)
            (λ tags. returns (fresh, more refl (more refl x)))))

  -- The answer to whether this is the last cluster out, with what was read for it.
  abbrev LastAnswer : History → History → Bool → Type 0
  LastAnswer start h ours = (ours ≡ true → LastOut lbc lb_id h) × Extends is_reading start h

  siblings-Meets :
      (start h : History) (message : Text) (r : Result (List LoadBalancerConfig))
      (current : Map Text)
      → Extends is_reading start h
      → Fresh lb_id h current
      → looks_last_out_of lbc current ≡ true
      → Safe
          (λ h other. (other ≡ false → LastOut lbc lb_id h) × Extends is_reading start h)
          (Event.event Call.list_configs r ∷ h)
          (wrapping message (finish r) >>= λ all. pure (has_other_lbc lbc lb_id all))
  unfolding is_reading
  siblings-Meets start h message (failed e) current x f l = stops
  siblings-Meets start h message (ok all) current x f l = returns ((λ e. alone f l e), more refl x)

  last_cluster_out_of-Meets :
      (start h : History) (current : Map Text)
      → Extends is_reading start h
      → Fresh lb_id h current
      → Safe (LastAnswer start) h (last_cluster_out_of s lbc lb_id current)
  unfolding last_cluster_out_of load_balancer_has_other_lbc is_reading is_listing
  last_cluster_out_of-Meets start h current x f =
      elim (Bool-cases (looks_last_out_of lbc current)) [
        | inr n ↦ rw n (returns ((λ e. cc), x))
        | inl l ↦ rw l (
            Meets-bind
              (makes (reading-Guarded h Call.list_configs refl)
                (λ r. siblings-Meets start h _ r current x f l))
              (λ h other q. returns ((λ e. q.0 (ground (arith, e))), q.1)))
      ]

  is_ours-Meets :
      (h : History) (current : Map Text) (created_here : Bool)
      → Fresh lb_id h current
      → (created_here ≡ true → CreatedHere lbc lb_id h)
      → Safe
          (λ h ours. (created_here ≡ true → CreatedHere lbc lb_id h) × (ours ≡ true → IsOurs h))
          h
          (is_ours s lbc lb_id created_here current)
  unfolding is_ours
  is_ours-Meets h current true f c = returns (c, λ e. inl (c refl))
  is_ours-Meets h current false f c =
      Meets-weaken (last_cluster_out_of-Meets h h current same f)
        (λ h ours q. ((λ e. cc), λ e. inr (q.0 e)))

  still_ours-Meets :
      (start h : History) (created_here ours empty : Bool)
      → Extends is_reading start h
      → (created_here ≡ true → CreatedHere lbc lb_id h)
      → Safe
          (λ h gone. (empty ≡ true → gone ≡ true → IsOurs h) × Extends is_reading start h)
          h
          (still_ours s lbc lb_id created_here ours empty)
  unfolding still_ours
  still_ours-Meets start h created_here ours false x c = returns ((λ e. cc), x)
  still_ours-Meets start h true ours true x c = returns ((λ _ _. inl (c refl)), x)
  still_ours-Meets start h false ours true x c =
      Meets-bind (read_tags-Meets start h x) (λ h fresh_tags q.
        Meets-weaken (last_cluster_out_of-Meets start h fresh_tags q.1 q.0)
          (λ h gone q. ((λ _ g. inr (q.0 g)), q.1)))

  -- A step of the cleanup.
  cleanup-Meets :
      (listeners pools : _) (start h : History) (m : Prog (Unit {0}))
      → Extends (stays_within lb_id listeners pools) start h
      → Only (stays_within lb_id listeners pools) m
      → Safe (λ h _. Extends (stays_within lb_id listeners pools) start h) h m
  unfolding stays_within
  cleanup-Meets listeners pools start h m x o =
      Meets-weaken
        (Only-Meets (Guarded-other lbc lb_id (stays_within lb_id listeners pools) (λ _. refl)) o
          (Gives-anything m) x)
        (λ h _ q. q.1)

  delete-Guarded :
      (h : History)
      → Recorded lbc lb_id is_reading h
      → IsOurs h
      → Safe (λ _ _. Unit {0}) h (perform (Call.delete_load_balancer lb_id) finish)
  delete-Guarded h p q = makes (λ id e. (cc, p, q)) (λ r. finished r)
    where
      finished :
          {h : History} (r : Result (Unit {0}))
          → Meets (Guarded lbc lb_id) (λ _ _. Unit {0}) h (finish r)
      finished (ok _) = returns tt
      finished (failed _) = stops

  delete_or_release-Meets :
      (h : History) (gone : Bool)
      → (gone ≡ true → Recorded lbc lb_id is_reading h × IsOurs h)
      → Safe (λ _ _. Unit {0}) h (delete_or_release s lbc lb_id gone)
  unfolding delete_or_release
  delete_or_release-Meets h true p = delete-Guarded h (p refl).0 (p refl).1
  delete_or_release-Meets h false p =
      Meets-weaken
        (cleanup-Meets [] [] h h _ same (delete_redundant_tags_from-Only lbc lb_id [] [] _))
        (λ _ _ _. tt)

  clear_load_balancer-Meets :
      (h : History) (created_here ours : Bool)
      → (created_here ≡ true → CreatedHere lbc lb_id h)
      → Safe (λ _ _. Unit {0}) h (clear_load_balancer s lbc lb_id created_here ours)
  unfolding clear_load_balancer
  clear_load_balancer-Meets h created_here ours c =
      let ls = lbc.status.created_listeners in
      let ps = lbc.status.created_pools in
      Meets-bind
        (cleanup-Meets ls ps h h _ same
          (delete_redundant_listeners_from-Only s lbc lb_id ls ps [] []))
        (λ h1 _ x1.
          Meets-bind
            (cleanup-Meets ls ps h h1 _ x1 (delete_redundant_pools_from-Only s lbc lb_id ls ps []))
            (λ h2 _ x2.
              Meets-bind (is_empty_now-Meets s.layer4 lbc lb_id listing-Guarded h2) (λ h3 empty q.
                Meets-bind
                  (still_ours-Meets h3 h3 created_here ours empty same
                    (λ e. CreatedHere-Extends (CreatedHere-Extends (c e) x2) q.1))
                  (λ h4 gone o. delete_or_release-Meets h4 (empty && gone) (λ e. (
                    Recorded-reading lbc lb_id (q.0 (ground (arith, e))) o.1,
                    o.0 (ground (arith, e)) (ground (arith, e)),
                  ))))))

  IsOurs-Extends : {a b : History} → IsOurs a → Extends is_listing a b → IsOurs b
  IsOurs-Extends (inl c) x = inl (CreatedHere-Extends c x)
  IsOurs-Extends (inr l) x = inr (LastOut-Extends l x)

  delete_whole_or_parts-Meets :
      (start h : History) (created_here ours whole : Bool)
      → (created_here ≡ true → CreatedHere lbc lb_id start)
      → (ours ≡ true → IsOurs start)
      → (whole ≡ true → Recorded lbc lb_id is_listing h)
      → Extends is_listing start h
      → Safe (λ _ _. Unit {0}) h (delete_whole_or_parts s lbc lb_id created_here ours whole)
  unfolding delete_whole_or_parts
  delete_whole_or_parts-Meets start h created_here true true c o p x =
      delete-Guarded h (Recorded-reading lbc lb_id (p refl) same) (IsOurs-Extends (o refl) x)
  delete_whole_or_parts-Meets start h created_here false true c o p x =
      clear_load_balancer-Meets h created_here false (λ e. CreatedHere-Extends (c e) x)
  delete_whole_or_parts-Meets start h created_here ours false c o p x =
      clear_load_balancer-Meets h created_here ours (λ e. CreatedHere-Extends (c e) x)

  decide_delete-Meets : (h : History) → Safe (λ _ _. Unit {0}) h (decide_delete s lbc lb_id)
  unfolding decide_delete
  decide_delete-Meets h = Meets-bind (read_tags-Meets h h same) (λ h1 current f.
      Meets-bind
        (is_ours-Meets h1 current (created_by_this_cluster lbc lb_id current) f.0 (λ e. seen f.0 e))
        (λ h2 ours o.
          Meets-bind (can_delete_whole-Meets s.layer4 lbc lb_id listing-Guarded h2)
            (λ h3 whole w. delete_whole_or_parts-Meets h2 h3 _ ours whole o.0 o.1 w.0 w.1)))

  unless_gone-Meets :
      {m : Prog (Unit {0})} (past : Result LoadBalancerEntity → History)
      → ((h : History) → Safe (λ _ _. Unit {0}) h m)
      → (r : Result LoadBalancerEntity) → Safe (λ _ _. Unit {0}) (past r) (unless_gone s lbc m r)
  unfolding unless_gone
  unless_gone-Meets past k (ok _) = k _
  unless_gone-Meets past k (failed e) =
      elim (Bool-cases (is_load_balancer_not_found s.show_duration e)) [
        | inl n ↦ rw n (returns tt)
        | inr n ↦ rw n stops
      ]

  pub delete_load_balancer_of-Meets :
      (h : History) → Safe (λ _ _. Unit {0}) h (delete_load_balancer_of s lbc lb_id)
  unfolding delete_load_balancer_of
  delete_load_balancer_of-Meets h =
      makes (Guarded-other lbc lb_id is_get (λ _. refl) h (Call.get_load_balancer lb_id) refl) (λ r.
        unless_gone-Meets (λ r. Event.event (Call.get_load_balancer lb_id) r ∷ h)
          decide_delete-Meets r)
