-- ===== src/Teardown/Whole/Facts.antt =====
-- What the checks before a delete have seen, and that they only read.
use vngcloud_load_balancer_c.Base.{
  ◌≡◌, refl, Bool, Bool-cases, inl, inr, true, false, List, [], ◌∷◌, Option, none, some, Text, ◌==◌,
  text_eq, any, find?, All, arith, if◌then◌else◌,
}
use vngcloud_load_balancer_c.Api.{CreatedListener, CreatedPool, LoadBalancerConfig}
use vngcloud_load_balancer_c.Cloud.{ListenerEntity, PoolEntity}
use vngcloud_load_balancer_c.Errs.{Result}
use vngcloud_load_balancer_c.Program.{Call, Prog, pure}
use vngcloud_load_balancer_c.Program.Histories.{
  Event, Extends, Extends-Extends, Gives, Gives-bind, History, Gives-weaken, Gives-anything, Meets,
  Meets-bind, Meets-weaken, Meets-reply, Only-Meets, Since, gives, makes, more, Since-Extends,
  returns, same,
}
use vngcloud_load_balancer_c.Program.Only.{Only, Only-bind, Only-if, calls, ended}
use vngcloud_load_balancer_c.Teardown.Whole.{
  ask_listener, ask_members, ask_policies, ask_pool, ask_pools, can_delete_whole, cover_all,
  empty_of, is_empty_now, no_pools,
}

-- Lists of what a load balancer carries.
unfoldable pub is_listing : Call → Bool
is_listing (Call.list_listeners _) = true
is_listing (Call.list_policies _ _) = true
is_listing (Call.list_pools _) = true
is_listing (Call.get_pool_members _ _) = true
is_listing _ = false

module _ {U : Type 0} (is_exist : U → Prog Bool) where
  cover_all-Only :
      {t : Call → Bool}
      → ((b : U) → Only t (is_exist b))
      → (xs : List U) → Only t (cover_all is_exist xs)
  unfolding cover_all
  cover_all-Only o [] = ended _
  cover_all-Only o (x ∷ xs) =
      Only-bind (o x) (λ e. Only-if e (λ _. cover_all-Only o xs) (λ _. ended _))

  module _ (P : U → Type 0) (g : (b : U) → Gives (λ e. e ≡ true → P b) (is_exist b)) where
    cover_rest-Gives :
        (x : U) (xs : List U) (e : Bool)
        → (e ≡ true → P x)
        → Gives (λ e. e ≡ true → All P xs) (cover_all is_exist xs)
        → Gives (λ e. e ≡ true → All P (x ∷ xs)) (if e then cover_all is_exist xs else pure false)
    cover_rest-Gives x xs true p rest = Gives-weaken rest (λ e q i. (p refl, q i))
    cover_rest-Gives x xs false p rest = gives (λ i. cc)

    cover_all-Gives : (xs : List U) → Gives (λ e. e ≡ true → All P xs) (cover_all is_exist xs)
    unfolding cover_all
    cover_all-Gives [] = gives (λ _. tt)
    cover_all-Gives (x ∷ xs) =
        Gives-bind (g x) (λ e p. cover_rest-Gives x xs e p (cover_all-Gives xs))

find?-any :
    {A : Type 0} (p : A → Bool) (xs : List A) (a : A) → find? p xs ≡ some a → any p xs ≡ true
unfolding find? any
find?-any p [] a e = cc
find?-any p (x ∷ xs) a e = elim (Bool-cases (p x)) [
  | inl b ↦ ground (arith, b)
  | inr b ↦ ground (arith, b, find?-any p xs a, e)
]

module _ (lbc : LoadBalancerConfig) where
  abbrev pub IsRecordedListener : ListenerEntity → Type 0
  IsRecordedListener b =
      any (λ (l : CreatedListener). l.id == b.uuid) lbc.status.created_listeners ≡ true

  abbrev pub IsRecordedPool : PoolEntity → Type 0
  IsRecordedPool b = any (λ (p : CreatedPool). p.id == b.uuid) lbc.status.created_pools ≡ true

module _ (lbc : LoadBalancerConfig) (lb_id : Text) where
  -- All that was listed, and has only been read since, is recorded as created.
  abbrev pub Recorded : (Call → Bool) → History → Type 0
  Recorded t h =
      (ls : List ListenerEntity) × (ps : List PoolEntity) × Since t
        (Event.event (Call.list_listeners lb_id) (Result.ok ls)) h
      × Since t (Event.event (Call.list_pools lb_id) (Result.ok ps)) h
      × All (IsRecordedListener lbc) ls
      × All (IsRecordedPool lbc) ps

module _ (layer4 : Text) (lbc : LoadBalancerConfig) (lb_id : Text) where
  ask_policies-Only :
      (o : Option CreatedListener) → Only is_listing (ask_policies layer4 lbc lb_id o)
  unfolding ask_policies is_listing
  ask_policies-Only none = ended _
  ask_policies-Only (some c) =
      Only-if (lbc.spec.type == layer4) (λ _. ended _)
        (λ _. Only-bind (calls refl (λ r. ended r)) (λ _. ended _))

  ask_policies-Gives :
      (b : ListenerEntity) (o : Option CreatedListener)
      → ((c : CreatedListener) → o ≡ some c → IsRecordedListener lbc b)
      → Gives (λ e. e ≡ true → IsRecordedListener lbc b) (ask_policies layer4 lbc lb_id o)
  unfolding ask_policies
  ask_policies-Gives b none h = gives (λ e. cc)
  ask_policies-Gives b (some c) h = Gives-weaken (Gives-anything _) (λ _ _ _. h c refl)

  ask_listener-Gives :
      (b : ListenerEntity)
      → Gives (λ e. e ≡ true → IsRecordedListener lbc b) (ask_listener layer4 lbc lb_id b)
  unfolding ask_listener
  ask_listener-Gives b = ask_policies-Gives b _ (λ c e. find?-any _ _ c e)

  ask_members-Only :
      (pool_id : Text) (o : Option CreatedPool)
      → Only is_listing (ask_members layer4 lbc lb_id pool_id o)
  unfolding ask_members is_listing
  ask_members-Only pool_id none = ended _
  ask_members-Only pool_id (some c) = Only-bind (calls refl (λ r. ended r)) (λ _. ended _)

  ask_members-Gives :
      (b : PoolEntity) (o : Option CreatedPool)
      → ((c : CreatedPool) → o ≡ some c → IsRecordedPool lbc b)
      → Gives (λ e. e ≡ true → IsRecordedPool lbc b) (ask_members layer4 lbc lb_id b.uuid o)
  unfolding ask_members
  ask_members-Gives b none h = gives (λ e. cc)
  ask_members-Gives b (some c) h = Gives-weaken (Gives-anything _) (λ _ _ _. h c refl)

  ask_pool-Gives :
      (b : PoolEntity) → Gives (λ e. e ≡ true → IsRecordedPool lbc b) (ask_pool layer4 lbc lb_id b)
  unfolding ask_pool
  ask_pool-Gives b = ask_members-Gives b _ (λ c e. find?-any _ _ c e)

  module _ {Allowed : History → Call → Type 0}
      (w : (h : History) (c : Call) → is_listing c ≡ true → Allowed h c) where
    -- What is known after a check that started at `h`.
    abbrev pub Checked : History → History → Bool → Type 0
    Checked start h e = (e ≡ true → Recorded lbc lb_id is_listing h) × Extends is_listing start h

    ask_pools-Meets :
        (start h : History) (ls : List ListenerEntity) (covered : Bool)
        → Extends is_listing start h
        → Since is_listing (Event.event (Call.list_listeners lb_id) (Result.ok ls)) h
        → (covered ≡ true → All (IsRecordedListener lbc) ls)
        → Meets Allowed (Checked start) h (ask_pools layer4 lbc lb_id covered)
    unfolding ask_pools ask_pool is_listing
    ask_pools-Meets start h ls false x l c = returns ((λ e. cc), x)
    ask_pools-Meets start h ls true x l c = makes (w h (Call.list_pools lb_id) refl) (
        Meets-reply (λ r. Event.event (Call.list_pools lb_id) r ∷ h)
          (λ ps.
            let listed : History = Event.event (Call.list_pools lb_id) (Result.ok ps) ∷ h in
            let here : Extends is_listing listed listed = same in
            Meets-weaken
              (Only-Meets w (cover_all-Only _ (λ b. ask_members-Only b.uuid _) ps)
                (cover_all-Gives _ (IsRecordedPool lbc) ask_pool-Gives ps) here)
              (λ after e q. (
                (λ i. (
                  ls,
                  ps,
                  Since-Extends l (Extends-Extends (more refl same) q.1),
                  (h, q.1),
                  c refl,
                  q.0 i,
                )),
                Extends-Extends (more refl x) q.1,
              ))))

    pub can_delete_whole-Meets :
        (start : History) → Meets Allowed (Checked start) start (can_delete_whole layer4 lbc lb_id)
    unfolding can_delete_whole ask_listener is_listing
    can_delete_whole-Meets start = makes (w start (Call.list_listeners lb_id) refl) (
        Meets-reply (λ r. Event.event (Call.list_listeners lb_id) r ∷ start)
          (λ ls.
            let listed : History = Event.event (Call.list_listeners lb_id) (Result.ok ls) ∷ start in
            let here : Extends is_listing listed listed = same in
            Meets-bind
              (Only-Meets w (cover_all-Only _ (λ b. ask_policies-Only _) ls)
                (cover_all-Gives _ (IsRecordedListener lbc) ask_listener-Gives ls) here)
              (λ h covered q.
                ask_pools-Meets start h ls covered (Extends-Extends (more refl same) q.1)
                  (start, q.1) q.0)))

    no_pools-Recorded :
        (h : History) (ps : List PoolEntity)
        → Since is_listing (Event.event (Call.list_listeners lb_id) (Result.ok [])) h
        → no_pools ps ≡ true
        → Recorded lbc lb_id is_listing (Event.event (Call.list_pools lb_id) (Result.ok ps) ∷ h)
    unfolding no_pools is_listing
    no_pools-Recorded h [] l e = ([], [], Since-Extends l (more refl same), (h, same), tt, tt)
    no_pools-Recorded h (p ∷ ps) l e = cc

    empty_of-Meets :
        (start h : History) (ls : List ListenerEntity)
        → Extends is_listing start h
        → Since is_listing (Event.event (Call.list_listeners lb_id) (Result.ok ls)) h
        → Meets Allowed (Checked start) h (empty_of lb_id ls)
    unfolding empty_of no_pools is_listing
    empty_of-Meets start h (l ∷ ls) x q = returns ((λ e. cc), x)
    empty_of-Meets start h [] x q = makes (w h (Call.list_pools lb_id) refl) (
        Meets-reply (λ r. Event.event (Call.list_pools lb_id) r ∷ h)
          (λ ps. returns (no_pools-Recorded h ps q, more refl x)))

    pub is_empty_now-Meets :
        (start : History) → Meets Allowed (Checked start) start (is_empty_now lb_id)
    unfolding is_empty_now is_listing
    is_empty_now-Meets start = makes (w start (Call.list_listeners lb_id) refl) (
        Meets-reply (λ r. Event.event (Call.list_listeners lb_id) r ∷ start)
          (λ ls. empty_of-Meets start _ ls (more refl same) (start, same)))
