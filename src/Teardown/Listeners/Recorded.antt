-- ===== src/Teardown/Listeners/Recorded.antt =====
-- The cleanup of listeners deletes created listeners of the record only, and updates adopted ones.
use vngcloud_load_balancer_c.Base.{
  ◌≡◌, refl, sym, subst, Bool, Bool-cases, inl, inr, true, not, ◌&&◌, List, [], ◌∷◌, Option, none,
  some, Text, ◌==◌, text_eq, text_beq_refl, text_beq_iff, any, arith, find?, is_some, Option-cases,
}
use vngcloud_load_balancer_c.Acl.{AclField}
use vngcloud_load_balancer_c.Acl.Plan.{AclPlan}
use vngcloud_load_balancer_c.Api.{CreatedListener, CreatedPool, LoadBalancerConfig}
use vngcloud_load_balancer_c.Api.Equality.{is_empty}
use vngcloud_load_balancer_c.Cloud.{ListenerEntity}
use vngcloud_load_balancer_c.Errs.{Error, Result, ok, failed}
use vngcloud_load_balancer_c.Program.{Prog}
use vngcloud_load_balancer_c.Program.Calls.{Settings}
use vngcloud_load_balancer_c.Program.Only.{
  Only, Only-attempt, Only-bind, Only-if, Only-wrapping, calls, ended,
}
use vngcloud_load_balancer_c.Teardown.Busy.Writes.{retry_write-Only}
use vngcloud_load_balancer_c.Teardown.Failures.{report-Only}
use vngcloud_load_balancer_c.Teardown.Listeners.{
  PeerMemo, adopted_record, after_policies, can_delete_whole_listener, clean_decided,
  clean_listener, clean_listeners, default_pool_can_go, delete_redundant_listeners_from, hand_back,
  hand_back_at, hand_back_with, keep_listener, list_peers, listener_in_use, policies_can_go,
  put_back, recorded_pool_can_go, clean_found, remove_listener, restore_adopted_listener,
  nothing_displaced,
}
use vngcloud_load_balancer_c.Teardown.Policies.Recorded.{delete_redundant_policies_from-Only}
use vngcloud_load_balancer_c.Teardown.Scope.{stays_within}
use vngcloud_load_balancer_c.Validate.Access.{Peers}

-- A record that is found is adopted; without one, every record of the listener is a created one.
adopted_record-found :
    (created : List CreatedListener) (id : Text) (a : CreatedListener)
    → adopted_record created id ≡ some a
    → any (λ (l : CreatedListener). l.id == id && l.adopted) created ≡ true
unfolding adopted_record find? any
adopted_record-found [] id a e = cc
adopted_record-found (l ∷ created) id a e = elim (Bool-cases (l.id == id && l.adopted)) [
  | inl b ↦ ground (arith, b)
  | inr b ↦ ground (arith, b, adopted_record-found created id a, e)
]

adopted_record-none :
    (created : List CreatedListener) (id : Text)
    → adopted_record created id ≡ none
    → any (λ (l : CreatedListener). l.id == id) created ≡ true
    → any (λ (l : CreatedListener). l.id == id && not l.adopted) created ≡ true
unfolding adopted_record find? any
adopted_record-none [] id e i = i
adopted_record-none (l ∷ created) id e i = elim (Bool-cases (l.id == id && l.adopted)) [
  | inl b ↦ ground (arith, b, e)
  | inr b ↦ ground (arith, b, adopted_record-none created id, e, i)
]

find?-passes : {A : Type 0} (p : A → Bool) (xs : List A) (a : A) → find? p xs ≡ some a → p a ≡ true
unfolding find?
find?-passes p [] a e = cc
find?-passes p (x ∷ xs) a e = elim (Bool-cases (p x)) [
  | inl b ↦ let s : x ≡ a = ground (arith, b, e) in subst (λ z. p z ≡ true) s b
  | inr b ↦ find?-passes p xs a (ground (arith, b, e))
]

module _ (s : Settings) (lbc : LoadBalancerConfig) (lb_id : Text) (listeners : List CreatedListener)
    (pools : List CreatedPool) where
  abbrev Inside : {A : Type 0} → Prog A → Type 0
  Inside m = Only (stays_within lb_id listeners pools) m

  recorded_pool_can_go-Only :
      (pool_id : Text) (c : Option CreatedPool)
      → Inside (recorded_pool_can_go s lbc lb_id pool_id c)
  unfolding recorded_pool_can_go stays_within
  recorded_pool_can_go-Only pool_id none = ended _
  recorded_pool_can_go-Only pool_id (some c) =
      Only-bind (Only-wrapping _ (calls refl (λ r. ended r))) (λ _. ended _)

  default_pool_can_go-Only :
      (wanted : List CreatedPool) (pool_id : Text)
      → Inside (default_pool_can_go s lbc lb_id wanted pool_id)
  unfolding default_pool_can_go
  default_pool_can_go-Only wanted pool_id =
      Only-if (any (λ (p : CreatedPool). p.id == pool_id) wanted) (λ _. ended _)
        (λ _. recorded_pool_can_go-Only pool_id _)

  policies_can_go-Only :
      (wanted : List CreatedPool) (listener : ListenerEntity) (covered : Bool)
      → Inside (policies_can_go s lbc lb_id wanted listener covered)
  unfolding policies_can_go
  policies_can_go-Only wanted listener covered =
      Only-if covered
        (λ _.
          Only-if (listener.default_pool_id == []) (λ _. ended _)
            (λ _. default_pool_can_go-Only wanted _))
        (λ _. ended _)

  can_delete_whole_listener-Only :
      (created : List CreatedListener) (wanted : List CreatedPool) (listener : ListenerEntity)
      → Inside (can_delete_whole_listener s lbc lb_id created wanted listener)
  unfolding can_delete_whole_listener stays_within
  can_delete_whole_listener-Only created wanted listener =
      Only-if (lbc.spec.type == s.layer4) (λ _. ended _)
        (λ _.
          Only-bind (Only-wrapping _ (calls refl (λ r. ended r)))
            (λ _. search policies_can_go-Only))

  list_peers-Only : (memo : PeerMemo) → Inside (list_peers s lbc lb_id memo)
  unfolding list_peers stays_within
  list_peers-Only (some _) = ended _
  list_peers-Only none =
      Only-attempt (Only-bind (Only-wrapping _ (calls refl (λ r. ended r))) (λ _. ended _))

  abbrev IsAdopted : Text → Type 0
  IsAdopted id = any (λ (l : CreatedListener). l.id == id && l.adopted) listeners ≡ true

  put_back-Only :
      (listener : ListenerEntity) (original : Text) (restore : AclPlan)
      → IsAdopted listener.uuid
      → Inside (put_back s lbc lb_id listener original restore)
  unfolding put_back stays_within
  put_back-Only listener original restore e =
      Only-if (nothing_displaced s lbc lb_id listener original restore.changes) (λ _. ended _)
        (λ _.
          Only-bind
            (retry_write-Only s lb_id _ refl
              (calls (ground (arith, text_beq_refl lb_id, e)) (λ r. ended r)))
            (λ _. ended _))

  restore_adopted_listener-Only :
      (listener : ListenerEntity) (a : CreatedListener) (peers : AclField → Bool)
      → IsAdopted listener.uuid
      → Inside (restore_adopted_listener s lbc lb_id listener a peers)
  unfolding restore_adopted_listener
  restore_adopted_listener-Only listener a peers e = search (put_back-Only, e)

  hand_back_at-Only :
      (listener : ListenerEntity) (a : CreatedListener) (peers : AclField → Bool)
      → IsAdopted listener.uuid
      → Inside (hand_back_at s lbc lb_id listener a peers)
  unfolding hand_back_at stays_within
  hand_back_at-Only listener a peers e =
      Only-bind (Only-wrapping _ (restore_adopted_listener-Only listener a peers e)) (λ restored.
        Only-if restored
          (λ _. Only-bind (Only-wrapping _ (calls refl (λ r. ended r))) (λ _. ended _))
          (λ _. ended _))

  hand_back_with-Only :
      (listener : ListenerEntity) (a : CreatedListener) (peers : Result Peers)
      → IsAdopted listener.uuid
      → Inside (hand_back_with s lbc lb_id listener a peers)
  unfolding hand_back_with
  hand_back_with-Only listener a (ok peers) e = Only-attempt (hand_back_at-Only listener a _ e)
  hand_back_with-Only listener a (failed _) e = ended _

  hand_back-Only :
      (listener : ListenerEntity) (a : CreatedListener) (memo : PeerMemo)
      → IsAdopted listener.uuid
      → Inside (hand_back s lbc lb_id listener a memo)
  unfolding hand_back
  hand_back-Only listener a memo e =
      Only-if (is_empty a.original_acl)
        (λ _. Only-bind (Only-attempt (hand_back_at-Only listener a _ e)) (λ _. ended _))
        (λ _.
          Only-bind (list_peers-Only memo)
            (λ peers. Only-bind (hand_back_with-Only listener a peers e) (λ _. ended _)))

  remove_listener-Only :
      (id : Text)
      → any (λ (l : CreatedListener). l.id == id && not l.adopted) listeners ≡ true
      → Inside (remove_listener s lbc lb_id id)
  unfolding remove_listener stays_within
  remove_listener-Only id e =
      Only-bind
        (Only-wrapping _ (
          retry_write-Only s lb_id _ refl
            (calls (ground (arith, text_beq_refl lb_id, e)) (λ r. ended r))))
        (λ _. Only-bind (Only-wrapping _ (calls refl (λ r. ended r))) (λ _. ended _))

  module _ (wanted : List CreatedListener) (wanted_pools : List CreatedPool) where
    after_policies-Only :
        (listener : ListenerEntity) (memo : PeerMemo) (a : Option CreatedListener)
        (r : Result (Unit {0}))
        → a ≡ adopted_record listeners listener.uuid
        → Inside (after_policies s lbc lb_id listeners wanted wanted_pools listener memo a r)
    unfolding after_policies
    after_policies-Only listener memo a (failed _) e = ended _
    after_policies-Only listener memo none (ok _) e = ended _
    after_policies-Only listener memo (some a) (ok _) e =
        Only-if (listener_in_use wanted listener.uuid) (λ _. ended _)
          (λ _.
            hand_back-Only listener a memo (adopted_record-found listeners listener.uuid a (sym e)))

    keep_listener-Only :
        (listener : ListenerEntity) (memo : PeerMemo)
        → Inside (keep_listener s lbc lb_id listeners wanted wanted_pools listener memo)
    unfolding keep_listener
    keep_listener-Only listener memo =
        Only-bind
          (Only-attempt (
            Only-wrapping _
              (delete_redundant_policies_from-Only s lbc lb_id listener.uuid listeners pools _)))
          (λ r. after_policies-Only listener memo _ r refl)

    clean_decided-Only :
        (listener : ListenerEntity) (memo : PeerMemo) (whole : Result Bool)
        → any (λ (l : CreatedListener). l.id == listener.uuid) listeners ≡ true
        → Inside (clean_decided s lbc lb_id listeners wanted wanted_pools listener memo whole)
    unfolding clean_decided
    clean_decided-Only listener memo (failed _) e = ended _
    clean_decided-Only listener memo (ok whole) e =
        Only-if
          (not (listener_in_use wanted listener.uuid)
            && (whole && not (is_some (adopted_record listeners listener.uuid))))
          (λ d.
            Only-bind
              (Only-attempt (
                remove_listener-Only listener.uuid
                  (elim (Option-cases (adopted_record listeners listener.uuid)) [
                    | inl n ↦ adopted_record-none listeners listener.uuid n e
                    | inr (a, f) ↦ ground (arith, d, f)
                  ])))
              (λ _. ended _))
          (λ _. keep_listener-Only listener memo)

    clean_listener-Only :
        (listener : ListenerEntity) (memo : PeerMemo)
        → any (λ (l : CreatedListener). l.id == listener.uuid) listeners ≡ true
        → Inside (clean_listener s lbc lb_id listeners wanted wanted_pools listener memo)
    unfolding clean_listener
    clean_listener-Only listener memo e =
        Only-bind
          (Only-attempt
            (Only-wrapping _ (can_delete_whole_listener-Only listeners wanted_pools listener)))
          (λ whole. clean_decided-Only listener memo whole e)

    clean_found-Only :
        (id : Text) (memo : PeerMemo) (rest : PeerMemo → Prog (List Error))
        (o : Option ListenerEntity)
        → ((l : ListenerEntity)
            → o ≡ some l
            → any (λ (c : CreatedListener). c.id == l.uuid) listeners ≡ true)
        → ((memo : PeerMemo) → Inside (rest memo))
        → Inside (clean_found s lbc lb_id listeners wanted wanted_pools memo rest o)
    unfolding clean_found
    clean_found-Only id memo rest none e later = later memo
    clean_found-Only id memo rest (some l) e later =
        Only-bind (clean_listener-Only l memo (e l refl))
          (λ r. Only-bind (later r.1) (λ _. ended _))

    -- The candidates that are left are a tail of the record.
    clean_listeners-Only :
        (current : List ListenerEntity) (rest : List CreatedListener) (memo : PeerMemo)
        → ((id : Text)
            → any (λ (c : CreatedListener). c.id == id) rest ≡ true
            → any (λ (c : CreatedListener). c.id == id) listeners ≡ true)
        → Inside (clean_listeners s lbc lb_id listeners wanted wanted_pools current rest memo)
    unfolding clean_listeners any
    clean_listeners-Only current [] memo w = ended _
    clean_listeners-Only current (c ∷ rest) memo w =
        clean_found-Only c.id memo _ _
          (λ l e. w l.uuid (
            let same : (l.uuid == c.id) ≡ true =
              find?-passes (λ (l : ListenerEntity). l.uuid == c.id) current l e in
            ground (arith, same, text_beq_iff l.uuid c.id, text_beq_refl c.id)))
          (λ memo. clean_listeners-Only current rest memo (λ id e. w id (ground (arith, e))))

  pub delete_redundant_listeners_from-Only :
      (wanted : List CreatedListener) (wanted_pools : List CreatedPool)
      → Inside (delete_redundant_listeners_from s lbc lb_id listeners wanted wanted_pools)
  unfolding delete_redundant_listeners_from stays_within
  delete_redundant_listeners_from-Only wanted wanted_pools =
      Only-bind (calls refl (λ r. ended r)) (λ current.
        Only-bind (clean_listeners-Only wanted wanted_pools current listeners none (λ _ e. e))
          (λ es. report-Only es))
