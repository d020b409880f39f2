-- ===== src/Members/Laws.antt =====
-- What merging keeps, drops and adds.
use vngcloud_load_balancer_c.Base.{
  ◌≡◌, refl, ap, ◌≢◌, ◌↔◌, inl, inr, Bool-cases, true, false, not, ◌&&◌, ◌||◌, List, [], ◌∷◌, ◌++◌,
  arith, text_beq_iff, keep, In, All, All-In, All-of_In,
}
use vngcloud_load_balancer_c.Api.{PoolMember}
use vngcloud_load_balancer_c.Members.{
  same_member, pool_member_exists, kept_members, add_members, merge_pool_members, delete_or_update,
  can_delete_whole_pool,
}

-- Two members with the same key exist in the same lists.
pub exists_of_same :
    (l : List PoolMember) (a b : PoolMember)
    → same_member a b ≡ true
    → pool_member_exists l a ≡ pool_member_exists l b
unfolding pool_member_exists same_member
exists_of_same [] a b h = refl
exists_of_same (r ∷ l) a b h = ground (
  arith,
  exists_of_same l a b h,
  text_beq_iff a.ip b.ip,
  text_beq_iff r.ip a.ip,
  text_beq_iff r.ip b.ip,
)

pub same_member_refl : (m : PoolMember) → same_member m m ≡ true
unfolding same_member
same_member_refl m = ground (arith, text_beq_iff m.ip m.ip)

exists_nil : (m : PoolMember) → pool_member_exists [] m ≡ false
unfolding pool_member_exists
exists_nil m = refl

exists_cons :
    (r : PoolMember) (l : List PoolMember) (m : PoolMember)
    → pool_member_exists (r ∷ l) m ≡ (same_member r m || pool_member_exists l m)
unfolding pool_member_exists
exists_cons r l m = refl

exists-concat :
    (l : List PoolMember) (x m : PoolMember)
    → pool_member_exists (l ++ (x ∷ [])) m ≡ (pool_member_exists l m || same_member x m)
unfolding pool_member_exists
exists-concat [] x m = ground arith
exists-concat (r ∷ l) x m = ground (arith, exists-concat l x m)

exists-kept :
    (created spec current : List PoolMember) (m : PoolMember)
    → pool_member_exists (kept_members created spec current) m ≡ (
        pool_member_exists current m
        && (pool_member_exists spec m || not (pool_member_exists created m)))
unfolding kept_members keep
exists-kept created spec [] m = unfold pool_member_exists in refl
exists-kept created spec (r ∷ current) m =
    let same = exists_of_same spec r m in
    let own = exists_of_same created r m in
    elim (Bool-cases (pool_member_exists spec r || not (pool_member_exists created r))) [
      | inl e ↦ rw e (
          ground (
            arith,
            same,
            own,
            exists_cons r (kept_members created spec current) m,
            exists_cons r current m,
            exists-kept created spec current m,
          ))
      | inr d ↦
          rw d
            (ground (arith, same, own, exists_cons r current m, exists-kept created spec current m))
    ]

exists-add :
    (spec merged : List PoolMember) (m : PoolMember)
    → pool_member_exists (add_members spec merged) m
      ≡ (pool_member_exists merged m || pool_member_exists spec m)
unfolding add_members
exists-add [] merged m = ground (arith, exists_nil m)
exists-add (x ∷ spec) merged m = elim (Bool-cases (pool_member_exists merged x)) [
  | inl e ↦
      rw e
        (ground (arith, exists-add spec merged m, exists_cons x spec m, exists_of_same merged x m))
  | inr d ↦ rw d (
      ground (
        arith,
        exists-add spec (merged ++ (x ∷ [])) m,
        exists_cons x spec m,
        exists-concat merged x m,
      ))
]

-- After a merge a member exists exactly if the spec has it, or the pool had it and this resource
-- did not create it: its own stale members go, everyone else's stay.
pub exists-merge :
    (created current spec : List PoolMember) (m : PoolMember)
    → pool_member_exists (merge_pool_members created current spec) m ≡ (
        pool_member_exists spec m
        || (pool_member_exists current m && not (pool_member_exists created m)))
unfolding merge_pool_members
exists-merge created current spec m = ground (
  arith,
  exists-add spec (kept_members created spec current) m,
  exists-kept created spec current m,
)

exists_of_In : (l : List PoolMember) (m : PoolMember) → In m l → pool_member_exists l m ≡ true
exists_of_In [] m i = absurd i
exists_of_In (r ∷ l) m (inl e) = rw (exists_cons r l m, ← e, same_member_refl m)
exists_of_In (r ∷ l) m (inr i) = ground (arith, exists_cons r l m, exists_of_In l m i)

kept_whole :
    (created spec l : List PoolMember)
    → All (λ m. (pool_member_exists spec m || not (pool_member_exists created m)) ≡ true) l
    → kept_members created spec l ≡ l
unfolding kept_members keep
kept_whole created spec [] h = refl
kept_whole created spec (r ∷ l) (h, hs) = rw h (ap (λ t. r ∷ t) (kept_whole created spec l hs))

add_none :
    (spec merged : List PoolMember)
    → All (λ m. pool_member_exists merged m ≡ true) spec
    → add_members spec merged ≡ merged
unfolding add_members
add_none [] merged h = refl
add_none (m ∷ spec) merged (h, hs) = rw h (add_none spec merged hs)

merge_fixed :
    (created l spec : List PoolMember)
    → All (λ m. (pool_member_exists spec m || not (pool_member_exists created m)) ≡ true) l
    → All (λ m. pool_member_exists l m ≡ true) spec
    → merge_pool_members created l spec ≡ l
unfolding merge_pool_members
merge_fixed created l spec h g = rw (kept_whole created spec l h) (add_none spec l g)

-- Once the pool holds the merged members, merging again changes nothing, with the record from
-- before the push or with the one written after it.
pub merge_settles :
    (created current spec : List PoolMember)
    → (let merged = merge_pool_members created current spec in
        (merge_pool_members created merged spec ≡ merged)
        × (merge_pool_members spec merged spec ≡ merged))
merge_settles created current spec =
    let merged = merge_pool_members created current spec in
    let has : All (λ m. pool_member_exists merged m ≡ true) spec =
      All-of_In _ spec
        (λ m i. ground (arith, exists-merge created current spec m, exists_of_In spec m i)) in
    (
      merge_fixed created merged spec
          (All-of_In _ merged
            (λ m i. ground (arith, exists-merge created current spec m, exists_of_In merged m i)))
          has,
      merge_fixed spec merged spec (All-of_In _ merged (λ m i. ground arith)) has,
    )

kept-eq-nil_iff :
    (created spec current : List PoolMember)
    → (kept_members created spec current ≡ [])
      ↔ All (λ m. (pool_member_exists spec m || not (pool_member_exists created m)) ≡ false) current
unfolding kept_members keep
kept-eq-nil_iff created spec [] = (λ e. tt, λ h. refl)
kept-eq-nil_iff created spec (r ∷ current) = ground (arith, kept-eq-nil_iff created spec current)

add-ne-nil :
    (spec : List PoolMember) (x : PoolMember) (merged : List PoolMember)
    → add_members spec (x ∷ merged) ≢ []
unfolding add_members
add-ne-nil [] x merged e = cc
add-ne-nil (m ∷ spec) x merged e = elim (Bool-cases (pool_member_exists (x ∷ merged) m)) [
  | inl h ↦ add-ne-nil spec x merged (rw h at e)
  | inr d ↦ add-ne-nil spec x (merged ++ (m ∷ [])) (rw d at e)
]

add_some-ne-nil : (n : PoolMember) (new l : List PoolMember) → add_members (n ∷ new) l ≢ []
unfolding add_members pool_member_exists
add_some-ne-nil n new [] e = add-ne-nil new n [] e
add_some-ne-nil n new (x ∷ l) e = add-ne-nil (n ∷ new) x l e

cons-ne-nil : (n : PoolMember) (l : List PoolMember) → (n ∷ l) ≢ []
cons-ne-nil n l e = cc

delete_iff : (m current : List PoolMember) → ((delete_or_update m current).0 ≡ true) ↔ (m ≡ [])
unfolding delete_or_update
delete_iff [] current = ground arith
delete_iff (x ∷ m) current = ground arith

-- A pool may be deleted whole exactly if nothing is wanted in it any more and this resource
-- created every member that it has.
pub can_delete_whole_pool_iff :
    (current created new : List PoolMember)
    → ((can_delete_whole_pool current created new).0 ≡ true)
      ↔ ((new ≡ []) × All (λ m. pool_member_exists created m ≡ true) current)
unfolding can_delete_whole_pool merge_pool_members
can_delete_whole_pool_iff current created [] =
    let (to, from) = delete_iff (kept_members created [] current) current in
    let (gone, back) = kept-eq-nil_iff created [] current in
    (
      λ h. (
        refl,
        All-of_In _ current (λ m i. ground (arith, All-In _ current (gone (to h)) i, exists_nil m)),
      ),
      λ h. from (
          back (All-of_In _ current (λ m i. ground (arith, All-In _ current h.1 i, exists_nil m)))),
    )
can_delete_whole_pool_iff current created (n ∷ new) =
    let merged = add_members (n ∷ new) (kept_members created (n ∷ new) current) in
    (
      λ h. absurd (add_some-ne-nil n new _ ((delete_iff merged current).0 h)),
      λ h. absurd (cons-ne-nil n new h.0),
    )
