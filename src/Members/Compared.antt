-- ===== src/Members/Compared.antt =====
-- Lists of members that compare equal hold the same members.
use vngcloud_load_balancer_c.Base.{
  ◌≡◌, sym, ◌∙◌, inl, inr, Bool-cases, true, List, [], ◌∷◌, arith, all, nat_eq, In,
}
use vngcloud_load_balancer_c.Api.{PoolMember}
use vngcloud_load_balancer_c.Members.{
  compare_pool_members, merge_pool_members, pool_member_exists, same_member,
}
use vngcloud_load_balancer_c.Members.Laws.{exists-merge, exists_of_same, same_member_refl}

all-exists :
    (current members : List PoolMember) (m : PoolMember)
    → all (pool_member_exists current) members ≡ true
    → pool_member_exists members m ≡ true
    → pool_member_exists current m ≡ true
unfolding all pool_member_exists
all-exists current [] m a e = cc
all-exists current (r ∷ members) m a e = elim (Bool-cases (same_member r m)) [
  | inl s ↦ sym (exists_of_same current r m s) ∙ ground (arith, a)
  | inr d ↦ all-exists current members m (ground (arith, a)) (ground (arith, e, d))
]

pub exists-In :
    (members : List PoolMember) (m : PoolMember)
    → In m members
    → pool_member_exists members m ≡ true
unfolding pool_member_exists
exists-In [] m i = absurd i
exists-In (r ∷ members) m (inl e) = rw e (ground (arith, same_member_refl r))
exists-In (r ∷ members) m (inr i) = ground (arith, exists-In members m i)

-- After a merge every member of the spec is there.
pub merged-holds :
    (created current spec : List PoolMember) (m : PoolMember)
    → In m spec
    → pool_member_exists (merge_pool_members created current spec) m ≡ true
merged-holds created current spec m i =
    ground (arith, exists-merge created current spec m, exists-In spec m i)

-- Where the merged members compare equal to the current ones, these hold every member of the spec.
pub compared-holds :
    (created current spec : List PoolMember) (m : PoolMember)
    → compare_pool_members (merge_pool_members created current spec) current ≡ true
    → In m spec
    → pool_member_exists current m ≡ true
unfolding compare_pool_members
compared-holds created current spec m c i =
    all-exists current (merge_pool_members created current spec) m (ground (arith, c))
      (merged-holds created current spec m i)
