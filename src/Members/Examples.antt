-- ===== src/Members/Examples.antt =====
-- Pool members at concrete pools.
use vngcloud_load_balancer_c.Base.{
  ◌≡◌, refl, ◌↔◌, true, not, ◌&&◌, ◌||◌, List, [], ◌∷◌, text, text_beq, All, any, keep,
}
use vngcloud_load_balancer_c.Api.{PoolMember}
use vngcloud_load_balancer_c.Samples.{member}
use vngcloud_load_balancer_c.Members.{pool_member_exists, merge_pool_members, can_delete_whole_pool}
use vngcloud_load_balancer_c.Members.Laws.{exists-merge, merge_settles, can_delete_whole_pool_iff}

abbrev stale : PoolMember
stale = member (text "10.0.0.1") 30080

abbrev foreign : PoolMember
foreign = member (text "10.9.9.9") 80

abbrev fresh : PoolMember
fresh = member (text "10.0.0.2") 30080

merges : merge_pool_members (stale ∷ []) (stale ∷ foreign ∷ []) (fresh ∷ []) ≡ foreign ∷ fresh ∷ []
unfolding merge_pool_members pool_member_exists any keep text_beq
merges = refl

-- `exists-merge` has no hypothesis but its arguments.
exists-merge_example :
    pool_member_exists (merge_pool_members (stale ∷ []) (stale ∷ foreign ∷ []) (fresh ∷ [])) stale
    ≡ (pool_member_exists (fresh ∷ []) stale
        || (pool_member_exists (stale ∷ foreign ∷ []) stale
            && not (pool_member_exists (stale ∷ []) stale)))
exists-merge_example = exists-merge (stale ∷ []) (stale ∷ foreign ∷ []) (fresh ∷ []) stale

merge_settles_example :
    (let merged = merge_pool_members (stale ∷ []) (stale ∷ foreign ∷ []) (fresh ∷ []) in
      (merge_pool_members (stale ∷ []) merged (fresh ∷ []) ≡ merged)
      × (merge_pool_members (fresh ∷ []) merged (fresh ∷ []) ≡ merged))
merge_settles_example = merge_settles (stale ∷ []) (stale ∷ foreign ∷ []) (fresh ∷ [])

can_delete_whole_pool_iff_example :
    ((can_delete_whole_pool (stale ∷ []) (stale ∷ []) []).0 ≡ true) ↔ (
      (◌≡◌ {A = List PoolMember} [] [])
      × All (λ m. pool_member_exists (stale ∷ []) m ≡ true) (stale ∷ []))
can_delete_whole_pool_iff_example = can_delete_whole_pool_iff (stale ∷ []) (stale ∷ []) []
