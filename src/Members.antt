-- ===== src/Members.antt =====
-- The members of a pool (internal/usecase/lbc_uc: mergePoolMembers, comparePoolMembers and
-- checkIfPoolMemberExist of deploy_pool.go, canDeleteWholePool of delete_pool.go). A member is
-- identified by its address, its port and its monitor port.
pub mod Laws
pub mod Compared
mod Examples
use vngcloud_load_balancer_c.Base.{
  Bool, true, false, not, ◌&&◌, ◌||◌, List, [], ◌∷◌, ◌++◌, Option, none, some, ◌==◌, nat_eq,
  text_eq, length, any, all, keep, if◌then◌else◌,
}
use vngcloud_load_balancer_c.Api.{PoolMember}
use vngcloud_load_balancer_c.Cloud.{MemberRequest}

-- `NewMember` of a member: its weight and whether it is a backup are not sent.
unfoldable pub sent_member : PoolMember → MemberRequest
sent_member m = record { name = m.name; ip = m.ip; port = m.port; monitor_port = m.monitor_port }

-- The comparison inside `checkIfPoolMemberExist`.
pub same_member : PoolMember → PoolMember → Bool
same_member r m = r.ip == m.ip && (r.port == m.port && r.monitor_port == m.monitor_port)

unfoldable pub pool_member_exists : List PoolMember → PoolMember → Bool
unfolding same_member any
pool_member_exists list member = any (λ r. same_member r member) list

-- The first loop of `mergePoolMembers`.
kept_members : List PoolMember → List PoolMember → List PoolMember → List PoolMember
kept_members created spec current =
    keep (λ m. pool_member_exists spec m || not (pool_member_exists created m)) current

-- Its second loop.
add_members : List PoolMember → List PoolMember → List PoolMember
add_members [] merged = merged
add_members (m ∷ spec) merged =
    add_members spec (if pool_member_exists merged m then merged else merged ++ (m ∷ []))

unfoldable pub merge_pool_members :
    List PoolMember → List PoolMember → List PoolMember → List PoolMember
unfolding kept_members add_members
merge_pool_members created current spec = add_members spec (kept_members created spec current)

unfoldable pub compare_pool_members : List PoolMember → List PoolMember → Bool
unfolding all pool_member_exists
compare_pool_members members current =
    length members == length current && all (pool_member_exists current) members

-- The tests on the merged list: whether the whole pool may go, or else the members to send.
delete_or_update : List PoolMember → List PoolMember → Bool × Option (List PoolMember)
delete_or_update [] current = (true, none)
delete_or_update (m ∷ members) current =
    if not (compare_pool_members (m ∷ members) current)
    then (false, some (m ∷ members))
    else (false, none)

pub can_delete_whole_pool :
    List PoolMember → List PoolMember → List PoolMember → Bool × Option (List PoolMember)
can_delete_whole_pool current created new =
    delete_or_update (merge_pool_members created current new) current
