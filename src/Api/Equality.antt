-- ===== src/Api/Equality.antt =====
-- The `Equal` methods (api/v1alpha1/loadbalancerconfig_types.go) and the order-independent
-- comparisons of status lists (internal/usecase/lbc_uc/status.go).
use vngcloud_load_balancer_c.Base.{
  Bool, true, false, not, ◌&&◌, ◌||◌, List, Option, none, some, ◌==◌, nat_eq, text_eq, ptr_equal,
  length, any, all, is_some,
}
use vngcloud_load_balancer_c.Api.Spec.{PoolMember}
use vngcloud_load_balancer_c.Api.Status.{
  CreatedPool, ListenerAcl, CreatedPolicy, CreatedListener, CreatedCertificate,
}

-- The length test and the loop that the list comparisons share: as long, and every item of the
-- first list has its like in the second.
unfoldable pub lists_equal : {A : Type 0} → (A → A → Bool) → List A → List A → Bool
unfolding all any
lists_equal eq a b = length a == length b && all (λ x. any (eq x) b) a

unfoldable pub equal_member : PoolMember → PoolMember → Bool
equal_member a b =
    a.ip == b.ip && (a.port == b.port && (a.monitor_port == b.monitor_port && a.name == b.name))

unfoldable pub equal_pool : CreatedPool → CreatedPool → Bool
unfolding lists_equal equal_member
equal_pool a b =
    a.id == b.id
    && (a.name == b.name && lists_equal equal_member a.created_members b.created_members)

-- A nil receiver is empty too.
unfoldable pub is_empty : Option ListenerAcl → Bool
is_empty none = true
is_empty (some a) =
    not (is_some a.allowed_cidrs)
    && (not (is_some a.blocked_cidrs) && not (is_some a.default_action))

abbrev same_bool : Bool → Bool → Bool
same_bool true b = b
same_bool false b = not b

-- `ptrStrEqual` is `ptr_equal`.
unfoldable pub equal_acl : Option ListenerAcl → Option ListenerAcl → Bool
unfolding is_empty ptr_equal
equal_acl none b = is_empty b
equal_acl (some a) none = is_empty (some a)
equal_acl (some a) (some b) = elim (is_empty (some a) || is_empty (some b)) [
  | true ↦ same_bool (is_empty (some a)) (is_empty (some b))
  | false ↦
      ptr_equal a.allowed_cidrs b.allowed_cidrs
      && (ptr_equal a.blocked_cidrs b.blocked_cidrs && ptr_equal a.default_action b.default_action)
]

unfoldable pub equal_policy : CreatedPolicy → CreatedPolicy → Bool
equal_policy a b = a.id == b.id

unfoldable pub equal_listener : CreatedListener → CreatedListener → Bool
unfolding lists_equal equal_policy equal_acl ptr_equal
equal_listener a b =
    a.id == b.id
    && (a.port == b.port
        && (same_bool a.adopted b.adopted
            && (ptr_equal a.original_default_pool_id b.original_default_pool_id
                && (equal_acl a.original_acl b.original_acl
                    && lists_equal equal_policy a.created_policies b.created_policies))))

unfoldable pub equal_certificate : CreatedCertificate → CreatedCertificate → Bool
unfolding ptr_equal
equal_certificate a b =
    a.id == b.id
    && (a.secret_name == b.secret_name
        && (a.resource_version == b.resource_version
            && ptr_equal a.certificate_name b.certificate_name))

unfoldable pub created_pools_equal : List CreatedPool → List CreatedPool → Bool
unfolding lists_equal equal_pool
created_pools_equal a b = lists_equal equal_pool a b

unfoldable pub created_listeners_equal : List CreatedListener → List CreatedListener → Bool
unfolding lists_equal equal_listener
created_listeners_equal a b = lists_equal equal_listener a b

unfoldable pub created_certificates_equal : List CreatedCertificate → List CreatedCertificate → Bool
unfolding lists_equal equal_certificate
created_certificates_equal a b = lists_equal equal_certificate a b
