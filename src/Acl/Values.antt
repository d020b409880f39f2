-- ===== src/Acl/Values.antt =====
-- `aclValueEqual`: lists of networks are compared as sets of canonical networks, default actions
-- by letters alone.
use vngcloud_load_balancer_c.Base.{
  ◌≡◌, refl, sym, ◌∙◌, ◌↔◌, Bool, true, List, [], ◌∷◌, arith, Option, Text, map, to_lower, get_or,
  equal_fold, equal_fold_iff, texts_beq, texts_beq_iff,
}
use vngcloud_load_balancer_c.Acl.{AclField, default, Net, cidr_set}

module _ (net : Net) where
  unfoldable pub acl_value_equal : AclField → Option Text → Option Text → Bool
  acl_value_equal default a b = equal_fold (get_or a []) (get_or b [])
  acl_value_equal _ a b = texts_beq (cidr_set net (get_or a [])) (cidr_set net (get_or b []))

  -- What two equal values have in common.
  acl_key : AclField → Option Text → List Text
  acl_key default a = map to_lower (get_or a []) ∷ []
  acl_key _ a = cidr_set net (get_or a [])

  acl_value_equal_iff :
      (f : AclField) (a b : Option Text)
      → (acl_value_equal f a b ≡ true) ↔ (acl_key f a ≡ acl_key f b)
  unfolding acl_value_equal acl_key
  acl_value_equal_iff default a b = ground (arith, equal_fold_iff (get_or a []) (get_or b []))
  acl_value_equal_iff _ a b =
      texts_beq_iff (cidr_set net (get_or a [])) (cidr_set net (get_or b []))

  pub acl_value_equal_refl : (f : AclField) (a : Option Text) → acl_value_equal f a a ≡ true
  acl_value_equal_refl f a = (acl_value_equal_iff f a a).1 refl

  pub acl_value_equal_symm :
      (f : AclField) (a b : Option Text)
      → acl_value_equal f a b ≡ true
      → acl_value_equal f b a ≡ true
  acl_value_equal_symm f a b h =
      (acl_value_equal_iff f b a).1 (sym ((acl_value_equal_iff f a b).0 h))

  pub acl_value_equal_trans :
      (f : AclField) (a b c : Option Text)
      → acl_value_equal f a b ≡ true
      → acl_value_equal f b c ≡ true
      → acl_value_equal f a c ≡ true
  acl_value_equal_trans f a b c h k =
      (acl_value_equal_iff f a c).1
        ((acl_value_equal_iff f a b).0 h ∙ (acl_value_equal_iff f b c).0 k)
