-- ===== src/Acl.antt =====
-- The access lists of a listener (internal/usecase/lbc_uc/listener_acl.go): which value each of
-- the three fields gets, and what is recorded so that it can be put back.
pub mod Values
pub mod Plan
use vngcloud_load_balancer_c.Base.{
  ℕ, Bool, true, false, not, ◌&&◌, ◌||◌, List, [], ◌∷◌, ◌++◌, Option, none, some, Text, text, ◌==◌,
  nat_eq, text_eq, length, leb, any, if◌then◌else◌, split, sort, equal_fold, get_or,
}
use vngcloud_load_balancer_c.Api.{Listener, ListenerAcl}
use vngcloud_load_balancer_c.Api.Equality.{is_empty}
use vngcloud_load_balancer_c.Cloud.{ListenerEntity}

pub data AclField : Type 0 where
  allowed blocked default : AclField

abbrev pub acl_fields : List AclField
acl_fields = allowed ∷ blocked ∷ default ∷ []

abbrev pub no_acl : ListenerAcl
no_acl = record { allowed_cidrs = none; blocked_cidrs = none; default_action = none }

-- `f.get(a)`; a nil record has no value.
abbrev pub get_field : AclField → ListenerAcl → Option Text
get_field allowed a = a.allowed_cidrs
get_field blocked a = a.blocked_cidrs
get_field default a = a.default_action

abbrev pub get_optional : AclField → Option ListenerAcl → Option Text
get_optional f none = none
get_optional f (some a) = get_field f a

-- `f.set(a, v)`.
abbrev pub set_field : AclField → ListenerAcl → Option Text → ListenerAcl
set_field allowed a v = record a { allowed_cidrs = v }
set_field blocked a v = record a { blocked_cidrs = v }
set_field default a v = record a { default_action = v }

abbrev pub action_accept : Text
action_accept = text "accept"

abbrev pub action_drop : Text
action_drop = text "drop"

-- An empty allow list in the spec is unmanaged.
unfoldable pub spec_acl : Listener → ListenerAcl
spec_acl l = record {
  allowed_cidrs = elim (l.allowed_cidrs) [
    | none ↦ none
    | some c ↦ if c == [] then none else some c
  ];
  blocked_cidrs = l.blocked_cidrs;
  default_action = l.default_action;
}

unfoldable pub current_acl : ListenerEntity → ListenerAcl
current_acl l = record {
  allowed_cidrs = some l.allowed_cidrs;
  blocked_cidrs = some l.blocked_cidrs;
  default_action = if l.default_action == [] then none else some l.default_action;
}

-- `nilIfEmpty`.
unfoldable pub nil_if_empty : ListenerAcl → Option ListenerAcl
unfolding is_empty
nil_if_empty a = if is_empty (some a) then none else some a

neutral_value : AclField → Text → Text
neutral_value allowed default_allowed = default_allowed
neutral_value blocked default_allowed = []
neutral_value default default_allowed = action_drop

-- The loop of `neutralAcl`.
record_neutral : ListenerAcl → Text → List AclField → ListenerAcl → ListenerAcl
unfolding neutral_value
record_neutral spec default_allowed [] rec = rec
record_neutral spec default_allowed (f ∷ fs) rec =
    record_neutral spec default_allowed fs (elim (get_field f spec) [
      | none ↦ rec
      | some _ ↦ set_field f rec (some (neutral_value f default_allowed))
    ])

unfoldable pub neutral_acl : ListenerAcl → Text → Option ListenerAcl
unfolding record_neutral nil_if_empty
neutral_acl spec default_allowed =
    nil_if_empty (record_neutral spec default_allowed acl_fields no_acl)

-- `cloneAcl`; `deref` is `get_or o []`.
abbrev pub clone_acl : Option ListenerAcl → ListenerAcl
clone_acl none = no_acl
clone_acl (some a) = a

-- What Go's package net answers: the network of a CIDR in canonical form, and the canonical form
-- of an IPv4 address; `none` for any other text.
pub record Net : Type 0 where
  pub parse_cidr : Text → Option Text
  pub parse_ipv4 : Text → Option Text

is_space : ℕ → Bool
is_space c = c == 32 || (leb 9 c && leb c 13)

trim_left : Text → Text
unfolding is_space
trim_left [] = []
trim_left (c ∷ s) = let rest = trim_left s in if is_space c then rest else c ∷ s

trim_right : Text → Text
unfolding is_space
trim_right [] = []
trim_right (c ∷ s) = elim (trim_right s) [
  | [] ↦ if is_space c then [] else c ∷ []
  | d ∷ t ↦ c ∷ d ∷ t
]

-- `strings.TrimSpace`, over the ASCII spaces.
unfoldable pub trim_space : Text → Text
unfolding trim_left trim_right
trim_space s = trim_right (trim_left s)

-- `slices.Compact`: of equal neighbours the first stays.
compact : List Text → List Text
compact [] = []
compact (p ∷ []) = p ∷ []
compact (p ∷ q ∷ ps) = let rest = compact (q ∷ ps) in if p == q then rest else p ∷ rest

module _ (net : Net) where
  unfoldable pub canonical_cidr : Text → Text
  canonical_cidr s = elim (net.parse_cidr s) [
    | some n ↦ n
    | none ↦ elim (net.parse_ipv4 s) [ some ip ↦ ip ++ text "/32" | none ↦ s ]
  ]

  canonical_parts : List Text → List Text
  unfolding canonical_cidr
  canonical_parts [] = []
  canonical_parts (p ∷ ps) =
      let rest = canonical_parts ps in
      if trim_space p == [] then rest else canonical_cidr (trim_space p) ∷ rest

  unfoldable pub cidr_set : Text → List Text
  unfolding canonical_parts compact
  cidr_set s = compact (sort (canonical_parts (split s b',')))
