-- ===== src/Teardown/Recorded.antt =====
-- A load balancer that may be deleted whole carries nothing that is not recorded as created.
use vngcloud_load_balancer_c.Base.{
  ◌≡◌, ◌⊎◌, refl, sym, subst, inl, inr, Bool, true, false, List, [], ◌∷◌, some, Text, ◌==◌, text_eq,
  text_beq_iff, arith, find?, any, Bool-cases, Option-cases, In, All, All-of_In, ◌↔◌,
}
use vngcloud_load_balancer_c.Api.{
  CreatedListener, CreatedPolicy, CreatedPool, LoadBalancerConfig, PoolMember,
}
use vngcloud_load_balancer_c.Cloud.{ListenerEntity, MemberEntity, PolicyEntity, PoolEntity}
use vngcloud_load_balancer_c.Errs.{Error}
use vngcloud_load_balancer_c.Members.{pool_member_exists}
use vngcloud_load_balancer_c.Teardown.{
  Reads, can_cover, can_delete_whole_load_balancer, convert_member, covers_members, covers_policies,
  is_load_balancer_empty, knows_listener, knows_pool, knows_pools, has_no_pools,
}
use vngcloud_load_balancer_c.Errs.{Result, ok, failed}

pub Result-cases :
    {A : Type 0} (r : Result A)
    → ((a : A) × (r ≡ Result.ok a)) ⊎ ((e : Error) × (r ≡ Result.failed e))
Result-cases (ok a) = inl (a, refl)
Result-cases (failed e) = inr (e, refl)

can_cover-In :
    {U : Type 0} (is_exist : U → Result Bool) (items : List U) (b : U)
    → can_cover is_exist items ≡ Result.ok true
    → In b items
    → is_exist b ≡ Result.ok true
unfolding can_cover
can_cover-In is_exist [] b h i = absurd i
can_cover-In is_exist (x ∷ items) b h i = elim (Result-cases (is_exist x)) [
  | inr (e, f) ↦ ground arith
  | inl (true, f) ↦ elim i [
    | inl s ↦ rw s f
    | inr j ↦ can_cover-In is_exist items b (ground (arith, f)) j
  ]
  | inl (false, f) ↦ ground (arith, f)
]

covers_policies-In :
    (created : List CreatedPolicy) (policies : List PolicyEntity) (b : PolicyEntity)
    → covers_policies created policies ≡ true
    → In b policies
    → any (λ (p : CreatedPolicy). p.id == b.uuid) created ≡ true
unfolding covers_policies
covers_policies-In created [] b h i = absurd i
covers_policies-In created (x ∷ policies) b h (inl s) = rw s (ground arith)
covers_policies-In created (x ∷ policies) b h (inr i) =
    covers_policies-In created policies b (ground arith) i

covers_members-In :
    (created : List PoolMember) (members : List MemberEntity) (b : MemberEntity)
    → covers_members created members ≡ true
    → In b members
    → pool_member_exists created (convert_member b) ≡ true
unfolding covers_members
covers_members-In created [] b h i = absurd i
covers_members-In created (x ∷ members) b h (inl s) = rw s (ground arith)
covers_members-In created (x ∷ members) b h (inr i) =
    covers_members-In created members b (ground arith) i

find?-In :
    {A : Type 0} (p : A → Bool) (xs : List A) (a : A) → find? p xs ≡ some a → In a xs × (p a ≡ true)
unfolding find?
find?-In p [] a = λ h. cc
find?-In p (x ∷ xs) a = elim (Bool-cases (p x)) [
  | inl e ↦ rw e (λ h. let s : x ≡ a = cc in (inl (sym s), subst (λ z. p z ≡ true) s e))
  | inr n ↦ rw n (λ h. let (i, q) = find?-In p xs a h in (inr i, q))
]

module _ (reads : Reads) (layer4 : Text) (lbc : LoadBalancerConfig) (lb_id : Text) where
  -- The listener is recorded as created, and all policies that it has are recorded with it.
  abbrev pub RecordedListener : ListenerEntity → Type 0
  RecordedListener b =
      (c : CreatedListener) × In c lbc.status.created_listeners
      × (c.id ≡ b.uuid)
      × ((lbc.spec.type ≡ layer4)
          ⊎ ((policies : List PolicyEntity) × (reads.list_policies lb_id c.id ≡ Result.ok policies)
              × All (λ p. any (λ (r : CreatedPolicy). r.id == p.uuid) c.created_policies ≡ true)
                  policies))

  -- The pool is recorded as created, and all members that it has are recorded with it.
  abbrev pub RecordedPool : PoolEntity → Type 0
  RecordedPool b =
      (c : CreatedPool) × In c lbc.status.created_pools
      × (c.id ≡ b.uuid)
      × ((members : List MemberEntity) × (reads.pool_members lb_id b.uuid ≡ Result.ok members)
          × All (λ m. pool_member_exists c.created_members (convert_member m) ≡ true) members)

  knows_listener-Recorded :
      (b : ListenerEntity)
      → knows_listener reads layer4 lbc lb_id b ≡ Result.ok true
      → RecordedListener b
  unfolding knows_listener
  knows_listener-Recorded b h =
      elim (Option-cases
        (find? (λ (l : CreatedListener). l.id == b.uuid) lbc.status.created_listeners)) [
          | inl n ↦ ground (arith, n)
          | inr (c, f) ↦
              let (i, e) = find?-In _ lbc.status.created_listeners c f in
              let id : c.id ≡ b.uuid = (text_beq_iff c.id b.uuid).0 e in
              elim (Bool-cases (lbc.spec.type == layer4)) [
                | inl l ↦ (c, i, id, inl ((text_beq_iff lbc.spec.type layer4).0 l))
                | inr n ↦ elim (Result-cases (reads.list_policies lb_id c.id)) [
                  | inr (x, r) ↦ ground (arith, f, n, r)
                  | inl (policies, r) ↦
                      let covered : covers_policies c.created_policies policies ≡ true =
                        ground (arith, f, n, r) in
                      (
                        c,
                        i,
                        id,
                        inr (
                          policies,
                          r,
                          All-of_In _ policies
                              (λ p j. covers_policies-In c.created_policies policies p covered j),
                        ),
                      )
                ]
              ]
        ]

  knows_pool-Recorded :
      (b : PoolEntity) → knows_pool reads layer4 lbc lb_id b ≡ Result.ok true → RecordedPool b
  unfolding knows_pool
  knows_pool-Recorded b h =
      elim (Option-cases (find? (λ (p : CreatedPool). p.id == b.uuid) lbc.status.created_pools)) [
        | inl n ↦ ground (arith, n)
        | inr (c, f) ↦
            let (i, e) = find?-In _ lbc.status.created_pools c f in
            let id : c.id ≡ b.uuid = (text_beq_iff c.id b.uuid).0 e in
            elim (Result-cases (reads.pool_members lb_id b.uuid)) [
              | inr (x, r) ↦ ground (arith, f, r)
              | inl (members, r) ↦
                  let covered : covers_members c.created_members members ≡ true =
                    ground (arith, f, r) in
                  (
                    c,
                    i,
                    id,
                    (
                      members,
                      r,
                      All-of_In _ members
                          (λ m j. covers_members-In c.created_members members m covered j),
                    ),
                  )
            ]
      ]

  -- Where the load balancer may be deleted whole, every listener that it has is recorded as created
  -- with all its policies, unless it is of layer 4, and every pool with all its members.
  pub deletable_is_recorded :
      (listeners : List ListenerEntity) (pools : List PoolEntity)
      → can_delete_whole_load_balancer reads layer4 lbc lb_id ≡ Result.ok true
      → reads.list_listeners lb_id ≡ Result.ok listeners
      → reads.list_pools lb_id ≡ Result.ok pools
      → All RecordedListener listeners × All RecordedPool pools
  unfolding can_delete_whole_load_balancer knows_pools
  deletable_is_recorded listeners pools h ls ps =
      elim (Result-cases (can_cover (knows_listener reads layer4 lbc lb_id) listeners)) [
        | inr (e, f) ↦ ground (arith, ls, f)
        | inl (false, f) ↦ ground (arith, ls, f)
        | inl (true, f) ↦
            let g : can_cover (knows_pool reads layer4 lbc lb_id) pools ≡ Result.ok true =
              ground (arith, ls, ps, f) in
            (
              All-of_In _ listeners
                  (λ b i. knows_listener-Recorded b (can_cover-In _ listeners b f i)),
              All-of_In _ pools (λ b i. knows_pool-Recorded b (can_cover-In _ pools b g i)),
            )
      ]

  -- A load balancer counts as empty exactly if both lists were read and have no items.
  pub is_empty_iff :
      (is_load_balancer_empty reads layer4 lbc lb_id ≡ Result.ok true)
      ↔ ((reads.list_listeners lb_id ≡ Result.ok []) × (reads.list_pools lb_id ≡ Result.ok []))
  unfolding is_load_balancer_empty has_no_pools
  is_empty_iff = (
    λ h. elim (Result-cases (reads.list_listeners lb_id)) [
      | inr (e, f) ↦ ground (arith, f)
      | inl (_ ∷ _, f) ↦ ground (arith, f)
      | inl ([], f) ↦ elim (Result-cases (reads.list_pools lb_id)) [
        | inr (e, g) ↦ ground (arith, f, g)
        | inl (_ ∷ _, g) ↦ ground (arith, f, g)
        | inl ([], g) ↦ (f, g)
      ]
    ],
    λ (f, g). ground (arith, f, g),
  )
