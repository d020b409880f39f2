-- ===== src/Validate/Ports.antt =====
-- Go's maps from a listener port, as association lists, where a missing port has the zero value.
use vngcloud_load_balancer_c.Base.{
  ℕ, ◌≡◌, refl, ap, inl, inr, ◌⊎◌, List, [], ◌∷◌, map, arith, ◌==◌, nat_eq, if◌then◌else◌,
  Bool-cases, In, nat_beq_iff,
}

module _ {V : Type 0} (zero_value : V) where
  unfoldable pub at : ℕ → List (ℕ × V) → V
  at p [] = zero_value
  at p ((q, v) ∷ m) = if q == p then v else at p m

  -- `m[p] = g(m[p])`.
  unfoldable pub modify : ℕ → (V → V) → List (ℕ × V) → List (ℕ × V)
  modify p g [] = (p, g zero_value) ∷ []
  modify p g ((q, v) ∷ m) = if q == p then (q, g v) ∷ m else (q, v) ∷ modify p g m

  pub at_nil : (p : ℕ) → at p [] ≡ zero_value
  unfolding at
  at_nil p = refl

  pub at-modify :
      (p j : ℕ) (g : V → V) (m : List (ℕ × V))
      → at j (modify p g m) ≡ (if p == j then g (at j m) else at j m)
  unfolding at modify
  at-modify p j g [] = refl
  at-modify p j g ((q, v) ∷ m) = elim (Bool-cases (q == p)) [
    | inl e ↦ elim (Bool-cases (q == j)) [
      | inl i ↦ ground (arith, nat_beq_iff q p, nat_beq_iff q j, nat_beq_iff p j)
      | inr i ↦ ground (arith, nat_beq_iff q p, nat_beq_iff q j, nat_beq_iff p j)
    ]
    | inr e ↦ ground (arith, nat_beq_iff q p, nat_beq_iff q j, nat_beq_iff p j, at-modify p j g m)
  ]

  -- A port that is no key has the zero value.
  pub at-missing :
      (p : ℕ) (m : List (ℕ × V)) → (In p (map (λ (e : ℕ × V). e.0) m) → ⊥) → at p m ≡ zero_value
  unfolding at
  at-missing p [] n = refl
  at-missing p ((q, v) ∷ m) n = elim (Bool-cases (q == p)) [
    | inl e ↦ absurd (n (inl (ground arith)))
    | inr d ↦ rw d (at-missing p m (λ i. n (inr i)))
  ]

  -- No port stands twice.
  abbrev pub IsPortMap : List (ℕ × V) → Type 0
  IsPortMap [] = Unit
  IsPortMap ((q, _) ∷ m) = (In q (map (λ (e : ℕ × V). e.0) m) → ⊥) × IsPortMap m

  keys-modify :
      (p j : ℕ) (g : V → V) (m : List (ℕ × V))
      → In j (map (λ (e : ℕ × V). e.0) (modify p g m))
      → (j ≡ p) ⊎ In j (map (λ (e : ℕ × V). e.0) m)
  unfolding modify
  keys-modify p j g [] = λ i. i
  keys-modify p j g ((q, v) ∷ m) = elim (Bool-cases (q == p)) [
    | inl e ↦ rw e (λ i. inr i)
    | inr d ↦ rw d (λ i. elim i [
      | inl e ↦ inr (inl e)
      | inr r ↦ elim (keys-modify p j g m r) [ inl e ↦ inl e | inr l ↦ inr (inr l) ]
    ])
  ]

  pub modify-IsPortMap :
      (p : ℕ) (g : V → V) (m : List (ℕ × V)) → IsPortMap m → IsPortMap (modify p g m)
  unfolding modify
  modify-IsPortMap p g [] h = (λ i. i, tt)
  modify-IsPortMap p g ((q, v) ∷ m) (n, h) = elim (Bool-cases (q == p)) [
    | inl e ↦ rw e (n, h)
    | inr d ↦ rw d (
      λ i. elim (keys-modify p q g m i) [ inl e ↦ ground arith | inr k ↦ n k ],
      modify-IsPortMap p g m h,
    )
  ]

  In-map : (e : ℕ × V) (m : List (ℕ × V)) → In e m → In (e.0) (map (λ (x : ℕ × V). x.0) m)
  In-map e [] i = absurd i
  In-map e (x ∷ m) (inl s) = inl (ap (λ (x : ℕ × V). x.0) s)
  In-map e (x ∷ m) (inr i) = inr (In-map e m i)

  -- An entry is what its port reads.
  pub at_of_In : (p : ℕ) (v : V) (m : List (ℕ × V)) → IsPortMap m → In (p, v) m → at p m ≡ v
  unfolding at
  at_of_In p v [] h i = absurd i
  at_of_In p v ((q, w) ∷ m) (n, h) (inl e) =
      ground (arith, ap (λ (x : ℕ × V). x.0) e, ap (λ (x : ℕ × V). x.1) e)
  at_of_In p v ((q, w) ∷ m) (n, h) (inr i) = elim (Bool-cases (q == p)) [
    | inl e ↦
        let same : q ≡ p = (nat_beq_iff q p).0 e in
        let key : In q (map (λ (x : ℕ × V). x.0) m) = rw same (In-map (p, v) m i) in absurd (n key)
    | inr d ↦ rw d (at_of_In p v m h i)
  ]
