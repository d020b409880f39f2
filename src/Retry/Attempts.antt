-- ===== src/Retry/Attempts.antt =====
-- How often a write is tried.
use Prim.Native.Nat.{suc, zero, ◌+◌}
use vngcloud_load_balancer_c.Base.{
  ℕ, ◌≡◌, ◌≤◌, inl, inr, Bool, true, false, Option, some, arith, Bool-cases, Option-cases,
}
use vngcloud_load_balancer_c.Errs.{Error}
use vngcloud_load_balancer_c.Retry.{attempts, retry_on_load_balancer_not_ready}

-- A world with the number of writes and of waits so far.
pub record Counted (W : Type 0) : Type 0 where
  pub writes : ℕ
  pub waits : ℕ
  pub world : W

module _ {W : Type 0} (not_ready : Error → Bool) (write wait : W → W × Option Error) where
  abbrev pub counted_write : Counted W → Counted W × Option Error
  counted_write c =
      let (w, err) = write c.world in
      (record { writes = suc c.writes; waits = c.waits; world = w }, err)

  abbrev pub counted_wait : Counted W → Counted W × Option Error
  counted_wait c =
      let (w, err) = wait c.world in
      (record { writes = c.writes; waits = suc c.waits; world = w }, err)

  attempts-count :
      (left : ℕ) (c : Counted W)
      → let out = (attempts not_ready counted_write counted_wait (suc left) c).0 in
        (suc c.writes ≤ out.writes) × (out.writes ≤ c.writes + suc left)
  unfolding attempts
  attempts-count zero c = elim (Option-cases (write c.world).1) [
    | inl n ↦ rw (attempts, n) (omega arith, omega arith)
    | inr (e, s) ↦ elim (Bool-cases (not_ready e)) [
      | inl y ↦ rw (attempts, s, y) (omega arith, omega arith)
      | inr y ↦ rw (attempts, s, y) (omega arith, omega arith)
    ]
  ]
  attempts-count (suc left) c =
      let written = (counted_write c).0 in
      elim (Option-cases (write c.world).1) [
        | inl n ↦ rw (attempts, n) (omega arith, omega arith)
        | inr (e, s) ↦ elim (Bool-cases (not_ready e)) [
          | inr y ↦ rw (attempts, s, y) (omega arith, omega arith)
          | inl y ↦ elim (Option-cases (wait written.world).1) [
            | inr (f, t) ↦ rw (attempts, s, y, t) (omega arith, omega arith)
            | inl t ↦
                let (low, high) = attempts-count left (counted_wait written).0 in
                rw (attempts, s, y, t) (omega arith, omega arith)
          ]
        ]
      ]

  clash : (d e : Error) → some d ≡ some e → not_ready d ≡ false → not_ready e ≡ true → ⊥
  clash d e h n y = cc

  attempts-exhausted :
      (left : ℕ) (c : Counted W) (e : Error)
      → ((w : W) (f : Error) → (wait w).1 ≡ some f → not_ready f ≡ false)
      → not_ready e ≡ true
      → (attempts not_ready counted_write counted_wait (suc left) c).1 ≡ some e
      → (attempts not_ready counted_write counted_wait (suc left) c).0.writes ≡ c.writes + suc left
  unfolding attempts
  attempts-exhausted zero c e settles busy = elim (Option-cases (write c.world).1) [
    | inl n ↦ rw (attempts, n) (λ h. cc)
    | inr (d, s) ↦ elim (Bool-cases (not_ready d)) [
      | inl y ↦ rw (attempts, s, y) (λ h. omega arith)
      | inr y ↦ rw (attempts, s, y) (λ h. omega arith)
    ]
  ]
  attempts-exhausted (suc left) c e settles busy =
      let written = (counted_write c).0 in
      elim (Option-cases (write c.world).1) [
        | inl n ↦ rw (attempts, n) (λ h. cc)
        | inr (d, s) ↦ elim (Bool-cases (not_ready d)) [
          | inr y ↦ rw (attempts, s, y) (λ h. absurd (clash d e h y busy))
          | inl y ↦ elim (Option-cases (wait written.world).1) [
            | inr (f, t) ↦
                rw (attempts, s, y, t) (λ h. absurd (clash f e h (settles written.world f t) busy))
            | inl t ↦
                let waited = (counted_wait written).0 in
                rw (attempts, s, y, t)
                  (λ h. let later = attempts-exhausted left waited e settles busy h in omega arith)
          ]
        ]
      ]

  -- A write is made at least once and at most three times.
  pub retry_bounded :
      (c : Counted W)
      → let out = (retry_on_load_balancer_not_ready not_ready counted_write counted_wait c).0 in
        (c.writes + 1 ≤ out.writes) × (out.writes ≤ c.writes + 3)
  unfolding retry_on_load_balancer_not_ready
  retry_bounded c = let (low, high) = attempts-count 2 c in (omega arith, high)

  -- Where no wait fails as busy, a busy load balancer is reported only after three writes.
  pub retry_gives_up_last :
      (c : Counted W) (e : Error)
      → ((w : W) (f : Error) → (wait w).1 ≡ some f → not_ready f ≡ false)
      → not_ready e ≡ true
      → (retry_on_load_balancer_not_ready not_ready counted_write counted_wait c).1 ≡ some e
      → (retry_on_load_balancer_not_ready not_ready counted_write counted_wait c).0.writes
        ≡ c.writes + 3
  unfolding retry_on_load_balancer_not_ready
  retry_gives_up_last c e settles busy h = attempts-exhausted 2 c e settles busy h
