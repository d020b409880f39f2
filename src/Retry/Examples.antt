-- ===== src/Retry/Examples.antt =====
-- A load balancer that is busy for as many writes as its world says.
use vngcloud_load_balancer_c.Base.{
  ℕ, suc, zero, ◌≡◌, ◌≤◌, refl, Bool, true, Option, none, some, text, ◌+◌,
}
use vngcloud_load_balancer_c.Errs.{Error}
use vngcloud_load_balancer_c.Retry.{retry_on_load_balancer_not_ready}
use vngcloud_load_balancer_c.Retry.Attempts.{
  Counted, counted_wait, counted_write, retry_bounded, retry_gives_up_last,
}

abbrev busy : Error
busy = Error.plain (text "The load balancer id lb-1 is not ready")

abbrev any_busy : Error → Bool
any_busy e = true

abbrev write_at : ℕ → ℕ × Option Error
write_at zero = (zero, none)
write_at (suc n) = (n, some busy)

abbrev wait_at : ℕ → ℕ × Option Error
wait_at n = (n, none)

abbrev busy_for : ℕ → Counted ℕ
busy_for n = record { writes = 0; waits = 0; world = n }

retry_bounded_example :
    let out =
      (retry_on_load_balancer_not_ready any_busy
        (counted_write any_busy write_at wait_at)
        (counted_wait any_busy write_at wait_at)
        (busy_for 2)).0 in
    (0 + 1 ≤ out.writes) × (out.writes ≤ 0 + 3)
retry_bounded_example = retry_bounded any_busy write_at wait_at (busy_for 2)

retry_gives_up_last_example :
    (retry_on_load_balancer_not_ready any_busy
      (counted_write any_busy write_at wait_at)
      (counted_wait any_busy write_at wait_at)
      (busy_for 9)).0.writes
    ≡ 0 + 3
unfolding retry_on_load_balancer_not_ready
retry_gives_up_last_example =
    retry_gives_up_last any_busy write_at wait_at (busy_for 9) busy (λ w f h. cc) refl refl
