-- ===== src/Retry.antt =====
-- Writes that are tried again while the load balancer is busy
-- (internal/usecase/lbc_uc/retry_not_ready.go). The write and the wait are the caller's; they act
-- on a world that the model leaves open.
pub mod Attempts
mod Examples
use vngcloud_load_balancer_c.Base.{
  ℕ, suc, zero, Bool, true, false, Option, none, some, if◌then◌else◌,
}
use vngcloud_load_balancer_c.Errs.{Error}

abbrev pub max_load_balancer_busy_retries : ℕ
max_load_balancer_busy_retries = 3

module _ {W : Type 0} (not_ready : Error → Bool)  -- `domain.IsLoadBalancerNotReady`
    (write wait : W → W × Option Error) where
  -- The loop, by the attempts that are left.
  unfoldable pub attempts : ℕ → W → W × Option Error
  attempts zero w = (w, none)
  attempts (suc left) w =
      let (written, err) = write w in
      let (waited, wait_err) = wait written in
      let again = attempts left waited in
      elim err [
        | none ↦ (written, none)
        | some e ↦
            if not_ready e
            then elim left [
              | zero ↦ (written, some e)
              | suc _ ↦ elim wait_err [ none ↦ again | some f ↦ (waited, some f) ]
            ]
            else (written, some e)
      ]

  unfoldable pub retry_on_load_balancer_not_ready : W → W × Option Error
  unfolding attempts
  retry_on_load_balancer_not_ready w = attempts max_load_balancer_busy_retries w
