-- ===== src/Errs/Examples.antt =====
-- A rate limit inside a wrapped error, and hints from the server.
use vngcloud_load_balancer_c.Base.{
  ℕ, ◌≡◌, ◌≤◌, ◌<◌, ◌↔◌, refl, true, false, not, ◌&&◌, none, some, text, arith, [], ◌*◌,
}
use vngcloud_load_balancer_c.Errs.{
  Error, Headers, Parsers, as_rate_limit, clamp_wait, counts_error, handle_reconcile_error,
  is_rate_limit_exceeded, parse_retry_after, rate_limit_requeue_after, second,
}
use vngcloud_load_balancer_c.Errs.Waits.{
  failed_iff_counted, long_hint_waits_short, rate_limited_waits,
}

abbrev no_jitter : ℕ → ℕ
no_jitter n = 0

abbrev throttled : Error
throttled =
    Error.wrap (text "failed to list pools")
      (Error.rate_limit (10 * second) (text "/v2/pools") (text "GET") (Error.plain (text "429")))

rate_limited_waits_example :
    let out = handle_reconcile_error no_jitter (some throttled) in
    (out.failed ≡ none)
    × (out.requeue ≡ false)
    × (2 * second ≤ out.requeue_after)
    × (out.requeue_after < 450 * second)
unfolding as_rate_limit clamp_wait
rate_limited_waits_example = rate_limited_waits no_jitter throttled (10 * second) refl (omega arith)

failed_iff_counted_example :
    ((handle_reconcile_error no_jitter (some throttled)).failed ≡ some throttled)
    ↔ ((counts_error throttled && not (is_rate_limit_exceeded throttled)) ≡ true)
failed_iff_counted_example = failed_iff_counted no_jitter throttled

abbrev huge : ℕ
huge = 10000000000

abbrev reads_huge : Parsers
reads_huge = record { atoi = λ s. some huge; time_until = λ s. none }

abbrev huge_hint : Headers
huge_hint = record { rate_limit_reset = text "10000000000"; retry_after = [] }

long_hint_waits_short_example :
    rate_limit_requeue_after no_jitter (parse_retry_after reads_huge (some huge_hint)) < 3 * second
long_hint_waits_short_example =
    long_hint_waits_short no_jitter reads_huge huge_hint huge (λ e. cc) refl (omega arith)
      (omega arith) (omega arith)
