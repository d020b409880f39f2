-- ===== src/Errs/Waits.antt =====
-- How long a rate-limited reconcile waits.
use Prim.Native.Nat.{◌*◌, ◌/◌, ◌^◌}
use vngcloud_load_balancer_c.Base.{
  ℕ, ◌≡◌, ◌≢◌, ◌≤◌, ◌<◌, ◌↔◌, refl, true, false, not, ◌&&◌, [], text_eq, text_beq_iff, inl, inr,
  none, some, arith, Bool-cases, Option-cases,
}
use vngcloud_load_balancer_c.Errs.{
  Error, Headers, Parsers, as_rate_limit, as_requeue_needed, as_requeue_needed_after, clamp_wait,
  counts_error, is_rate_limit_exceeded, parse_retry_after, handle_reconcile_error,
  rate_limit_requeue_after, second,
}

clamp_wait-bounds : (d : ℕ) → (2 * second ≤ clamp_wait d) × (clamp_wait d ≤ 300 * second)
unfolding clamp_wait
clamp_wait-bounds d = ground arith

-- A reconcile that hit a rate limit, however wrapped, is queued again without an error, between two
-- seconds and seven and a half minutes later, whatever the server's hint, overflow included; the
-- jitter is assumed to be below its bound.
pub rate_limited_waits :
    (int63n : ℕ → ℕ) (err : Error) (hint : ℕ)
    → as_rate_limit err ≡ some hint
    → int63n (clamp_wait hint / 2) < clamp_wait hint / 2
    → let out = handle_reconcile_error int63n (some err) in
      (out.failed ≡ none)
      × (out.requeue ≡ false)
      × (2 * second ≤ out.requeue_after)
      × (out.requeue_after < 450 * second)
unfolding handle_reconcile_error rate_limit_requeue_after
rate_limited_waits int63n err hint limited below =
    let (low, high) = clamp_wait-bounds hint in
    rw (handle_reconcile_error, limited) (refl, refl, omega arith, omega arith)

-- An error is reported as a failure of the reconcile exactly if it is counted as an error and no
-- rate limit is on its chain; what is reported is the error itself.
pub failed_iff_counted :
    (int63n : ℕ → ℕ) (err : Error)
    → ((handle_reconcile_error int63n (some err)).failed ≡ some err)
      ↔ ((counts_error err && not (is_rate_limit_exceeded err)) ≡ true)
unfolding handle_reconcile_error counts_error is_rate_limit_exceeded
failed_iff_counted int63n err = elim (Option-cases (as_rate_limit err)) [
  | inl e ↦ elim (Option-cases (as_requeue_needed_after err)) [
    | inl n ↦ elim (Bool-cases (as_requeue_needed err)) [
      | inl r ↦ rw (handle_reconcile_error, e, n, r) (λ h. cc, λ h. cc)
      | inr r ↦ rw (handle_reconcile_error, e, n, r) (λ h. refl, λ h. refl)
    ]
    | inr (d, n) ↦ rw (handle_reconcile_error, e, n) (λ h. cc, λ h. cc)
  ]
  | inr (hint, e) ↦ rw (handle_reconcile_error, e) (λ h. cc, λ h. ground arith)
]

wrapped_wait :
    (int63n : ℕ → ℕ) (d : ℕ)
    → 2 ^ 63 ≤ d
    → d < 2 ^ 64
    → int63n second < second
    → rate_limit_requeue_after int63n d < 3 * second
unfolding rate_limit_requeue_after clamp_wait
wrapped_wait int63n d low high below =
    let floor : clamp_wait d ≡ 2 * second = ground arith in
    rw (rate_limit_requeue_after, floor) (omega arith)

-- A hint in the header of the rate limit, of so many seconds that their nanoseconds are a negative
-- int64, is waited for less than three seconds, not five minutes; the jitter is assumed to be below
-- its bound.
pub long_hint_waits_short :
    (int63n : ℕ → ℕ) (parsers : Parsers) (h : Headers) (secs : ℕ)
    → h.rate_limit_reset ≢ []
    → parsers.atoi h.rate_limit_reset ≡ some secs
    → 2 ^ 63 ≤ secs * second
    → secs * second < 2 ^ 64
    → int63n second < second
    → rate_limit_requeue_after int63n (parse_retry_after parsers (some h)) < 3 * second
unfolding parse_retry_after rate_limit_requeue_after clamp_wait
long_hint_waits_short int63n parsers h secs given parsed low high below =
    let hint : parse_retry_after parsers (some h) ≡ secs * second =
      ground (arith, parsed, text_beq_iff h.rate_limit_reset []) in
    rw hint (wrapped_wait int63n (secs * second) low high below)
