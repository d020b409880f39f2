-- ===== src/Errs.antt =====
-- Errors of a reconcile (pkg/errs, internal/domain/error.go, ratelimit.go and warning.go): the kinds
-- that the code tells apart, their text, and what the controller does with each.
pub mod Waits
mod Examples
use Prim.Native.Nat.{◌%◌, ◌*◌, ◌+◌, ◌/◌, ◌^◌}
use vngcloud_load_balancer_c.Domain.{load_balancer_status_error}
use vngcloud_load_balancer_c.Base.{
  ℕ, Bool, true, false, not, ◌&&◌, ◌||◌, List, [], ◌∷◌, ◌++◌, Option, none, some, Text, text, ◌==◌,
  text_eq, ltb, leb, any, if◌then◌else◌, has_prefix, is_some,
}

-- A duration is an int64 of nanoseconds, by its 64 bits; the upper half is negative.
abbrev pub second : ℕ
second = 1000000000

abbrev pub is_negative : ℕ → Bool
is_negative d = leb (2 ^ 63) d

pub data Error : Type 0 where
  -- An error that is only its text: of errors.New, of fmt.Errorf, or of the SDK.
  plain : (message : Text) → Error
  -- `ErrorLoadBalancerStatusError`, which the code compares by identity.
  status_error : Error
  rate_limit : (retry_after : ℕ) (url method : Text) (cause : Error) → Error
  requeue_needed : (reason : Text) → Error
  requeue_needed_after : (reason : Text) (duration : ℕ) → Error
  reconcile_warning : (messages : List Text) → Error
  error_with_metrics : (resource_type error_category : Text) (err : Error) → Error
  -- `errors.Wrap`.
  wrap : (message : Text) (err : Error) → Error
  -- `errors.Join`, and `fmt.Errorf` with two `%w`: two causes, and what stands between their texts.
  joined : (separator : Text) (first rest : Error) → Error

-- A value or an error.
pub data Result (A : Type 0) : Type 0 where
  ok : (value : A) → Result A
  failed : (err : Error) → Result A

abbrev pub or_else {ℓ} : {A : Type ℓ} → Option A → Option A → Option A
or_else none b = b
or_else (some a) b = some a

abbrev pub new_no_need_requeue : Text → Error
new_no_need_requeue reason = Error.requeue_needed_after reason (180 * second)

-- `errors.As`: the first rate limit on the chain of causes, by its hint.
unfoldable pub as_rate_limit : Error → Option ℕ
as_rate_limit (Error.rate_limit retry_after _ _ _) = some retry_after
as_rate_limit (Error.error_with_metrics _ _ err) = as_rate_limit err
as_rate_limit (Error.wrap _ err) = as_rate_limit err
as_rate_limit (Error.joined _ a b) = or_else (as_rate_limit a) (as_rate_limit b)
as_rate_limit _ = none

unfoldable pub as_requeue_needed_after : Error → Option ℕ
as_requeue_needed_after (Error.requeue_needed_after _ duration) = some duration
as_requeue_needed_after (Error.rate_limit _ _ _ cause) = as_requeue_needed_after cause
as_requeue_needed_after (Error.error_with_metrics _ _ err) = as_requeue_needed_after err
as_requeue_needed_after (Error.wrap _ err) = as_requeue_needed_after err
as_requeue_needed_after (Error.joined _ a b) =
    or_else (as_requeue_needed_after a) (as_requeue_needed_after b)
as_requeue_needed_after _ = none

unfoldable pub as_requeue_needed : Error → Bool
as_requeue_needed (Error.requeue_needed _) = true
as_requeue_needed (Error.rate_limit _ _ _ cause) = as_requeue_needed cause
as_requeue_needed (Error.error_with_metrics _ _ err) = as_requeue_needed err
as_requeue_needed (Error.wrap _ err) = as_requeue_needed err
as_requeue_needed (Error.joined _ a b) = as_requeue_needed a || as_requeue_needed b
as_requeue_needed _ = false

-- `IsRateLimitExceeded`.
unfoldable pub is_rate_limit_exceeded : Error → Bool
unfolding as_rate_limit
is_rate_limit_exceeded err = is_some (as_rate_limit err)

-- `NewErrorWithMetrics` counts the error, unless it only asks for another pass.
unfoldable pub counts_error : Error → Bool
unfolding as_requeue_needed_after as_requeue_needed
counts_error err = not (is_some (as_requeue_needed_after err) || as_requeue_needed err)

join_with : Text → List Text → Text
join_with sep [] = []
join_with sep (s ∷ []) = s
join_with sep (s ∷ t ∷ ss) = s ++ (sep ++ join_with sep (t ∷ ss))

-- `IgnoreErrors`.
unfoldable pub ignore_errors : Option Error → List (Error → Bool) → Option Error
ignore_errors none funcs = none
ignore_errors (some err) funcs = if any (λ f. f err) funcs then none else some err

-- The text of a duration is fmt's.
module _ (show_duration : ℕ → Text) where
  unfoldable pub error_text : Error → Text
  unfolding join_with
  error_text (Error.plain message) = message
  error_text Error.status_error = load_balancer_status_error
  error_text (Error.rate_limit retry_after url method cause) =
      text "vngcloud rate limit exceeded (retry after "
      ++ (show_duration retry_after ++ (text ") on " ++ (method ++ (text " " ++ url))))
  error_text (Error.requeue_needed reason) = text "requeue needed: " ++ reason
  error_text (Error.requeue_needed_after reason duration) =
      text "requeue needed after " ++ (show_duration duration ++ (text ": " ++ reason))
  error_text (Error.reconcile_warning messages) = join_with (text "; ") messages
  error_text (Error.error_with_metrics _ _ err) = error_text err
  error_text (Error.wrap message err) = message ++ (text ": " ++ error_text err)
  error_text (Error.joined separator a b) = error_text a ++ (separator ++ error_text b)

  unfoldable pub is_load_balancer_not_found : Error → Bool
  unfolding error_text
  is_load_balancer_not_found err =
      has_prefix (text "Cannot get load balancer with id") (error_text err)

-- `strings.HasSuffix`: some tail of the text is the suffix.
has_suffix : Text → Text → Bool
has_suffix p [] = p == []
has_suffix p (c ∷ s) = (c ∷ s) == p || has_suffix p s

module _ (show_duration : ℕ → Text) where
  unfoldable pub is_load_balancer_not_ready : Error → Bool
  unfolding error_text has_suffix
  is_load_balancer_not_ready err =
      has_prefix (text "The load balancer id") (error_text show_duration err)
      && has_suffix (text "is not ready") (error_text show_duration err)

-- What the reconciler returns (`ctrl.Result` and the error).
pub record Outcome : Type 0 where
  pub requeue : Bool
  pub requeue_after : ℕ
  pub failed : Option Error

-- The bounds of `RateLimitRequeueAfter`; the jitter is what rand answers below half of it.
unfoldable pub clamp_wait : ℕ → ℕ
clamp_wait d =
    if is_negative d || ltb d (2 * second)
    then 2 * second
    else if ltb (300 * second) d
    then 300 * second
    else d

unfoldable pub rate_limit_requeue_after : (ℕ → ℕ) → ℕ → ℕ
unfolding clamp_wait
rate_limit_requeue_after int63n d = clamp_wait d + int63n (clamp_wait d / 2)

unfoldable pub handle_reconcile_error : (ℕ → ℕ) → Option Error → Outcome
unfolding as_rate_limit rate_limit_requeue_after as_requeue_needed_after as_requeue_needed
handle_reconcile_error int63n none = record { requeue = false; requeue_after = 0; failed = none }
handle_reconcile_error int63n (some err) = elim (as_rate_limit err) [
  | some hint ↦ record {
    requeue = false;
    requeue_after = rate_limit_requeue_after int63n hint;
    failed = none;
  }
  | none ↦ elim (as_requeue_needed_after err) [
    | some duration ↦ record { requeue = false; requeue_after = duration; failed = none }
    | none ↦
        if as_requeue_needed err
        then record { requeue = true; requeue_after = 0; failed = none }
        else record { requeue = false; requeue_after = 0; failed = some err }
  ]
]

-- `strconv.Atoi`, where the number is not negative, `http.ParseTime` followed by `time.Until`,
-- where that is positive, and the reply's headers.
pub record Headers : Type 0 where
  pub rate_limit_reset : Text
  pub retry_after : Text

pub record Parsers : Type 0 where
  pub atoi : Text → Option ℕ
  pub time_until : Text → Option ℕ

-- `time.Duration(secs) * time.Second`, which wraps around.
abbrev pub in_seconds : ℕ → ℕ
in_seconds secs = (secs * second) % 2 ^ 64

parse_date : Parsers → Text → ℕ
parse_date parsers v = elim (parsers.time_until v) [ some d ↦ d | none ↦ 0 ]

-- The header Retry-After: seconds, or a date.
parse_after : Parsers → Text → ℕ
unfolding parse_date
parse_after parsers v = elim (parsers.atoi v) [
  | some secs ↦ in_seconds secs
  | none ↦ parse_date parsers v
]

unfoldable pub parse_retry_after : Parsers → Option Headers → ℕ
unfolding parse_after
parse_retry_after parsers none = 0
parse_retry_after parsers (some h) =
    let later : ℕ = if h.retry_after == [] then 0 else parse_after parsers h.retry_after in
    if h.rate_limit_reset == []
    then later
    else elim (parsers.atoi h.rate_limit_reset) [ some secs ↦ in_seconds secs | none ↦ later ]
