-- ===== src/Llm/Retry.antt =====
-- backend/internal/llm/retry.go: when a call of the model is made a second time. Times are in
-- nanoseconds. A wait is retry_wait and a random part; `slept` says whether it ended before the context.
pub mod Bounds
pub mod Turn
mod Tests
use rongo.Prelude.{
  ℕ, zero, suc, ◌+◌, Bool, true, false, not, ◌&&◌, ◌||◌, Option, none, some, ltb, leb, ◌==◌,
  if◌then◌else◌,
}

abbrev pub retry_after_cap : ℕ
retry_after_cap = 10000000000

abbrev pub retry_pause : ℕ
retry_pause = 250000000

-- An error, by what `errors.Is` and `errors.As` say of it.
pub record Failure : Type 0 where
  pub call_cap : Bool
  pub no_response_headers : Bool
  pub auth : Bool
  pub bad_request : Bool
  pub response_shape : Bool
  pub turn_budget : Bool
  pub deadline_exceeded : Bool
  pub rate_limited : Bool
  pub upstream : Bool
  pub stream_idle : Bool
  pub malformed_response : Bool
  pub net_error : Bool
  pub eof : Bool
  pub unexpected_eof : Bool
  -- `RateLimitError.RetryAfter`
  pub retry_after : Option ℕ

-- The caller's context: whether it has ended, and the time until its deadline.
pub record Context : Type 0 where
  pub ended : Bool
  pub until : Option ℕ

unfoldable pub usable_wait : Option ℕ → ℕ
usable_wait none = retry_pause
usable_wait (some after) = if ltb retry_pause after then after else retry_pause

-- `retryWait`; the error may be nil.
unfoldable pub retry_wait : Option Failure → ℕ
unfolding usable_wait
retry_wait none = retry_pause
retry_wait (some f) = usable_wait f.retry_after

unfoldable pub fits_until : Option ℕ → ℕ → Bool
fits_until none wait = true
fits_until (some left) wait = not (leb left wait)

-- The failures that are refused, whatever else they are.
unfoldable pub refused : Failure → Bool
refused f =
    f.call_cap || f.no_response_headers || f.auth || f.bad_request || f.response_shape
    || f.turn_budget

-- `retriable`
unfoldable pub retriable : Context → Option Failure → ℕ → Bool
unfolding retry_wait fits_until refused
retriable ctx none completion = if ctx.ended then false else completion == 0
retriable ctx (some f) completion =
    if ctx.ended || refused f
    then false
    else if f.deadline_exceeded
    then true
    else if f.rate_limited
    then (let wait = retry_wait (some f) in
        if ltb retry_after_cap wait then false else fits_until ctx.until wait)
    else if f.upstream || f.stream_idle || f.malformed_response
    then true
    else f.net_error || f.eof || f.unexpected_eof

-- `Meter`, by what the retry reads of it: the tokens that the turn has spent, and `retryFailed`.
pub record Meter : Type 0 where
  pub spent : ℕ
  pub retry_failed : Bool

-- What one call returns, and the caller's context and the turn's tokens when it has returned.
pub record Attempt : Type 0 where
  pub failure : Option Failure
  pub completion : ℕ
  pub delivered : Bool
  pub context : Context
  pub spent : ℕ
  -- Whether the wait that follows it ends before the context does.
  pub slept : Bool

-- `underBudget`, true for no error; 0 is no ceiling.
unfoldable pub under_budget : ℕ → Option Meter → Bool
under_budget ceiling none = true
under_budget ceiling (some m) = (ceiling == 0) || ltb m.spent ceiling

unfoldable pub retry_has_failed : Option Meter → Bool
retry_has_failed none = false
retry_has_failed (some m) = m.retry_failed

-- The call that is made adds what it spent to the meter.
unfoldable pub metered : Attempt → Option Meter → Option Meter
metered c none = none
metered c (some m) = some (record m { spent = m.spent + c.spent })

unfoldable pub mark_retry_failed : Option Meter → Option Meter
mark_retry_failed none = none
mark_retry_failed (some m) = some (record m { retry_failed = true })

-- `worthAnother`
unfoldable pub worth_another : ℕ → Attempt → Option Meter → Bool
unfolding retriable under_budget retry_has_failed
worth_another ceiling c m =
    if not (retriable c.context c.failure c.completion)
    then false
    else if retry_has_failed m
    then false
    else if not (under_budget ceiling m)
    then false
    else c.slept

-- What `attempted` returns, with the meter after it: the attempt that counts and their number.
pub record Attempted : Type 0 where
  pub last : Attempt
  pub attempts : ℕ
  pub meter : Option Meter

-- `attempted`, where the calls would return `first` and `second`.
unfoldable pub attempted : ℕ → (first second : Attempt) → Option Meter → Attempted
unfolding worth_another metered mark_retry_failed
attempted ceiling first second m =
    let m1 = metered first m in
    if first.delivered || not (worth_another ceiling first m1)
    then record { last = first; attempts = 1; meter = m1 }
    else (let m2 = metered second m1 in
        record {
          last = second;
          attempts = 2;
          meter = (if second.delivered then m2 else mark_retry_failed m2);
        })
