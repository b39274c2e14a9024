-- ===== src/Llm/Retry/Bounds.antt =====
-- backend/internal/llm/retry.go: which failures are transient, and when a call is made again.
use rongo.Prelude.{
  ℕ, zero, suc, ◌≤◌, ◌<◌, ◌≡◌, refl, sym, ◌⊎◌, inl, inr, Bool, true, false, not, ◌||◌, Option, none,
  some, ltb, Bool-cases, arith, if◌then◌else◌, ◌↔◌,
}
use mathlib.Core.Bool.{true≢false}
use rongo.Llm.Retry.{
  Failure, Context, Meter, Attempt, retry_after_cap, retry_wait, retriable, refused, fits_until,
  under_budget, retry_has_failed, metered, worth_another, attempted,
}

-- The failures that a second call cannot mend.
abbrev pub IsFinal : Failure → Type 0
IsFinal f =
    (f.call_cap ≡ true)
    ⊎ (f.no_response_headers ≡ true)
    ⊎ (f.auth ≡ true)
    ⊎ (f.bad_request ≡ true)
    ⊎ (f.response_shape ≡ true)
    ⊎ (f.turn_budget ≡ true)

-- The failures of the upstream and of the wire.
abbrev pub IsWire : Failure → Type 0
IsWire f =
    (f.upstream ≡ true)
    ⊎ (f.stream_idle ≡ true)
    ⊎ (f.malformed_response ≡ true)
    ⊎ (f.net_error ≡ true)
    ⊎ (f.eof ≡ true)
    ⊎ (f.unexpected_eof ≡ true)

-- The wait ends before the caller's deadline, should there be one.
abbrev pub IsBefore : Option ℕ → ℕ → Type 0
IsBefore until wait = (left : ℕ) → until ≡ some left → wait < left

-- How a call that delivered nothing can have ended for another one to make sense: cleanly, with no
-- token written; at the end of its own window; at a rate limit that asks for a short wait; or on the
-- wire.
pub data Transient (ctx : Context) : Option Failure → ℕ → Type 0 where
  empty : Transient ctx none 0
  window :
      {f : Failure} {n : ℕ} → ¬ IsFinal f → f.deadline_exceeded ≡ true → Transient ctx (some f) n
  limited :
      {f : Failure} {n : ℕ}
      → ¬ IsFinal f
      → f.rate_limited ≡ true
      → retry_wait (some f) ≤ retry_after_cap
      → IsBefore ctx.until (retry_wait (some f))
      → Transient ctx (some f) n
  wire :
      {f : Failure} {n : ℕ}
      → ¬ IsFinal f
      → f.rate_limited ≡ false
      → IsWire f
      → Transient ctx (some f) n

refused-IsFinal : (f : Failure) → refused f ≡ false → ¬ IsFinal f
unfolding refused
refused-IsFinal f e h = ground arith

not_true : (b : Bool) → ¬ (b ≡ true) → b ≡ false
not_true true h = absurd (h refl)
not_true false h = refl

refused_open : (f : Failure) → ¬ IsFinal f → refused f ≡ false
unfolding refused
refused_open f h =
    let a = not_true f.call_cap (λ e. h (inl e)) in
    let b = not_true f.no_response_headers (λ e. h (inr (inl e))) in
    let c = not_true f.auth (λ e. h (inr (inr (inl e)))) in
    let d = not_true f.bad_request (λ e. h (inr (inr (inr (inl e))))) in
    let g = not_true f.response_shape (λ e. h (inr (inr (inr (inr (inl e)))))) in
    let i = not_true f.turn_budget (λ e. h (inr (inr (inr (inr (inr e)))))) in
    rw (a, b, c, d, g, i) refl

fits_until-IsBefore :
    (until : Option ℕ) (wait : ℕ) → fits_until until wait ≡ true → IsBefore until wait
unfolding fits_until
fits_until-IsBefore none wait h left e = ground arith
fits_until-IsBefore (some l) wait h left e = ground arith

fits_until_before :
    (until : Option ℕ) (wait : ℕ) → IsBefore until wait → fits_until until wait ≡ true
unfolding fits_until
fits_until_before none wait h = refl
fits_until_before (some l) wait h = let b = h l refl in ground arith

upstream_or_IsWire :
    (f : Failure)
    → (if f.upstream || f.stream_idle || f.malformed_response
        then true
        else f.net_error || f.eof || f.unexpected_eof)
      ≡ true
    → IsWire f
upstream_or_IsWire f h = ground arith

wire_upstream :
    (f : Failure)
    → IsWire f
    → (if f.upstream || f.stream_idle || f.malformed_response
        then true
        else f.net_error || f.eof || f.unexpected_eof)
      ≡ true
wire_upstream f h = ground arith

module _ (ctx : Context) where
  limited_short :
      (f : Failure)
      → (if ltb retry_after_cap (retry_wait (some f))
          then false
          else fits_until ctx.until (retry_wait (some f)))
        ≡ true
      → (retry_wait (some f) ≤ retry_after_cap)
        × (fits_until ctx.until (retry_wait (some f)) ≡ true)
  limited_short f h = ground arith

  short_limited :
      (f : Failure)
      → retry_wait (some f) ≤ retry_after_cap
      → fits_until ctx.until (retry_wait (some f)) ≡ true
      → (if ltb retry_after_cap (retry_wait (some f))
          then false
          else fits_until ctx.until (retry_wait (some f)))
        ≡ true
  short_limited f c h = ground arith

  retriable-Transient :
      (e : Option Failure) (n : ℕ)
      → retriable ctx e n ≡ true
      → (ctx.ended ≡ false) × Transient ctx e n
  unfolding retriable
  retriable-Transient none zero h = elim (Bool-cases ctx.ended) [
    | inl t ↦ absurd (true≢false (sym (rw (retriable, t) at h)))
    | inr t ↦ (t, empty)
  ]
  retriable-Transient none (suc n) h = ground arith
  retriable-Transient (some f) n h = elim (Bool-cases (ctx.ended || refused f)) [
    | inl t ↦ absurd (true≢false (sym (rw (retriable, t) at h)))
    | inr t ↦
        let live : ctx.ended ≡ false = ground (arith, t) in
        let lasting = refused-IsFinal f (ground (arith, t)) in
        elim (Bool-cases f.deadline_exceeded) [
          | inl d ↦ (live, window lasting d)
          | inr d ↦ elim (Bool-cases f.rate_limited) [
            | inl r ↦
                let (short, fits) = limited_short f (rw (retriable, t, d, r) at h) in
                (
                  live,
                  limited lasting r short
                      (fits_until-IsBefore ctx.until (retry_wait (some f)) fits),
                )
            | inr r ↦ (live, wire lasting r (upstream_or_IsWire f (rw (retriable, t, d, r) at h)))
          ]
        ]
  ]

  not_ended_or : (f : Failure) → ctx.ended ≡ false → ¬ IsFinal f → (ctx.ended || refused f) ≡ false
  not_ended_or f l o = rw (l, refused_open f o) refl

  Transient_retriable :
      (e : Option Failure) (n : ℕ)
      → ctx.ended ≡ false
      → Transient ctx e n
      → retriable ctx e n ≡ true
  unfolding retriable
  Transient_retriable none n live empty = rw (retriable, live) refl
  Transient_retriable (some f) n live (window lasting d) =
      rw (retriable, not_ended_or f live lasting, d) refl
  Transient_retriable (some f) n live (limited lasting r short before) =
      elim (Bool-cases f.deadline_exceeded) [
        | inl d ↦ rw (retriable, not_ended_or f live lasting, d) refl
        | inr d ↦
            rw (retriable, not_ended_or f live lasting, d, r)
              (short_limited f short (fits_until_before ctx.until (retry_wait (some f)) before))
      ]
  Transient_retriable (some f) n live (wire lasting r w) = elim (Bool-cases f.deadline_exceeded) [
    | inl d ↦ rw (retriable, not_ended_or f live lasting, d) refl
    | inr d ↦ rw (retriable, not_ended_or f live lasting, d, r) (wire_upstream f w)
  ]

-- What has to hold for the call to be made again.
record Again (ceiling : ℕ) (first : Attempt) (m : Option Meter) : Type 0 where
  undelivered : first.delivered ≡ false
  live : first.context.ended ≡ false
  transient : Transient first.context first.failure first.completion
  no_failed_retry : retry_has_failed (metered first m) ≡ false
  affordable : under_budget ceiling (metered first m) ≡ true
  slept : first.slept ≡ true

module _ (ceiling : ℕ) (first second : Attempt) (m : Option Meter) where
  asked_again :
      worth_another ceiling first (metered first m) ≡ true
      → (retriable first.context first.failure first.completion ≡ true)
        × (retry_has_failed (metered first m) ≡ false)
        × (under_budget ceiling (metered first m) ≡ true)
        × (first.slept ≡ true)
  unfolding worth_another
  asked_again h = ground arith

  worth_asking :
      retriable first.context first.failure first.completion ≡ true
      → retry_has_failed (metered first m) ≡ false
      → under_budget ceiling (metered first m) ≡ true
      → first.slept ≡ true
      → worth_another ceiling first (metered first m) ≡ true
  unfolding worth_another
  worth_asking r f u s = rw (worth_another, r, f, u, s) refl

  twice_undelivered :
      (attempted ceiling first second m).attempts ≡ 2
      → (first.delivered ≡ false) × (worth_another ceiling first (metered first m) ≡ true)
  unfolding attempted
  twice_undelivered h =
      elim (Bool-cases (first.delivered || not (worth_another ceiling first (metered first m)))) [
        | inl stop ↦
            let one : (attempted ceiling first second m).attempts ≡ 1 = rw (attempted, stop) refl in
            absurd (omega (arith, h, one))
        | inr go ↦ ground (arith, go)
      ]

  -- The model is called a second time exactly if the first call delivered nothing, the context is
  -- live, the call ended cleanly with no token written or with a transient failure (none of the final
  -- ones, and the end of its own window, a rate limit whose wait is at most ten seconds and ends
  -- before a deadline, or a failure of the upstream or of the wire), no retry of the turn had failed
  -- when it returned, the turn was still under its budget with what the first call cost, and the wait
  -- was slept to its end.
  pub attempted_twice : ((attempted ceiling first second m).attempts ≡ 2) ↔ (
      (first.delivered ≡ false)
      × (first.context.ended ≡ false)
      × Transient first.context first.failure first.completion
      × (retry_has_failed (metered first m) ≡ false)
      × (under_budget ceiling (metered first m) ≡ true)
      × (first.slept ≡ true))
  unfolding attempted
  attempted_twice = (
    λ h.
        let (undelivered, go) = twice_undelivered h in
        let (again, fresh, under, slept) = asked_again go in
        let (live, why) = retriable-Transient first.context first.failure first.completion again in
        (undelivered, live, why, fresh, under, slept),
    λ (undelivered, live, why, fresh, under, slept).
        let again = Transient_retriable first.context first.failure first.completion live why in
        rw (attempted, undelivered, worth_asking again fresh under slept) refl,
  )
