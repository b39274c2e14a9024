-- ===== src/Llm/Retry/Turn.antt =====
-- backend/internal/llm/retry.go: the calls of one turn, which run beside one another (backend/internal/ask
-- names candidates with a call each) and share the meter. A turn counts its calls by where they stand in
-- attempted, and each step is what one call does between two reads or writes of the meter.
use rongo.Prelude.{
  ℕ, suc, ◌+◌, ◌≤◌, ◌≡◌, refl, ◌∙◌, inl, inr, Bool, true, false, not, ◌||◌, Option, none, some,
  arith, Bool-cases, if◌then◌else◌,
}
use rongo.Llm.Retry.{Attempt, Meter, retriable, retry_has_failed, under_budget, mark_retry_failed}

pub record Turn : Type 0 where
  pub meter : Option Meter
  -- The first call is out, or back and not yet judged.
  pub asking : ℕ
  -- `RetryFailed` was read, and said no.
  pub cleared : ℕ
  -- The second call is out.
  pub repeating : ℕ
  -- How many second calls have been made.
  pub repeated : ℕ

-- The first part of `worthAnother`, for a call that is back.
unfoldable pub judge : Attempt → Turn → Turn
judge c t =
    if c.delivered || not (retriable c.context c.failure c.completion) || retry_has_failed t.meter
    then t
    else record t { cleared = suc t.cleared }

-- The rest of it: the budget and the wait.
unfoldable pub repeat_call : ℕ → Bool → Turn → Turn
repeat_call ceiling slept t =
    if not (under_budget ceiling t.meter) || not slept
    then t
    else record t { repeating = suc t.repeating; repeated = suc t.repeated }

-- The end of `attempted`, for a second call that is back.
unfoldable pub end_call : Bool → Turn → Turn
end_call delivered t = if delivered then t else record t { meter = mark_retry_failed t.meter }

unfoldable pub spend : ℕ → Option Meter → Option Meter
spend n none = none
spend n (some m) = some (record m { spent = m.spent + n })

pub data TurnStep (ceiling : ℕ) : Turn → Turn → Type 0 where
  asks : (t : Turn) → TurnStep ceiling t (record t { asking = suc t.asking })
  spends : (t : Turn) (n : ℕ) → TurnStep ceiling t (record t { meter = spend n t.meter })
  judges :
      (t : Turn) (n : ℕ) (c : Attempt)
      → t.asking ≡ suc n
      → TurnStep ceiling t (judge c (record t { asking = n }))
  repeats :
      (t : Turn) (n : ℕ) (slept : Bool)
      → t.cleared ≡ suc n
      → TurnStep ceiling t (repeat_call ceiling slept (record t { cleared = n }))
  ends :
      (t : Turn) (n : ℕ) (delivered : Bool)
      → t.repeating ≡ suc n
      → TurnStep ceiling t (end_call delivered (record t { repeating = n }))

pub data TurnRun (ceiling : ℕ) (t : Turn) : Turn → Type 0 where
  at_once : TurnRun ceiling t t
  and_then : {u v : Turn} → TurnRun ceiling t u → TurnStep ceiling u v → TurnRun ceiling t v

-- Since the mark: it stands, and a second call is one that was cleared before.
record IsSettled (most : ℕ) (t : Turn) : Type 0 where
  marked : retry_has_failed t.meter ≡ true
  few : t.repeated + t.cleared ≤ most

judge-IsSettled :
    (most : ℕ) (c : Attempt) (t : Turn) → IsSettled most t → IsSettled most (judge c t)
unfolding judge
judge-IsSettled most c t h =
    let stop : (c.delivered
          || not (retriable c.context c.failure c.completion)
          || retry_has_failed t.meter)
        ≡ true =
      ground (arith, h.marked) in
    rw (judge, stop) h

repeat_call-IsSettled :
    (most ceiling : ℕ) (slept : Bool) (t : Turn)
    → retry_has_failed t.meter ≡ true
    → t.repeated + suc t.cleared ≤ most
    → IsSettled most (repeat_call ceiling slept t)
unfolding repeat_call
repeat_call-IsSettled most ceiling slept t m k =
    elim (Bool-cases (not (under_budget ceiling t.meter) || not slept)) [
      | inl s ↦ rw (repeat_call, s) (record { marked = m; few = omega (arith, k) })
      | inr g ↦ rw (repeat_call, g) (record { marked = m; few = omega (arith, k) })
    ]

spend_marked : (n : ℕ) (m : Option Meter) → retry_has_failed (spend n m) ≡ retry_has_failed m
unfolding spend retry_has_failed
spend_marked n none = refl
spend_marked n (some m) = refl

mark_marked :
    (m : Option Meter) → retry_has_failed m ≡ true → retry_has_failed (mark_retry_failed m) ≡ true
unfolding mark_retry_failed retry_has_failed
mark_marked none h = h
mark_marked (some m) h = refl

end_call-IsSettled :
    (most : ℕ) (delivered : Bool) (t : Turn)
    → IsSettled most t
    → IsSettled most (end_call delivered t)
unfolding end_call
end_call-IsSettled most true t h = h
end_call-IsSettled most false t h = record { marked = mark_marked t.meter h.marked; few = h.few }

step-IsSettled :
    (most ceiling : ℕ) {t u : Turn} → TurnStep ceiling t u → IsSettled most t → IsSettled most u
step-IsSettled most ceiling (asks t) h = record { marked = h.marked; few = h.few }
step-IsSettled most ceiling (spends t n) h = record {
  marked = spend_marked n t.meter ∙ h.marked;
  few = h.few;
}
step-IsSettled most ceiling (judges t n c e) h =
    judge-IsSettled most c (record t { asking = n }) (record { marked = h.marked; few = h.few })
step-IsSettled most ceiling (repeats t n slept e) h =
    repeat_call-IsSettled most ceiling slept (record t { cleared = n }) h.marked
      (let k = h.few in omega (arith, k, e))
step-IsSettled most ceiling (ends t n delivered e) h =
    end_call-IsSettled most delivered (record t { repeating = n })
      (record { marked = h.marked; few = h.few })

run-IsSettled :
    (most ceiling : ℕ) {t u : Turn} → TurnRun ceiling t u → IsSettled most t → IsSettled most u
run-IsSettled most ceiling at_once h = h
run-IsSettled most ceiling (and_then r s) h =
    step-IsSettled most ceiling s (run-IsSettled most ceiling r h)

-- Once a second call of a turn with a meter has come back with nothing, no other call of the turn is made a
-- second time but those that had read the meter before, however the turn's calls run beside one another and
-- whatever calls it still makes: there are at most as many second calls after it as such calls.
pub repeated-bound :
    (ceiling n : ℕ) (t u : Turn) (m : Meter)
    → t.meter ≡ some m
    → t.repeating ≡ suc n
    → TurnRun ceiling (end_call false (record t { repeating = n })) u
    → u.repeated ≤ t.repeated + t.cleared
unfolding end_call mark_retry_failed retry_has_failed
repeated-bound ceiling n t u m e out r =
    let first : IsSettled (t.repeated + t.cleared) (end_call false (record t { repeating = n })) =
      record { marked = rw (e, mark_retry_failed) refl; few = omega arith } in
    let k = (run-IsSettled (t.repeated + t.cleared) ceiling r first).few in omega (arith, k)
