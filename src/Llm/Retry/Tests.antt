-- ===== src/Llm/Retry/Tests.antt =====
-- backend/internal/llm/retry.go on a connection that was reset.
use rongo.Prelude.{◌≡◌, refl, true, false, none, some, arith, inl, inr, ◌↔◌, ◌+◌, ◌≤◌}
use rongo.Llm.Retry.{
  Failure, Context, Meter, Attempt, retriable, retry_has_failed, mark_retry_failed, metered,
  under_budget, attempted,
}
use rongo.Llm.Retry.Turn.{
  Turn, TurnRun, at_once, and_then, judges, repeats, judge, repeat_call, end_call, repeated-bound,
}
use rongo.Llm.Retry.Bounds.{IsFinal, Transient, wire, attempted_twice}

abbrev no_failure : Failure
no_failure = record {
  call_cap = false;
  no_response_headers = false;
  auth = false;
  bad_request = false;
  response_shape = false;
  turn_budget = false;
  deadline_exceeded = false;
  rate_limited = false;
  upstream = false;
  stream_idle = false;
  malformed_response = false;
  net_error = false;
  eof = false;
  unexpected_eof = false;
  retry_after = none;
}

abbrev reset : Failure
reset = record no_failure { net_error = true }

abbrev live : Context
live = record { ended = false; until = some 60000000000 }

abbrev lost : Attempt
lost = record {
  failure = some reset;
  completion = 0;
  delivered = false;
  context = live;
  spent = 10;
  slept = true;
}

abbrev fresh : Meter
fresh = record { spent = 0; retry_failed = false }

still_open : ¬ IsFinal reset
still_open h = ground arith

attempted_twice_example : ((attempted 100 lost lost (some fresh)).attempts ≡ 2) ↔ (
    (lost.delivered ≡ false)
    × (live.ended ≡ false)
    × Transient live (some reset) 0
    × (retry_has_failed (metered lost (some fresh)) ≡ false)
    × (under_budget 100 (metered lost (some fresh)) ≡ true)
    × (lost.slept ≡ true))
attempted_twice_example = attempted_twice 100 lost lost (some fresh)

two_calls : (attempted 100 lost lost (some fresh)).attempts ≡ 2
unfolding metered retry_has_failed under_budget
two_calls =
    attempted_twice_example.1
      (refl, refl, wire still_open refl (inr (inr (inr (inl refl)))), refl, refl, refl)

-- A second call is out, another call has read the meter before, and a third is out for the first time.
abbrev busy : Turn
busy = record { meter = some fresh; asking = 1; cleared = 1; repeating = 1; repeated = 1 }

abbrev after_mark : Turn
unfolding end_call mark_retry_failed
after_mark = end_call false (record busy { repeating = 0 })

-- The one that was cleared goes out again; the third, which comes back with nothing, does not.
abbrev in_the_end : Turn
unfolding end_call mark_retry_failed repeat_call under_budget judge
in_the_end =
    judge lost (record (repeat_call 100 true (record after_mark { cleared = 0 })) { asking = 0 })

one_more : in_the_end.repeated ≡ 2
unfolding end_call mark_retry_failed repeat_call under_budget judge retriable retry_has_failed
one_more = refl

run_on : TurnRun 100 after_mark in_the_end
unfolding end_call mark_retry_failed repeat_call under_budget judge in_the_end
run_on =
    and_then (and_then at_once (repeats after_mark 0 true refl))
      (judges (repeat_call 100 true (record after_mark { cleared = 0 })) 0 lost refl)

repeated-bound_example : in_the_end.repeated ≤ busy.repeated + busy.cleared
unfolding end_call after_mark
repeated-bound_example = repeated-bound 100 0 busy in_the_end fresh refl refl run_on
