-- ===== src/Auto/Stages.antt =====
-- src/prompt/tradeAuto.js: the stages of a trade, each tried until it succeeds or its retries are
-- used up, and the record of failed Lightning payments.
use swapfloor.Common.{
  ℕ, suc, ◌+◌, ◌-◌, Bool, true, false, not, ◌&&◌, ◌||◌, Option, none, some, List, [], ◌∷◌, ltb, leb,
  if◌then◌else◌,
}
use swapfloor.Js.Text.{Text, text_eq, is_empty}
use swapfloor.Js.Value.{Value}
use swapfloor.Swap.Listings.{trimmed}

-- A `Map` whose keys are texts.
abbrev pub Table : Type 0
Table = Text → Option ℕ

unfoldable pub none_at : Table
none_at k = none

unfoldable pub set : Text → ℕ → Table → Table
set k v m j = if text_eq k j then some v else m j

unfoldable pub delete : Text → Table → Table
delete k m j = if text_eq k j then none else m j

-- `map.get(k) || 0`
abbrev pub or_zero : Option ℕ → ℕ
or_zero none = 0
or_zero (some n) = n

abbrev pub has : Option ℕ → Bool
has none = false
has (some _) = true

-- `_stageDone`, `_stageInFlight` (a `Set`, as the keys with a value), `_stageRetryAfter` and
-- `_stageRetryCount`.
pub record Stages : Type 0 where
  pub done : Table
  pub in_flight : Table
  pub retry_after : Table
  pub retry_count : Table

unfoldable pub no_stages : Stages
no_stages = record {
  done = none_at;
  in_flight = none_at;
  retry_after = none_at;
  retry_count = none_at;
}

unfoldable pub can_run_stage : ℕ → Text → Stages → Bool
can_run_stage now key s =
    not (is_empty key)
    && not (has (s.done key))
    && not (has (s.in_flight key))
    && leb (or_zero (s.retry_after key)) now

unfoldable pub mark_stage_in_flight : Text → Stages → Stages
mark_stage_in_flight key s =
    if is_empty key then s else record s { in_flight = set key 0 s.in_flight }

-- `_markStageSuccess` and `_markStageTerminal`, which differ in what they trace.
unfoldable pub mark_stage_done : ℕ → Text → Stages → Stages
mark_stage_done now key s = if is_empty key then s else record {
  done = set key now s.done;
  in_flight = delete key s.in_flight;
  retry_after = delete key s.retry_after;
  retry_count = delete key s.retry_count;
}

-- `Math.max(250, Math.trunc(cooldownMs || 250))`
abbrev pub cooldown : ℕ → ℕ
cooldown ms = if ltb ms 250 then 250 else ms

unfoldable pub mark_stage_retry : ℕ → ℕ → Text → Stages → Stages
mark_stage_retry now ms key s = if is_empty key then s else record s {
  in_flight = delete key s.in_flight;
  retry_after = set key (now + cooldown ms) s.retry_after;
}

-- The count of the retries, this one included, and the stages with it.
unfoldable pub record_stage_retry : Text → Stages → ℕ × Stages
record_stage_retry key s =
    let next = suc (or_zero (s.retry_count key)) in
    (next, record s { retry_count = set key next s.retry_count })

-- Whether the trade is given up, and the stages after the failure; `max_retries` is the option
-- `stage_retry_max`.
unfoldable pub stage_retry_or_abort : ℕ → ℕ → ℕ → Text → Stages → Bool × Stages
stage_retry_or_abort max_retries now ms key s =
    let (retries, t) = record_stage_retry key s in
    if leb retries max_retries
    then (false, mark_stage_retry now ms key t)
    else (true, mark_stage_done now key t)

-- A row of `_abortedTrades`, without the texts that are kept for the trace.
pub record Aborted : Type 0 where
  pub trade_id : Text
  pub channel : Text
  pub at_ms : ℕ

-- The tools that an abort calls.
pub data Tool : Type 0 where
  swap_cancel_post : (channel trade_id : Text) → Tool
  sc_leave : (channel : Text) → Tool

unfoldable pub was_aborted : Text → List Aborted → Bool
was_aborted id [] = false
was_aborted id (a ∷ as_) = text_eq a.trade_id id || was_aborted id as_

-- The trades given up, and the calls that are made for it; a call that fails is traced only.
unfoldable pub abort_trade : ℕ → Bool → Value → Value → List Aborted → List Aborted × List Tool
abort_trade now can_cancel trade_id channel aborted =
    let id = trimmed trade_id in
    let ch = trimmed channel in
    if is_empty id || is_empty ch || was_aborted id aborted then (aborted, []) else (
      record { trade_id = id; channel = ch; at_ms = now } ∷ aborted,
      (if can_cancel then swap_cancel_post ch id ∷ sc_leave ch ∷ [] else sc_leave ch ∷ []),
    )

-- What is known of the failed payments of a trade.
pub record PayFailures : Type 0 where
  pub channel : Text
  pub failures : ℕ
  pub first_fail_at : ℕ
  pub last_fail_at : ℕ
  pub aborted_at : ℕ

-- The record of this channel, or a new one.
unfoldable pub pay_failures_of : ℕ → Text → Option PayFailures → PayFailures
pay_failures_of now channel none = record {
  channel = channel;
  failures = 0;
  first_fail_at = now;
  last_fail_at = 0;
  aborted_at = 0;
}
pay_failures_of now channel (some p) = if text_eq p.channel channel then p else record {
  channel = channel;
  failures = 0;
  first_fail_at = now;
  last_fail_at = 0;
  aborted_at = 0;
}

-- `Math.max(low, option || default)`
abbrev pub at_least : ℕ → ℕ → ℕ → ℕ
at_least low default option =
    let v = if ltb 0 option then option else default in if ltb v low then low else v

-- One more failure.
one_more : ℕ → PayFailures → PayFailures
one_more now p = record p {
  failures = suc p.failures;
  last_fail_at = now;
  first_fail_at = if ltb 0 p.first_fail_at then p.first_fail_at else now;
}

-- `forceAbort`: as if there had been enough failures for long enough; `now` is later than the wait.
forced : Bool → ℕ → ℕ → ℕ → PayFailures → PayFailures
forced false threshold wait now p = p
forced true threshold wait now p = record p {
  failures = if ltb p.failures threshold then threshold else p.failures;
  first_fail_at = if ltb now (p.first_fail_at + wait) then now - wait else p.first_fail_at;
}

-- `now - Number(state.firstFailAt || now)`, at least 0.
unfoldable pub elapsed : ℕ → PayFailures → ℕ
elapsed now p = if ltb 0 p.first_fail_at then now - p.first_fail_at else 0

with_abort : Bool → ℕ → PayFailures → PayFailures
with_abort true now p = record p { aborted_at = if ltb 0 p.aborted_at then p.aborted_at else now }
with_abort false now p = p

-- The options are `ln_pay_fail_leave_attempts` and `ln_pay_fail_leave_min_wait_ms`; the answer says
-- whether to give the trade up.
unfoldable pub record_ln_pay_failure :
    ℕ → ℕ → ℕ → Bool → Text → Option PayFailures → Bool × PayFailures
unfolding one_more forced with_abort
record_ln_pay_failure attempts_option wait_option now force channel prev =
    let threshold = at_least 2 3 attempts_option in
    let wait = at_least 1000 20000 wait_option in
    let p = forced force threshold wait now (one_more now (pay_failures_of now channel prev)) in
    let should_abort = leb threshold p.failures && leb wait (elapsed now p) in
    (should_abort, with_abort should_abort now p)
