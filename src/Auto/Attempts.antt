-- ===== src/Auto/Attempts.antt =====
-- How often a stage is tried.
use swapfloor.Common.{
  ℕ, suc, ◌+◌, ◌-◌, ◌≤◌, ◌≡◌, Bool, false, ◌&&◌, List, [], ◌∷◌, leb, if◌then◌else◌,
}
use swapfloor.Js.Text.{Text, text_eq}
use swapfloor.Auto.Stages.{
  set, or_zero, has, Stages, can_run_stage, mark_stage_in_flight, mark_stage_done, mark_stage_retry,
  stage_retry_or_abort,
}

-- What happens to stages: one is started where it can run, and it fails or succeeds once it is in
-- flight.
pub data Act : Type 0 where
  start succeed : (now : ℕ) (key : Text) → Act
  fail : (now ms : ℕ) (key : Text) → Act

unfoldable pub act : ℕ → Act → Stages → Stages
act max_retries (start now key) s =
    if can_run_stage now key s then mark_stage_in_flight key s else s
act max_retries (succeed now key) s = if has (s.in_flight key) then mark_stage_done now key s else s
act max_retries (fail now ms key) s =
    if has (s.in_flight key) then (stage_retry_or_abort max_retries now ms key s).1 else s

key_of : Act → Text
key_of (start now key) = key
key_of (succeed now key) = key
key_of (fail now ms key) = key

-- Whether the stage of a key is started.
unfoldable pub starts : Text → Act → Stages → ℕ
starts k (start now key) s = if text_eq key k && can_run_stage now key s then 1 else 0
starts k _ s = 0

unfoldable pub attempts : ℕ → Text → List Act → Stages → ℕ
attempts max_retries k [] s = 0
attempts max_retries k (a ∷ acts) s =
    starts k a s + attempts max_retries k acts (act max_retries a s)

-- A failure of a stage in flight: it is idle again with one more retry, or done.
failed : ℕ → Text → ℕ → ℕ → Stages → Stages
failed max_retries j now ms s =
    let t = record s { retry_count = set j (suc (or_zero (s.retry_count j))) s.retry_count } in
    if leb (suc (or_zero (s.retry_count j))) max_retries
    then mark_stage_retry now ms j t
    else mark_stage_done now j t

module _ (max_retries : ℕ) (k : Text) where
  -- How often the stage may still be started.
  left : Bool → Bool → ℕ → ℕ
  left done in_flight count =
      if done then 0 else suc max_retries - (count + (if in_flight then 1 else 0))

  budget : Stages → ℕ
  unfolding left
  budget s = left (has (s.done k)) (has (s.in_flight k)) (or_zero (s.retry_count k))

  -- Unless it is done, its retries are not used up.
  IsWithin : Stages → Type 0
  IsWithin s = has (s.done k) ≡ false → or_zero (s.retry_count k) ≤ max_retries

  Spends : Act → Stages → Type 0
  Spends a s =
      (starts k a s + budget (act max_retries a s) ≤ budget s) × IsWithin (act max_retries a s)
