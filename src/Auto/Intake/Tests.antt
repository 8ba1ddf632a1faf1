-- ===== src/Auto/Intake/Tests.antt =====
-- src/prompt/tradeAuto.js: tests of the intake of events.
use swapfloor.Common.{ℕ, true, ◌≤◌, ◌≡◌, refl, arith, List, [], ◌∷◌}
use swapfloor.Js.Text.{Text, codes, has_part, starts_with, text_eq, trim, to_lower_case}
use swapfloor.Js.Value.{Value, str, nat, num, str, obj, end, field, get, to_text}
use swapfloor.Js.Convert.{normalize_hex}
use swapfloor.Swap.Listings.{trimmed}
use swapfloor.Auto.Events.{event_dedup_key, envelope_sig}
use swapfloor.Auto.Intake.{
  Intake, append_events, take_events, take_event, is_known, seen_at, set_seen, keep_last,
  prune_by_limit, is_permanent_negotiation_error,
}
use swapfloor.Auto.Intake.Keys.{count}
use swapfloor.Auto.Intake.Once.{append_all, append_all-count}

abbrev event : ℕ → Value
event seq = obj (field "seq" (num (nat seq)) end)

abbrev key : Text
key = codes "seq:7"

abbrev empty : Intake
empty = record { events = []; seen = [] }

abbrev batches : List (ℕ × List Value)
batches = (1000, event 7 ∷ event 8 ∷ event 7 ∷ []) ∷ (1400, event 7 ∷ event 9 ∷ []) ∷ []

append_all-count_example : count key (append_all 3 500 batches empty).events ≤ 1
unfolding count
append_all-count_example =
    append_all-count key 3 1000 500 batches empty refl (omega arith)
      (omega arith, omega arith, (omega arith, omega arith, tt)) refl

taken : (append_all 3 500 batches empty).events ≡ event 7 ∷ event 8 ∷ event 9 ∷ []
unfolding append_all append_events take_events take_event is_known seen_at set_seen keep_last
    event_dedup_key envelope_sig normalize_hex to_lower_case trim get text_eq
taken = refl

oldest_gone : prune_by_limit {A = ℕ} 0 (1 ∷ 2 ∷ 3 ∷ []) ≡ 3 ∷ []
unfolding prune_by_limit keep_last
oldest_gone = refl

for_good : is_permanent_negotiation_error (str (codes "RFQ Expired")) ≡ true
unfolding is_permanent_negotiation_error trimmed trim to_text to_lower_case has_part starts_with
for_good = refl
