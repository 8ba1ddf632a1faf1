-- ===== src/Auto/Intake.antt =====
-- src/prompt/tradeAuto.js: the intake of events, the limits of the sets and maps, and the errors after
-- which a negotiation is over.
pub mod Keys
pub mod Once
mod Tests
use swapfloor.Common.{
  ℕ, zero, suc, ◌+◌, ◌-◌, Bool, true, false, not, ◌&&◌, ◌||◌, List, [], ◌∷◌, ◌++◌, length, ltb, leb,
  if◌then◌else◌,
}
use swapfloor.Js.Text.{Text, codes, text_eq, trim, to_lower_case, is_empty, has_part}
use swapfloor.Js.Value.{Value}
use swapfloor.Swap.Listings.{trimmed}
use swapfloor.Auto.Events.{event_dedup_key}

-- `_events` and `_eventSeenAt`, a map in the order of its keys.
pub record Intake : Type 0 where
  pub events : List Value
  pub seen : List (Text × ℕ)

-- `Number(this._eventSeenAt.get(key) || 0)`
unfoldable pub seen_at : Text → List (Text × ℕ) → ℕ
seen_at k [] = 0
seen_at k ((j, t) ∷ seen) = if text_eq j k then t else seen_at k seen

-- A key that is set again keeps its place.
unfoldable pub set_seen : Text → ℕ → List (Text × ℕ) → List (Text × ℕ)
set_seen k n [] = (k, n) ∷ []
set_seen k n ((j, t) ∷ seen) =
    let later = (j, t) ∷ set_seen k n seen in if text_eq j k then (j, n) ∷ seen else later

-- `seenAt > 0 && now - seenAt <= this._doneMaxAgeMs`
unfoldable pub is_known : ℕ → ℕ → Text → List (Text × ℕ) → Bool
is_known max_age now k seen = ltb 0 (seen_at k seen) && leb now (seen_at k seen + max_age)

unfoldable pub take_event : ℕ → ℕ → Value → Intake → Intake
take_event max_age now e s =
    let key = event_dedup_key e in
    if is_empty key
    then record s { events = s.events ++ e ∷ [] }
    else if is_known max_age now key s.seen
    then s
    else record { events = s.events ++ e ∷ []; seen = set_seen key now s.seen }

unfoldable pub take_events : ℕ → ℕ → List Value → Intake → Intake
take_events max_age now [] s = s
take_events max_age now (e ∷ es) s = take_events max_age now es (take_event max_age now e s)

-- The first elements go until no more are left than the limit.
unfoldable pub keep_last {ℓ} : {A : Type ℓ} → ℕ → List A → List A
keep_last n [] = []
keep_last n (x ∷ xs) = let rest = keep_last n xs in if ltb n (length (x ∷ xs)) then rest else x ∷ xs

-- `_appendEvents`
unfoldable pub append_events : ℕ → ℕ → ℕ → List Value → Intake → Intake
append_events events_max max_age now es s =
    let after = take_events max_age now es s in
    record after { events = keep_last events_max after.events }

-- `pruneSetByLimit` and `pruneMapByLimit`: the limit is 1 at least.
unfoldable pub prune_by_limit {ℓ} : {A : Type ℓ} → ℕ → List A → List A
prune_by_limit zero xs = keep_last 1 xs
prune_by_limit (suc n) xs = keep_last (suc n) xs

unfoldable pub is_permanent_negotiation_error : Value → Bool
is_permanent_negotiation_error raw =
    let s = to_lower_case (trimmed raw) in
    has_part (codes " expired") s
    || has_part (codes "terminal") s
    || has_part (codes "already joined") s
    || has_part (codes "already accepted") s
    || has_part (codes "already active") s
    || has_part (codes "already in progress") s
    || has_part (codes "already open") s
    || has_part (codes "swap_invite_exists") s
    || has_part (codes "listing_in_progress") s
    || has_part (codes "listing_filled") s
    || has_part (codes "quote_accept already exists") s
    || has_part (codes "on-chain platform fee exceeds rfq max_platform_fee_bps") s
    || has_part (codes "on-chain trade fee exceeds rfq max_trade_fee_bps") s
    || has_part (codes "on-chain total fee exceeds rfq max_total_fee_bps") s
