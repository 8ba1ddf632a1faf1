-- ===== src/Autopost.antt =====
-- src/prompt/autopost.js: the jobs that post an offer or an RFQ again until it expires. The tools
-- and the store are arguments: what they answer.
pub mod Lines
pub mod Jobs
mod Tests
use swapfloor.Common.{
  ℕ, zero, suc, ◌+◌, ◌-◌, ◌*◌, String, Bool, true, false, not, ◌&&◌, ◌||◌, Option, none, some, List,
  [], ◌∷◌, ◌++◌, length, all, ltb, leb, ◌==◌, if◌then◌else◌, Result, ok, err, thrown, ◌>>=◌, guard,
}
use swapfloor.Js.Text.{has_part, Text, codes, text_eq, trim, to_lower_case, is_empty, is_digit}
use swapfloor.Js.Value.{
  Number, nat, negsuc, nan, Value, undefined, num, str, arr, obj, Items, nil, cons, Fields, end,
  field, get, lookup, is_object, is_present, is_reference, to_text, strict_eq, number_eq, number_lt,
}
use swapfloor.Js.Convert.{to_number, normalize_hex}
use swapfloor.Js.Reply.{Reply, answer, failure}
use swapfloor.Swap.Envelope.{put, without}
use swapfloor.Swap.Listings.{trimmed}

unfoldable pub has_index : ℕ → List ℕ → Bool
has_index n [] = false
has_index n (m ∷ ms) = m == n || has_index n ms

-- `while (seen.has(idx)) idx += 1`; as many rounds as there are indices are enough.
unfoldable pub next_free : ℕ → List ℕ → ℕ → ℕ
next_free zero seen idx = idx
next_free (suc fuel) seen idx =
    let later = next_free fuel seen (suc idx) in if has_index idx seen then later else idx

-- The index that a line states, where it is a whole number from 0 on, and else its place.
stated_index : ℕ → Number → ℕ
stated_index place (nat n) = n
stated_index place _ = place

unfoldable pub index_of : ℕ → List ℕ → Fields → ℕ
unfolding stated_index
index_of place seen line =
    let idx = stated_index place (to_number (lookup "line_index" line)) in
    if has_index idx seen then next_free (length seen) seen place else idx

-- `if (o.line_index !== idx) o.line_index = idx`
unfoldable pub with_index : ℕ → Fields → Fields
with_index idx line =
    if strict_eq (lookup "line_index" line) (num (nat idx))
    then line
    else put "line_index" (num (nat idx)) line

-- Every line that is an object gets an index of its own.
unfoldable pub assign_indices : ℕ → List ℕ → Items → Items
assign_indices place seen nil = nil
assign_indices place seen (cons (obj line) lines) =
    let idx = index_of place seen line in
    cons (obj (with_index idx line)) (assign_indices (suc place) (idx ∷ seen) lines)
assign_indices place seen (cons v lines) = cons v (assign_indices (suc place) seen lines)

unfoldable pub items_of : Value → Items
items_of (arr vs) = vs
items_of _ = nil

-- `${btcSats}:${usdtAmount}` of a line or a trade.
unfoldable pub amounts_key : Value → Text
amounts_key v = to_text (num (to_number (get v "btc_sats"))) ++ b':' ∷ trimmed (get v "usdt_amount")

is_positive : Number → Bool
is_positive n = number_lt (nat 0) n

-- `typeof v === 'number' && 0 < v && v < startMs`, where there is a start.
is_older : ℕ → Value → Bool
is_older start_ms (num n) = ltb 0 start_ms && is_positive n && number_lt n (nat start_ms)
is_older start_ms _ = false

-- A trade of this maker that was claimed since the job was started.
unfoldable pub is_filled : ℕ → Text → Value → Bool
unfolding is_positive is_older
is_filled start_ms signer tr =
    is_object tr
    && text_eq (trimmed (get tr "state")) (codes "claimed")
    && not (is_empty (normalize_hex (get tr "maker_peer")))
    && text_eq (normalize_hex (get tr "maker_peer")) signer
    && not (is_older start_ms (get tr "updated_at"))
    && is_positive (to_number (get tr "btc_sats"))
    && not (is_empty (trimmed (get tr "usdt_amount")))
    && all is_digit (trimmed (get tr "usdt_amount"))

-- `removeCounts` as the list of the keys, each as often as it counts.
unfoldable pub filled_keys : ℕ → Text → Items → List Text
filled_keys start_ms signer nil = []
filled_keys start_ms signer (cons tr trs) =
    let rest = filled_keys start_ms signer trs in
    if is_filled start_ms signer tr then amounts_key tr ∷ rest else rest

counts : Text → List Text → Bool
counts k [] = false
counts k (j ∷ js) = text_eq j k || counts k js

less_one : Text → List Text → List Text
less_one k [] = []
less_one k (j ∷ js) = let later = j ∷ less_one k js in if text_eq j k then js else later

-- The lines that are left: a line goes for each filled trade of its amounts.
unfoldable pub unfilled : List Text → Items → Items
unfolding counts less_one
unfilled filled nil = nil
unfilled filled (cons o os) =
    let skip = unfilled filled os in
    let gone = unfilled (less_one (amounts_key o) filled) os in
    if not (is_object o) then skip else if counts (amounts_key o) filled then gone else cons o skip

-- The lines are looked through only where some trade was filled.
unfoldable pub prune_offers : List Text → Items → Items
prune_offers [] os = os
prune_offers (k ∷ ks) os = unfilled (k ∷ ks) os

-- `clampInt`
unfoldable pub clamp_int : ℕ → Option ℕ → Value → Result ℕ
clamp_int low high (num (nat n)) =
    if ltb n low
    then err (thrown "must be >= min")
    else if above n high
    then err (thrown "must be <= max")
    else ok n
  where
    above : ℕ → Option ℕ → Bool
    above n none = false
    above n (some h) = ltb h n
clamp_int low high (num (negsuc n)) = err (thrown "must be >= min")
clamp_int low high _ = err (thrown "must be an integer")

-- The time at which a job ends: stated, or after the time to live.
expiry : ℕ → ℕ → Value → Result ℕ
unfolding clamp_int
expiry now_sec ttl v = if is_present v then clamp_int 1 none v else ok (now_sec + ttl)

-- The horizon is ten seconds to a week.
unfoldable pub checked_expiry : ℕ → ℕ → Value → Result ℕ
unfolding expiry
checked_expiry now_sec ttl v = do
  t ← expiry now_sec ttl v
  if leb t now_sec
      then err (thrown "autopost_start: valid_until_unix must be in the future")
      else if ltb (t - now_sec) 10
      then err (thrown "autopost_start: validity horizon too short")
      else if ltb 604800 (t - now_sec)
      then err (thrown "autopost_start: validity horizon too long (max 7 days)")
      else ok t

-- What stands in a call of the tool: never more than the validity of the job.
unfoldable pub run_args : Bool → ℕ → Fields → Fields
run_args is_offer valid_until args =
    put "valid_until_unix" (num (nat valid_until))
      (if is_offer then without "ttl_sec" args else args)

unfoldable pub should_stop_for_insufficient_funds_error : Text → Bool
should_stop_for_insufficient_funds_error msg =
    let s = to_lower_case msg in
    has_part (codes "insufficient ln") s
    || has_part (codes "insufficient lightning") s
    || has_part (codes "insufficient usdt") s
    || has_part (codes "insufficient sol") s
    || has_part (codes "insufficient funds") s
    || has_part (codes "no active lightning channels") s
