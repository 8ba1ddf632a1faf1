-- ===== src/Auto/Offers.antt =====
-- src/prompt/tradeAuto.js: `matchOfferForRfq` looks through the maker's own offers for a line that
-- an RFQ can be answered from.
use swapfloor.Common.{
  ℕ, suc, Bool, true, false, not, ◌&&◌, ◌||◌, Option, none, some, List, [], ◌∷◌, length, all, ltb,
  leb, ◌==◌, if◌then◌else◌,
}
use swapfloor.Js.Text.{Text, text_eq, is_digit, is_empty, is_hex_digit, to_lower_case, trim}
use swapfloor.Js.Value.{
  Number, nat, negsuc, nan, Value, arr, Items, nil, cons, get, is_object, is_reference, number_lt,
  number_eq,
}
use swapfloor.Swap.Envelope.{Crypto, strip_signature, hash_unsigned_envelope}
use swapfloor.Swap.Listings.{trimmed}
use swapfloor.Auto.Events.{to_int_or_null}

-- `Math.max(low, Math.min(high, n))`
abbrev pub between : ℕ → ℕ → ℕ → ℕ
between low high n = if ltb high n then high else if ltb n low then low else n

-- `Math.max(low, Math.min(high, toIntOrNull(v) ?? default))`
unfoldable pub clamped : ℕ → ℕ → ℕ → Number → ℕ
clamped low high default (nat n) = between low high n
clamped low high default (negsuc n) = low
clamped low high default nan = between low high default

unfoldable pub bounded : ℕ → ℕ → ℕ → Value → ℕ
unfolding clamped
bounded low high default v = clamped low high default (to_int_or_null v)

-- What an RFQ asks for, and what a line of an offer gives.
pub record Wanted : Type 0 where
  pub btc_sats : Number
  pub usdt_amount : Text
  pub max_platform : ℕ
  pub max_trade : ℕ
  pub max_total : ℕ
  pub min_window : ℕ
  pub max_window : ℕ

-- `/^[0-9]+$/`
abbrev pub is_digits : Text → Bool
is_digits s = not (is_empty s) && all is_digit s

unfoldable pub wanted_of : Value → Wanted
wanted_of body = record {
  btc_sats = to_int_or_null (get body "btc_sats");
  usdt_amount = trimmed (get body "usdt_amount");
  max_platform = bounded 0 500 10 (get body "max_platform_fee_bps");
  max_trade = bounded 0 1000 10 (get body "max_trade_fee_bps");
  max_total = bounded 0 1500 20 (get body "max_total_fee_bps");
  min_window = bounded 3600 604800 3600 (get body "min_sol_refund_window_sec");
  max_window = bounded 3600 604800 604800 (get body "max_sol_refund_window_sec");
}

-- A positive amount on both sides.
unfoldable pub has_amounts : Wanted → Bool
has_amounts w = number_lt (nat 0) w.btc_sats && is_digits w.usdt_amount

unfoldable pub max : ℕ → ℕ → ℕ
max a b = if ltb a b then b else a

unfoldable pub min : ℕ → ℕ → ℕ
min a b = if ltb b a then b else a

-- Three days, moved into the windows of both.
unfoldable pub window : ℕ → ℕ → ℕ
window low high =
    let raised = if ltb 259200 low then low else 259200 in if ltb high raised then high else raised

unfoldable pub suits : Wanted → Wanted → Bool
unfolding max min
suits rfq line =
    has_amounts line
    && number_eq line.btc_sats rfq.btc_sats
    && text_eq line.usdt_amount rfq.usdt_amount
    && leb line.max_platform rfq.max_platform
    && leb line.max_trade rfq.max_trade
    && leb line.max_total rfq.max_total
    && leb (max rfq.min_window line.min_window) (min rfq.max_window line.max_window)

unfoldable pub window_of : Wanted → Wanted → ℕ
unfolding max min window
window_of rfq line =
    window (max rfq.min_window line.min_window) (min rfq.max_window line.max_window)

-- The index that the line states, or its place.
unfoldable pub line_index : ℕ → Number → ℕ
line_index place (nat n) = n
line_index place _ = place

-- The first line that suits: its refund window and its index.
unfoldable pub match_lines : Wanted → ℕ → Items → Option (ℕ × ℕ)
unfolding line_index
match_lines rfq place nil = none
match_lines rfq place (cons line lines) =
    let later = match_lines rfq (suc place) lines in
    if is_object line && suits rfq (wanted_of line)
    then some
        (window_of rfq (wanted_of line), line_index place (to_int_or_null (get line "line_index")))
    else later

pub record Match : Type 0 where
  pub sol_refund_window_sec : ℕ
  pub offer_id : Text
  pub offer_line_index : ℕ
  pub offer_envelope : Value

-- `Array.isArray(v) ? v : []`
unfoldable pub items_of : Value → Items
items_of (arr vs) = vs
items_of _ = nil

-- The channels that an offer names, the empty ones left out.
unfoldable pub channels : Items → List Text
channels nil = []
channels (cons c cs) =
    let rest = channels cs in if is_empty (trimmed c) then rest else trimmed c ∷ rest

includes : Text → List Text → Bool
includes t [] = false
includes t (s ∷ ss) = text_eq s t || includes t ss

-- An offer without channels is open to each, as is an RFQ that comes by none.
unfoldable pub admits : Text → List Text → Bool
unfolding includes
admits channel [] = true
admits channel (s ∷ ss) = is_empty channel || includes channel (s ∷ ss)

-- `validUntil !== null && validUntil <= nowSec`
unfoldable pub is_past : ℕ → Number → Bool
is_past now_sec (nat n) = leb n now_sec
is_past now_sec (negsuc n) = true
is_past now_sec nan = false

module _ (crypto : Crypto) where
  unfoldable pub offer_id : Value → Text
  offer_id msg = to_lower_case (trim (hash_unsigned_envelope crypto (strip_signature msg)))

  -- An offer that can be matched at all.
  unfoldable pub is_open : ℕ → Text → Value → Bool
  is_open now_sec channel msg =
      let body = get msg "body" in
      is_reference body
      && (all is_hex_digit (offer_id msg) && length (offer_id msg) == 64)
      && not (is_past now_sec (to_int_or_null (get body "valid_until_unix")))
      && admits channel (channels (items_of (get body "rfq_channels")))

  unfoldable pub found_line : Value → Option (ℕ × ℕ) → Option Match → Option Match
  found_line msg none later = later
  found_line msg (some (w, i)) later = some (record {
    sol_refund_window_sec = w;
    offer_id = offer_id msg;
    offer_line_index = i;
    offer_envelope = msg;
  })

  unfoldable pub match_offers : ℕ → Text → Wanted → List Value → Option Match
  unfolding found_line
  match_offers now_sec channel rfq [] = none
  match_offers now_sec channel rfq (evt ∷ evts) =
      let later = match_offers now_sec channel rfq evts in
      let msg = get evt "message" in
      if is_open now_sec channel msg
      then found_line msg (match_lines rfq 0 (items_of (get (get msg "body") "offers"))) later
      else later

  unfoldable pub match_offer_for_rfq : ℕ → Value → List Value → Option Match
  match_offer_for_rfq now_sec rfq_evt my_offer_events =
      let body = get (get rfq_evt "message") "body" in
      let rfq = wanted_of body in
      if not (is_reference body)
      then none
      else if not (has_amounts rfq)
      then none
      else if ltb rfq.max_window rfq.min_window
      then none
      else match_offers now_sec (trimmed (get rfq_evt "channel")) rfq my_offer_events
