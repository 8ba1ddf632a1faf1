-- ===== src/Swap/Schema/Negotiation.antt =====
-- The cases of `validateSwapBody` in src/swap/schema.js for the messages that precede the terms.
use swapfloor.Common.{
  ℕ, ◌+◌, ◌*◌, String, Bool, true, false, not, ◌&&◌, ◌||◌, some, Result, ok, err, refused, guard,
  when, ◌>>◌,
}
use swapfloor.Js.Text.{codes, text_eq}
use swapfloor.Js.Value.{
  Number, nat, Value, str, arr, Items, nil, cons, get, is_object, is_string, is_defined, is_present,
  number_lt, strict_eq, to_text,
}
use swapfloor.Js.Convert.{to_number, or_empty}
use swapfloor.Swap.Constants.{btc_ln_usdt_sol}
use swapfloor.Swap.Schema.Field.{
  is_hex, is_base58, is_uint, is_pos_int, is_amount_string, is_filled_string,
}

-- `Number(a) > b`
abbrev pub exceeds : Value → ℕ → Bool
exceeds v n = number_lt (nat n) (to_number v)

abbrev pub is_text : Value → String → Bool
is_text v s = strict_eq v (str (codes s))

abbrev pub direction : String
direction = "BTC_LN->USDT_SOL"

abbrev all_strings : Items → Bool
all_strings nil = true
all_strings (cons x xs) = is_string x && all_strings xs

-- `Array.isArray(v) && !v.some((x) => typeof x !== 'string')`
is_string_array : Value → Bool
is_string_array (arr xs) = all_strings xs
is_string_array _ = false

unfoldable pub validate_offers : Items → Result (Unit {0})
validate_offers nil = ok tt
validate_offers (cons offer offers) = do
  guard (is_object offer) "svc_announce.offers entries must be objects"
  guard (not (is_present (get offer "have")) || is_string (get offer "have"))
      "svc_announce.offers.have must be a string"
  guard (not (is_present (get offer "want")) || is_string (get offer "want"))
      "svc_announce.offers.want must be a string"
  guard (not (is_present (get offer "pair")) || is_string (get offer "pair"))
      "svc_announce.offers.pair must be a string"
  validate_offers offers

unfoldable pub validate_offer_array : Value → Result (Unit {0})
unfolding validate_offers
validate_offer_array (arr offers) = validate_offers offers
validate_offer_array _ = err (refused "svc_announce.offers must be an array")

unfoldable pub validate_svc_announce : Value → Result (Unit {0})
unfolding is_string_array validate_offer_array
validate_svc_announce body = do
  guard (is_filled_string (get body "name")) "svc_announce.name is required"
  guard (not (is_defined (get body "pairs")) || is_string_array (get body "pairs"))
      "svc_announce.pairs must be an array of strings"
  guard (not (is_defined (get body "rfq_channels")) || is_string_array (get body "rfq_channels"))
      "svc_announce.rfq_channels must be an array of strings"
  guard (not (is_present (get body "note")) || is_string (get body "note"))
      "svc_announce.note must be a string"
  when (is_present (get body "offers")) (validate_offer_array (get body "offers"))
  guard (not (is_present (get body "valid_until_unix")) || is_pos_int (get body "valid_until_unix"))
      "svc_announce.valid_until_unix must be a unix seconds integer"

-- An optional fee: an integer of at most `cap` basis points.
unfoldable pub fee_ceiling : Value → ℕ → String → String → Result (Unit {0})
fee_ceiling fee cap kind over =
    when (is_present fee) (do guard (is_uint fee) kind; guard (not (exceeds fee cap)) over)

-- An optional refund window, in seconds: from an hour to a week.
unfoldable pub refund_window : Value → String → String → String → Result (Unit {0})
refund_window window kind short long = when (is_present window) (do
  guard (is_uint window) kind
  guard (not (number_lt (to_number window) (nat 3600))) short
  guard (not (exceeds window (7 * 24 * 3600))) long)

unfoldable pub validate_rfq : Value → Result (Unit {0})
validate_rfq body = do
  guard (is_text (get body "pair") btc_ln_usdt_sol) "rfq.pair unsupported"
  guard (is_text (get body "direction") direction) "rfq.direction unsupported"
  guard (is_hex (get body "app_hash") (some 32)) "rfq.app_hash must be 32-byte hex"
  guard (is_pos_int (get body "btc_sats")) "rfq.btc_sats must be a positive integer"
  guard (is_amount_string (get body "usdt_amount")) "rfq.usdt_amount must be a decimal string"
  fee_ceiling (get body "max_platform_fee_bps") 500
      "rfq.max_platform_fee_bps must be an integer >= 0"
      "rfq.max_platform_fee_bps exceeds 500 bps cap"
  fee_ceiling (get body "max_trade_fee_bps") 1000 "rfq.max_trade_fee_bps must be an integer >= 0"
      "rfq.max_trade_fee_bps exceeds 1000 bps cap"
  fee_ceiling (get body "max_total_fee_bps") 1500 "rfq.max_total_fee_bps must be an integer >= 0"
      "rfq.max_total_fee_bps exceeds 1500 bps cap"
  refund_window (get body "min_sol_refund_window_sec")
      "rfq.min_sol_refund_window_sec must be an integer >= 0"
      "rfq.min_sol_refund_window_sec must be >= 3600"
      "rfq.min_sol_refund_window_sec must be <= 604800"
  refund_window (get body "max_sol_refund_window_sec")
      "rfq.max_sol_refund_window_sec must be an integer >= 0"
      "rfq.max_sol_refund_window_sec must be >= 3600"
      "rfq.max_sol_refund_window_sec must be <= 604800"
  guard
      (not (
        is_present (get body "min_sol_refund_window_sec")
        && is_present (get body "max_sol_refund_window_sec")
        && number_lt (to_number (get body "max_sol_refund_window_sec"))
            (to_number (get body "min_sol_refund_window_sec"))))
      "rfq.min_sol_refund_window_sec must be <= rfq.max_sol_refund_window_sec"
  guard (not (is_present (get body "sol_mint")) || is_base58 (get body "sol_mint"))
      "rfq.sol_mint must be base58"
  guard (not (is_present (get body "sol_recipient")) || is_base58 (get body "sol_recipient"))
      "rfq.sol_recipient must be base58"
  guard (not (is_defined (get body "valid_until_unix")) || is_pos_int (get body "valid_until_unix"))
      "rfq.valid_until_unix must be a unix seconds integer"

abbrev bool_eq : Bool → Bool → Bool
bool_eq true b = b
bool_eq false b = not b

-- The sum of two numbers, both natural where the sum decides anything.
abbrev pub number_add : Number → Number → Number
number_add (nat a) (nat b) = nat (a + b)
number_add _ _ = Number.nan

unfoldable pub validate_quote : Value → Result (Unit {0})
validate_quote body = do
  guard (is_hex (get body "rfq_id") (some 32)) "quote.rfq_id must be 32-byte hex"
  guard (is_text (get body "pair") btc_ln_usdt_sol) "quote.pair unsupported"
  guard (is_text (get body "direction") direction) "quote.direction unsupported"
  guard (is_hex (get body "app_hash") (some 32)) "quote.app_hash must be 32-byte hex"
  guard (is_amount_string (get body "usdt_amount")) "quote.usdt_amount must be a decimal string"
  guard (is_pos_int (get body "btc_sats")) "quote.btc_sats must be a positive integer"
  guard (not (is_present (get body "offer_id")) || is_hex (get body "offer_id") (some 32))
      "quote.offer_id must be 32-byte hex"
  guard (not (is_present (get body "offer_line_index")) || is_uint (get body "offer_line_index"))
      "quote.offer_line_index must be an integer >= 0"
  guard (bool_eq (is_present (get body "offer_id")) (is_present (get body "offer_line_index")))
      "quote.offer_id and quote.offer_line_index must be provided together"
  fee_ceiling (get body "platform_fee_bps") 500 "quote.platform_fee_bps must be an integer >= 0"
      "quote.platform_fee_bps exceeds 500 bps cap"
  fee_ceiling (get body "trade_fee_bps") 1000 "quote.trade_fee_bps must be an integer >= 0"
      "quote.trade_fee_bps exceeds 1000 bps cap"
  guard
      (not (
        is_present (get body "platform_fee_bps")
        && is_present (get body "trade_fee_bps")
        && number_lt (nat 1500) (
            number_add (to_number (get body "platform_fee_bps"))
              (to_number (get body "trade_fee_bps")))))
      "quote total fee bps exceeds 1500 bps cap"
  guard
      (not (is_present (get body "platform_fee_collector"))
        || is_base58 (get body "platform_fee_collector"))
      "quote.platform_fee_collector must be base58"
  guard
      (not (is_present (get body "trade_fee_collector"))
        || is_base58 (get body "trade_fee_collector"))
      "quote.trade_fee_collector must be base58"
  refund_window (get body "sol_refund_window_sec")
      "quote.sol_refund_window_sec must be an integer >= 0"
      "quote.sol_refund_window_sec must be >= 3600" "quote.sol_refund_window_sec must be <= 604800"
  guard (not (is_present (get body "sol_mint")) || is_base58 (get body "sol_mint"))
      "quote.sol_mint must be base58"
  guard (not (is_present (get body "sol_recipient")) || is_base58 (get body "sol_recipient"))
      "quote.sol_recipient must be base58"
  guard (is_pos_int (get body "valid_until_unix"))
      "quote.valid_until_unix must be a unix seconds integer"

unfoldable pub validate_quote_accept : Value → Result (Unit {0})
validate_quote_accept body = do
  guard (is_hex (get body "rfq_id") (some 32)) "quote_accept.rfq_id must be 32-byte hex"
  guard (is_hex (get body "quote_id") (some 32)) "quote_accept.quote_id must be 32-byte hex"
  guard (not (is_defined (get body "note")) || is_string (get body "note"))
      "quote_accept.note must be a string"

-- The invite of a `swap_invite`, given as an object or as base64 JSON.
unfoldable pub validate_invite : Value → Result (Unit {0})
unfolding to_text text_eq
validate_invite body = do
  guard (is_object (get body "invite") || is_filled_string (get body "invite_b64"))
      "swap_invite.invite (object) or invite_b64 (string) is required"
  when (is_object (get body "invite")) (do
    guard
        (is_object (get (get body "invite") "payload")
          && is_filled_string (get (get body "invite") "sig"))
        "swap_invite.invite must include { payload, sig }"
    guard
        (text_eq (to_text (or_empty (get (get (get body "invite") "payload") "channel")))
          (to_text (get body "swap_channel")))
        "swap_invite.invite.payload.channel must match swap_channel")

unfoldable pub validate_swap_invite : Value → Result (Unit {0})
unfolding validate_invite
validate_swap_invite body = do
  guard (is_hex (get body "rfq_id") (some 32)) "swap_invite.rfq_id must be 32-byte hex"
  guard (is_hex (get body "quote_id") (some 32)) "swap_invite.quote_id must be 32-byte hex"
  guard (is_filled_string (get body "swap_channel")) "swap_invite.swap_channel is required"
  guard (not (is_present (get body "owner_pubkey")) || is_hex (get body "owner_pubkey") (some 32))
      "swap_invite.owner_pubkey must be 32-byte hex"
  validate_invite body
  guard (not (is_present (get body "welcome")) || is_object (get body "welcome"))
      "swap_invite.welcome must be an object"
  guard (not (is_present (get body "welcome_b64")) || is_filled_string (get body "welcome_b64"))
      "swap_invite.welcome_b64 must be a string"
