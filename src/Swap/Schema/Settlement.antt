-- ===== src/Swap/Schema/Settlement.antt =====
-- The cases of `validateSwapBody` in src/swap/schema.js for the messages of a running trade.
use Prim.Native.String
use swapfloor.Common.{
  String, Bool, false, not, ◌&&◌, ◌||◌, none, some, List, [], ◌∷◌, Result, guard, ◌>>◌,
}
use swapfloor.Js.Text.{Text, codes, text_eq}
use swapfloor.Js.Value.{nat, Value, str, get, is_string, is_defined, is_present, number_lt}
use swapfloor.Js.Convert.{to_number}
use swapfloor.Swap.Constants.{State, states, state_name, btc_ln_usdt_sol}
use swapfloor.Swap.Schema.Field.{
  is_hex, is_base58, is_uint, is_pos_int, is_amount_string, is_filled_string,
}
use swapfloor.Swap.Schema.Negotiation.{exceeds, is_text, direction, number_add}

-- The fee policy of the terms.
unfoldable pub validate_fees : Value → Result (Unit {0})
validate_fees body = do
  guard (is_uint (get body "platform_fee_bps")) "terms.platform_fee_bps must be an integer >= 0"
  guard (is_uint (get body "trade_fee_bps")) "terms.trade_fee_bps must be an integer >= 0"
  guard (not (exceeds (get body "platform_fee_bps") 500))
      "terms.platform_fee_bps exceeds 500 bps cap"
  guard (not (exceeds (get body "trade_fee_bps") 1000)) "terms.trade_fee_bps exceeds 1000 bps cap"
  guard
      (not (
        number_lt (nat 1500) (
          number_add (to_number (get body "platform_fee_bps"))
            (to_number (get body "trade_fee_bps")))))
      "terms total fee bps exceeds 1500 bps cap"
  guard
      (not (is_present (get body "platform_fee_collector"))
        || is_base58 (get body "platform_fee_collector"))
      "terms.platform_fee_collector must be base58"
  guard (is_base58 (get body "trade_fee_collector")) "terms.trade_fee_collector must be base58"

unfoldable pub validate_terms : Value → Result (Unit {0})
unfolding validate_fees
validate_terms body = do
  guard (is_text (get body "pair") btc_ln_usdt_sol) "terms.pair unsupported"
  guard (is_text (get body "direction") direction) "terms.direction unsupported"
  guard (is_hex (get body "app_hash") (some 32)) "terms.app_hash must be 32-byte hex"
  guard (is_pos_int (get body "btc_sats")) "terms.btc_sats must be a positive integer"
  guard (is_amount_string (get body "usdt_amount")) "terms.usdt_amount must be a decimal string"
  guard (not (is_defined (get body "usdt_decimals")) || is_uint (get body "usdt_decimals"))
      "terms.usdt_decimals must be an integer >= 0"
  guard (is_base58 (get body "sol_mint")) "terms.sol_mint must be base58"
  guard (is_base58 (get body "sol_recipient")) "terms.sol_recipient must be base58"
  guard (is_base58 (get body "sol_refund")) "terms.sol_refund must be base58"
  guard (is_pos_int (get body "sol_refund_after_unix"))
      "terms.sol_refund_after_unix must be a unix seconds integer"
  guard (is_hex (get body "ln_receiver_peer") (some 32))
      "terms.ln_receiver_peer must be 32-byte hex"
  guard (is_hex (get body "ln_payer_peer") (some 32)) "terms.ln_payer_peer must be 32-byte hex"
  validate_fees body
  guard
      (not (is_defined (get body "terms_valid_until_unix"))
        || is_pos_int (get body "terms_valid_until_unix"))
      "terms.terms_valid_until_unix must be unix seconds integer"

unfoldable pub validate_accept : Value → Result (Unit {0})
validate_accept body =
    guard (is_string (get body "terms_hash") && is_hex (get body "terms_hash") none)
      "accept.terms_hash must be hex"

unfoldable pub validate_ln_invoice : Value → Result (Unit {0})
validate_ln_invoice body = do
  guard (is_filled_string (get body "bolt11")) "ln_invoice.bolt11 is required"
  guard (is_hex (get body "payment_hash_hex") (some 32))
      "ln_invoice.payment_hash_hex must be 32-byte hex"
  guard (not (is_defined (get body "amount_msat")) || is_amount_string (get body "amount_msat"))
      "ln_invoice.amount_msat must be a decimal string"
  guard (not (is_defined (get body "expires_at_unix")) || is_pos_int (get body "expires_at_unix"))
      "ln_invoice.expires_at_unix must be unix seconds integer"

unfoldable pub validate_sol_escrow_created : Value → Result (Unit {0})
validate_sol_escrow_created body = do
  guard (is_hex (get body "payment_hash_hex") (some 32))
      "sol_escrow_created.payment_hash_hex invalid"
  guard (is_base58 (get body "program_id")) "sol_escrow_created.program_id invalid"
  guard (is_base58 (get body "escrow_pda")) "sol_escrow_created.escrow_pda invalid"
  guard (is_base58 (get body "vault_ata")) "sol_escrow_created.vault_ata invalid"
  guard (is_base58 (get body "mint")) "sol_escrow_created.mint invalid"
  guard (is_amount_string (get body "amount")) "sol_escrow_created.amount must be a decimal string"
  guard (is_pos_int (get body "refund_after_unix")) "sol_escrow_created.refund_after_unix invalid"
  guard (is_base58 (get body "recipient")) "sol_escrow_created.recipient invalid"
  guard (is_base58 (get body "refund")) "sol_escrow_created.refund invalid"
  guard (is_filled_string (get body "tx_sig")) "sol_escrow_created.tx_sig is required"

unfoldable pub validate_ln_paid : Value → Result (Unit {0})
validate_ln_paid body = do
  guard (is_hex (get body "payment_hash_hex") (some 32)) "ln_paid.payment_hash_hex invalid"
  guard (not (is_defined (get body "preimage_hex")) || is_hex (get body "preimage_hex") (some 32))
      "ln_paid.preimage_hex must be 32-byte hex"

-- One case for `sol_claimed` and `sol_refunded`, told apart by the label.
unfoldable pub validate_outcome : String → Value → Result (Unit {0})
validate_outcome label body = do
  guard (is_hex (get body "payment_hash_hex") (some 32))
      (String.◌++◌ label ".payment_hash_hex invalid")
  guard (is_base58 (get body "escrow_pda")) (String.◌++◌ label ".escrow_pda invalid")
  guard (is_filled_string (get body "tx_sig")) (String.◌++◌ label ".tx_sig is required")

unfoldable pub validate_cancel : Value → Result (Unit {0})
validate_cancel body =
    guard (not (is_defined (get body "reason")) || is_string (get body "reason"))
      "cancel.reason must be a string"

is_state_name : Text → List State → Bool
is_state_name t [] = false
is_state_name t (s ∷ ss) = text_eq t (codes (state_name s)) || is_state_name t ss

-- `typeof v === 'string' && Object.values(STATE).includes(v)`
is_state : Value → Bool
unfolding is_state_name
is_state (str t) = is_state_name t states
is_state _ = false

unfoldable pub validate_status : Value → Result (Unit {0})
unfolding is_state
validate_status body = do
  guard (is_state (get body "state")) "status.state must be a valid state"
  guard (not (is_defined (get body "note")) || is_string (get body "note"))
      "status.note must be a string"
