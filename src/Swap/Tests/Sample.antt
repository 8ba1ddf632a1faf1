-- ===== src/Swap/Tests/Sample.antt =====
-- The envelopes of one swap, with a toy wallet whose signature of every message is one text.
use swapfloor.Common.{ℕ, String, some, List, [], ◌∷◌}
use swapfloor.Js.Text.{
  codes, text_eq, trim, to_lower_case, is_digit, is_hex_digit, is_base58_unit, digits_value,
  decimal,
}
use swapfloor.Js.Value.{
  Value, Fields, end, field, str, num, nat, obj, null, get, lookup, has_key, strict_eq, to_text,
}
use swapfloor.Js.Convert.{to_number, big_int, normalize_hex, unix_sec_to_ms}
use swapfloor.Js.Stringify.{stable_stringify, json_quote, text_lt, insert_key, sort_keys, braced}
use swapfloor.Swap.Constants.{State, kind_of}
use swapfloor.Swap.Schema.{
  validate_swap_envelope, validate_swap_envelope_shape, validate_swap_body, validate_kind,
  kind_of_value,
}
use swapfloor.Swap.Schema.Field.{
  is_hex, is_base58, is_uint, is_pos_int, is_amount_string, is_filled_string, is_nonempty_string,
}
use swapfloor.Swap.Schema.Settlement.{
  validate_terms, validate_accept, validate_ln_invoice, validate_sol_escrow_created,
  validate_ln_paid, validate_outcome, validate_cancel, validate_status,
}
use swapfloor.Swap.Envelope.{
  Crypto, put, without, strip_signature, encode_envelope_for_signing, verify_signed_envelope,
  hash_unsigned_envelope, check_signature,
}
use swapfloor.Swap.Machine.{dispatch, apply_swap_envelope, apply_all, kept}
use swapfloor.Swap.Machine.Core.{
  Trade, create_initial_trade, signed_by, require_signer, same_hex, same_text, after, before,
  is_finite_time,
}
use swapfloor.Swap.Machine.Negotiation.{on_terms, on_accept}
use swapfloor.Swap.Machine.Payment.{
  on_ln_invoice, on_sol_escrow_created, on_ln_paid, check_amount, check_invoice_expiry,
  check_same_invoice,
}
use swapfloor.Swap.Machine.Outcome.{on_sol_claimed, on_sol_refunded, on_cancel, on_status}

-- Opens the state machine in the declarations that name it.
unfoldable pub machine : Unit {0}
unfolding trim to_lower_case is_digit is_hex_digit is_base58_unit digits_value decimal text_eq get
    lookup has_key strict_eq to_text to_number big_int normalize_hex unix_sec_to_ms stable_stringify
    json_quote text_lt insert_key sort_keys braced kind_of validate_swap_envelope
    validate_swap_envelope_shape validate_swap_body validate_kind kind_of_value is_hex is_base58
    is_uint is_pos_int is_amount_string is_filled_string is_nonempty_string validate_terms
    validate_accept validate_ln_invoice validate_sol_escrow_created validate_ln_paid
    validate_outcome validate_cancel validate_status put without strip_signature
    encode_envelope_for_signing verify_signed_envelope hash_unsigned_envelope check_signature
    dispatch apply_swap_envelope apply_all kept create_initial_trade signed_by require_signer
    same_hex same_text after before is_finite_time on_terms on_accept on_ln_invoice
    on_sol_escrow_created on_ln_paid check_amount check_invoice_expiry check_same_invoice
    on_sol_claimed on_sol_refunded on_cancel on_status
machine = tt

abbrev pub toy : Crypto
toy = record {
  decode_hex = λ t. some t;
  encode_hex = λ t. t;
  sign = λ m k. codes "5161";
  verify = λ sig m key. text_eq sig (codes "5161");
  sha256 = λ t. codes "d1";
}

abbrev pub text : String → Value
text s = str (codes s)

abbrev pub number : ℕ → Value
number n = num (nat n)

abbrev pub receiver : Value
receiver = text "aaaaaaaaaaaaaaaaaaaaaaaaaaaaaaaaaaaaaaaaaaaaaaaaaaaaaaaaaaaaaaaa"

abbrev pub payer : Value
payer = text "bbbbbbbbbbbbbbbbbbbbbbbbbbbbbbbbbbbbbbbbbbbbbbbbbbbbbbbbbbbbbbbb"

abbrev pub payment_hash : Value
payment_hash = text "cccccccccccccccccccccccccccccccccccccccccccccccccccccccccccccccc"

-- An envelope of the trade "t1", signed with the toy wallet.
abbrev pub envelope : String → ℕ → Value → Fields → Value
envelope kind ts signer body = obj (
    field "v" (number 1) (
      field "kind" (text kind) (
        field "trade_id" (text "t1") (
          field "ts" (number ts) (
            field "nonce" (text "n")
              (field "body" (obj body) (field "signer" signer (field "sig" (text "5161") end))))))))

abbrev pub sample_terms : Fields
sample_terms = field "pair" (text "BTC_LN/USDT_SOL") (
    field "direction" (text "BTC_LN->USDT_SOL") (
      field "app_hash" payment_hash (
        field "btc_sats" (number 50) (
          field "usdt_amount" (text "67") (
            field "sol_mint" (text "Mint") (
              field "sol_recipient" (text "Recv") (
                field "sol_refund" (text "Refund") (
                  field "sol_refund_after_unix" (number 9000) (
                    field "ln_receiver_peer" receiver (
                      field "ln_payer_peer" payer (
                        field "platform_fee_bps" (number 10) (
                          field "trade_fee_bps" (number 10) (
                            field "trade_fee_collector" (text "Fees")
                              (field "terms_valid_until_unix" (number 100) end))))))))))))))

abbrev pub propose : Value
propose = envelope "swap.terms" 1000 receiver sample_terms

abbrev pub agree : Value
agree = envelope "swap.accept" 2000 payer (field "terms_hash" (text "d1") end)

abbrev pub bill : Value
bill = envelope "swap.ln_invoice" 3000 receiver (
    field "bolt11" (text "lnbc") (
      field "payment_hash_hex" payment_hash
        (field "amount_msat" (text "50000") (field "expires_at_unix" (number 200) end))))

abbrev pub lock : Value
lock = envelope "swap.sol_escrow_created" 4000 receiver (
    field "payment_hash_hex" payment_hash (
      field "program_id" (text "Prog") (
        field "escrow_pda" (text "Pda") (
          field "vault_ata" (text "Vau1t") (
            field "mint" (text "Mint") (
              field "amount" (text "67") (
                field "refund_after_unix" (number 9000) (
                  field "recipient" (text "Recv")
                    (field "refund" (text "Refund") (field "tx_sig" (text "tx1") end))))))))))

abbrev pub pay : Value
pay = envelope "swap.ln_paid" 5000 payer (field "payment_hash_hex" payment_hash end)

abbrev pub claim : Value
claim = envelope "swap.sol_claimed" 6000 payer (
    field "payment_hash_hex" payment_hash
      (field "escrow_pda" (text "Pda") (field "tx_sig" (text "tx2") end)))

abbrev pub refund : Value
refund = envelope "swap.sol_refunded" 9000000 receiver (
    field "payment_hash_hex" payment_hash
      (field "escrow_pda" (text "Pda") (field "tx_sig" (text "tx3") end)))

-- A cancel whose signer is neither the receiver nor the payer.
abbrev pub stranger_cancel : Value
stranger_cancel = envelope "swap.cancel" 2500 payment_hash (field "reason" (text "no") end)

abbrev pub fresh : Trade
fresh = record {
  trade_id = text "t1";
  state = State.init;
  terms = null;
  terms_hash = null;
  invoice = null;
  escrow = null;
  ln_paid = null;
  claimed = null;
  refunded = null;
  last = null;
  accepted_at = null;
  canceled_reason = null;
}

-- The trade after each step.
abbrev pub last_of : Value → Value
last_of e =
    obj
      (field "kind" (get e "kind") (field "ts" (get e "ts") (field "signer" (get e "signer") end)))

abbrev pub at_terms : Trade
unfolding get lookup
at_terms = record fresh {
  terms = get propose "body";
  terms_hash = text "d1";
  state = State.terms;
  last = last_of propose;
}

abbrev pub at_accepted : Trade
unfolding get lookup
at_accepted = record at_terms {
  state = State.accepted;
  accepted_at = number 2000;
  last = last_of agree;
}

abbrev pub at_invoice : Trade
unfolding get lookup
at_invoice = record at_accepted {
  state = State.invoice;
  invoice = get bill "body";
  last = last_of bill;
}

abbrev pub at_escrow : Trade
unfolding get lookup
at_escrow = record at_invoice {
  state = State.escrow;
  escrow = get lock "body";
  last = last_of lock;
}

abbrev pub at_paid : Trade
unfolding get lookup
at_paid = record at_escrow { state = State.ln_paid; ln_paid = get pay "body"; last = last_of pay }

abbrev pub at_claimed : Trade
unfolding get lookup
at_claimed = record at_paid {
  state = State.claimed;
  claimed = get claim "body";
  last = last_of claim;
}

abbrev pub at_refunded : Trade
unfolding get lookup
at_refunded = record at_escrow {
  state = State.refunded;
  refunded = get refund "body";
  last = last_of refund;
}

abbrev pub to_terms : List Value
to_terms = propose ∷ []

abbrev pub to_accepted : List Value
to_accepted = propose ∷ agree ∷ []

abbrev pub to_invoice : List Value
to_invoice = propose ∷ agree ∷ bill ∷ []

abbrev pub to_escrow : List Value
to_escrow = propose ∷ agree ∷ bill ∷ lock ∷ []

abbrev pub to_paid : List Value
to_paid = propose ∷ agree ∷ bill ∷ lock ∷ pay ∷ []

abbrev pub to_claimed : List Value
to_claimed = propose ∷ agree ∷ bill ∷ lock ∷ pay ∷ claim ∷ []

abbrev pub to_refunded : List Value
to_refunded = propose ∷ agree ∷ bill ∷ lock ∷ refund ∷ []
