-- ===== src/Swap/Valid/Terms.antt =====
-- What the schema guarantees of accepted terms, invoices and quotes.
use swapfloor.Common.{
  ℕ, ◌+◌, ◌≤◌, String, true, false, some, ok, ◌≡◌, refl, subst, arith, ◌&&◌, >>-eq-ok, guard->>,
}
use swapfloor.Js.Value.{Value, nat, num, get, is_object, is_defined, is_present, number_lt}
use swapfloor.Js.Convert.{to_number}
use swapfloor.Swap.Constants.{Kind}
use swapfloor.Swap.Schema.{
  validate_swap_envelope, validate_swap_envelope_shape, validate_swap_body, validate_kind,
  validate_known, kind_of_value,
}
use swapfloor.Swap.Schema.Field.{is_hex, is_uint, is_pos_int, is_amount_string}
use swapfloor.Swap.Schema.Negotiation.{validate_rfq, refund_window}
use swapfloor.Swap.Schema.Settlement.{validate_terms, validate_fees, validate_ln_invoice}

-- The body of a valid envelope passed the test of its kind.
pub body_of_valid :
    (e : Value) (k : Kind)
    → validate_swap_envelope e ≡ ok tt
    → kind_of_value (get e "kind") ≡ some k
    → validate_kind k (get e "body") ≡ ok tt
unfolding validate_swap_envelope validate_swap_body validate_known
body_of_valid e k h known =
    let (shape, h') = >>-eq-ok (validate_swap_envelope_shape e) _ h in
    let (object, h'') =
      guard->> (is_object (get e "body")) "Body must be an object"
        (validate_known (kind_of_value (get e "kind")) (get e "body")) h' in
    subst (λ j. validate_known j (get e "body") ≡ ok tt) known h''

pub record TermsFacts (body : Value) : Type 0 where
  pub sats : is_pos_int (get body "btc_sats") ≡ true
  pub receiver : is_hex (get body "ln_receiver_peer") (some 32) ≡ true
  pub payer : is_hex (get body "ln_payer_peer") (some 32) ≡ true
  pub refund_after : is_pos_int (get body "sol_refund_after_unix") ≡ true
  pub fees : validate_fees body ≡ ok tt

pub validate_terms-TermsFacts : (body : Value) → validate_terms body ≡ ok tt → TermsFacts body
unfolding validate_terms
validate_terms-TermsFacts body h = ground arith

uint_value : (v : Value) → is_uint v ≡ true → (n : ℕ) × (v ≡ num (nat n))
unfolding is_uint
uint_value (num (nat n)) h = (n, refl)
uint_value _ h = cc

fee_bounds :
    (body : Value) (platform trade : ℕ)
    → get body "platform_fee_bps" ≡ num (nat platform)
    → get body "trade_fee_bps" ≡ num (nat trade)
    → validate_fees body ≡ ok tt
    → (platform ≤ 500) × (trade ≤ 1000) × (platform + trade ≤ 1500)
unfolding validate_fees to_number
fee_bounds body platform trade p q h = ground arith

fees_are_uints :
    (body : Value)
    → validate_fees body ≡ ok tt
    → (is_uint (get body "platform_fee_bps") ≡ true) × (is_uint (get body "trade_fee_bps") ≡ true)
unfolding validate_fees
fees_are_uints body h = ground arith

-- Accepted terms carry fees of at most 500 basis points for the platform, 1000 for the trade and
-- 1500 in all.
validate_terms_fees :
    (body : Value)
    → validate_terms body ≡ ok tt
    → (platform : ℕ) × (trade : ℕ) × (get body "platform_fee_bps" ≡ num (nat platform))
      × (get body "trade_fee_bps" ≡ num (nat trade))
      × (platform ≤ 500)
      × (trade ≤ 1000)
      × (platform + trade ≤ 1500)
validate_terms_fees body h =
    let fees = (validate_terms-TermsFacts body h).fees in
    let (u, v) = fees_are_uints body fees in
    let (platform, p) = uint_value (get body "platform_fee_bps") u in
    let (trade, q) = uint_value (get body "trade_fee_bps") v in
    let (a, b, c) = fee_bounds body platform trade p q fees in (platform, trade, p, q, a, b, c)

window_bounds :
    (window : Value) (n : ℕ) (kind short long : String)
    → window ≡ num (nat n)
    → refund_window window kind short long ≡ ok tt
    → (3600 ≤ n) × (n ≤ 604800)
unfolding refund_window to_number
window_bounds window n kind short long p h = ground arith

record RfqWindow (body : Value) : Type 0 where
  low :
      refund_window
        (get body "min_sol_refund_window_sec")
        "rfq.min_sol_refund_window_sec must be an integer >= 0"
        "rfq.min_sol_refund_window_sec must be >= 3600"
        "rfq.min_sol_refund_window_sec must be <= 604800"
      ≡ ok tt
  high :
      refund_window
        (get body "max_sol_refund_window_sec")
        "rfq.max_sol_refund_window_sec must be an integer >= 0"
        "rfq.max_sol_refund_window_sec must be >= 3600"
        "rfq.max_sol_refund_window_sec must be <= 604800"
      ≡ ok tt
  order :
      (is_present (get body "min_sol_refund_window_sec")
        && is_present (get body "max_sol_refund_window_sec")
        && number_lt
            (to_number (get body "max_sol_refund_window_sec"))
            (to_number (get body "min_sol_refund_window_sec")))
      ≡ false

validate_rfq-RfqWindow : (body : Value) → validate_rfq body ≡ ok tt → RfqWindow body
unfolding validate_rfq
validate_rfq-RfqWindow body h = ground arith

window_order :
    (a b : Value) (low high : ℕ)
    → a ≡ num (nat low)
    → b ≡ num (nat high)
    → (is_present a && is_present b && number_lt (to_number b) (to_number a)) ≡ false
    → low ≤ high
unfolding to_number
window_order a b low high p q h = ground arith

-- Where an accepted RFQ bounds the refund window from both sides, the bounds are in order and lie
-- between an hour and a week.
validate_rfq_window :
    (body : Value) (low high : ℕ)
    → get body "min_sol_refund_window_sec" ≡ num (nat low)
    → get body "max_sol_refund_window_sec" ≡ num (nat high)
    → validate_rfq body ≡ ok tt
    → (3600 ≤ low) × (low ≤ high) × (high ≤ 604800)
validate_rfq_window body low high p q h =
    let w = validate_rfq-RfqWindow body h in
    (
      (window_bounds (get body "min_sol_refund_window_sec") low _ _ _ p w.low).0,
      window_order (get body "min_sol_refund_window_sec") (get body "max_sol_refund_window_sec") low
          high p q w.order,
      (window_bounds (get body "max_sol_refund_window_sec") high _ _ _ q w.high).1,
    )

-- An accepted invoice gives its amount, where it gives one, as a text of digits.
pub validate_ln_invoice_amount :
    (body : Value)
    → validate_ln_invoice body ≡ ok tt
    → is_defined (get body "amount_msat") ≡ true
    → is_amount_string (get body "amount_msat") ≡ true
unfolding validate_ln_invoice
validate_ln_invoice_amount body h = ground arith
