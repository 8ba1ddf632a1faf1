-- ===== src/Swap/Trades/Returns.antt =====
-- The cases of `applySwapEnvelope` answer by results, and not by exceptions.
use swapfloor.Common.{
  ℕ, ◌*◌, ◌==◌, Bool-cases, String, Bool, true, false, Result, ok, ◌≡◌, refl, arith, if◌then◌else◌,
  inl, inr, ◌>>◌, Returns, returns, guard-Returns, guard->>-Returns, >>-Returns,
}
use swapfloor.Js.Text.{trim, digits_value}
use swapfloor.Js.Value.{Value, num, nat, str, get, to_text, is_present, is_defined}
use swapfloor.Js.Convert.{big_int}
use swapfloor.Swap.Schema.Field.{is_pos_int, is_amount_string}
use swapfloor.Swap.Envelope.{Crypto}
use swapfloor.Swap.Machine.Core.{Trade, require_signer}
use swapfloor.Swap.Machine.Negotiation.{
  on_terms, on_accept, accept_first, accept_again, check_terms_window, terms_result,
}
use swapfloor.Swap.Machine.Payment.{
  on_ln_invoice, on_sol_escrow_created, on_ln_paid, check_amount, check_invoice_expiry,
  check_same_invoice, check_escrow_terms, check_same_escrow, check_payable,
}
use swapfloor.Swap.Machine.Outcome.{
  on_sol_claimed, on_sol_refunded, on_cancel, check_refund_time, cancel_open,
}

big_int_pos : (v : Value) → is_pos_int v ≡ true → (n : ℕ) × (big_int v ≡ ok (nat n))
unfolding is_pos_int big_int
big_int_pos (num (nat n)) h = (n, refl)
big_int_pos _ h = cc

big_int_amount :
    (v : Value) → is_amount_string v ≡ true → (n : ℕ) × (big_int (str (to_text v)) ≡ ok (nat n))
unfolding is_amount_string big_int to_text
big_int_amount (str s) h = (digits_value 0 (trim s), ground arith)
big_int_amount _ h = cc

pub check_amount-Returns :
    (body terms : Value)
    → is_pos_int (get terms "btc_sats") ≡ true
    → (is_defined (get body "amount_msat") ≡ true
        → is_amount_string (get body "amount_msat") ≡ true)
    → Returns (check_amount body terms)
check_amount-Returns body terms p q = elim (Bool-cases (is_present (get body "amount_msat"))) [
  | inl given ↦
      let (n, e) = big_int_pos (get terms "btc_sats") p in
      let (m, f) = big_int_amount (get body "amount_msat") (q (ground arith)) in
      unfold check_amount in
      rw (given, e, f) (guard-Returns (m == n * 1000) "LN invoice amount_msat mismatch vs terms")
  | inr absent ↦ unfold check_amount in rw absent tt
]

require_signer->>-Returns :
    (e peer : Value) (label : String) (k : Result Trade)
    → Returns k
    → Returns (require_signer e peer label >> k)
unfolding require_signer
require_signer->>-Returns e peer label k h = guard->>-Returns _ _ k h

ok-Returns : (t : Trade) → Returns (ok t)
ok-Returns t = tt

if-Returns : (b : Bool) (x y : Result Trade) → Returns x → Returns y → Returns (if b then x else y)
if-Returns true x y h k = h
if-Returns false x y h k = k

require_signer-Returns : (e peer : Value) (label : String) → Returns (require_signer e peer label)
unfolding require_signer
require_signer-Returns e peer label = guard-Returns _ _

ruleset handlers =
    (returns, require_signer->>-Returns, require_signer-Returns, ok-Returns, if-Returns)

check_invoice_expiry-Returns : (e body : Value) → Returns (check_invoice_expiry e body)
unfolding check_invoice_expiry
check_invoice_expiry-Returns e body = search returns depth 12

check_same_invoice-Returns : (prior body : Value) → Returns (check_same_invoice prior body)
unfolding check_same_invoice
check_same_invoice-Returns prior body = search returns depth 12

check_escrow_terms-Returns : (body terms : Value) → Returns (check_escrow_terms body terms)
unfolding check_escrow_terms
check_escrow_terms-Returns body terms = search returns depth 12

check_same_escrow-Returns : (prior body : Value) → Returns (check_same_escrow prior body)
unfolding check_same_escrow
check_same_escrow-Returns prior body = search returns depth 12

check_payable-Returns : (e invoice : Value) → Returns (check_payable e invoice)
unfolding check_payable
check_payable-Returns e invoice = search returns depth 12

check_refund_time-Returns : (e escrow : Value) → Returns (check_refund_time e escrow)
unfolding check_refund_time
check_refund_time-Returns e escrow = search returns depth 12

check_terms_window-Returns : (e : Value) (next : Trade) → Returns (check_terms_window e next)
unfolding check_terms_window
check_terms_window-Returns e next = search returns depth 12

module _ (crypto : Crypto) (e : Value) (next : Trade) where
  pub on_terms-Returns : Returns (on_terms crypto e next)
  unfolding on_terms terms_result
  on_terms-Returns = search handlers depth 20

  pub on_accept-Returns : Returns (on_accept e next)
  unfolding on_accept accept_first accept_again
  on_accept-Returns =
      search
        (
          handlers,
          λ (k : Result Trade) (h : Returns k).
              >>-Returns (check_terms_window e next) k (check_terms_window-Returns e next) h,
        )
        depth 20

  pub on_ln_invoice-Returns :
      Returns (check_amount (get e "body") next.terms) → Returns (on_ln_invoice e next)
  unfolding on_ln_invoice
  on_ln_invoice-Returns amount =
      search
        (
          handlers,
          λ (k : Result Trade) (h : Returns k).
              >>-Returns (check_amount (get e "body") next.terms) k amount h,
          λ (k : Result Trade) (h : Returns k).
              >>-Returns (check_invoice_expiry e (get e "body")) k
                (check_invoice_expiry-Returns e (get e "body")) h,
          check_same_invoice-Returns,
        )
        depth 20

  pub on_sol_escrow_created-Returns : Returns (on_sol_escrow_created e next)
  unfolding on_sol_escrow_created
  on_sol_escrow_created-Returns =
      search
        (
          handlers,
          λ (k : Result Trade) (h : Returns k).
              >>-Returns (check_escrow_terms (get e "body") next.terms) k
                (check_escrow_terms-Returns (get e "body") next.terms) h,
          check_same_escrow-Returns,
        )
        depth 20

  pub on_ln_paid-Returns : Returns (on_ln_paid e next)
  unfolding on_ln_paid
  on_ln_paid-Returns =
      search
        (
          handlers,
          λ (k : Result Trade) (h : Returns k).
              >>-Returns (check_payable e next.invoice) k (check_payable-Returns e next.invoice) h,
        )
        depth 20

  pub on_sol_claimed-Returns : Returns (on_sol_claimed e next)
  unfolding on_sol_claimed
  on_sol_claimed-Returns = search handlers depth 20

  pub on_sol_refunded-Returns : Returns (on_sol_refunded e next)
  unfolding on_sol_refunded
  on_sol_refunded-Returns =
      search
        (
          handlers,
          λ (k : Result Trade) (h : Returns k).
              >>-Returns (check_refund_time e next.escrow) k
                (check_refund_time-Returns e next.escrow) h,
        )
        depth 20

  pub on_cancel-Returns : Returns (on_cancel e next)
  unfolding on_cancel cancel_open
  on_cancel-Returns = search handlers depth 20
