-- ===== src/Swap/Machine/Payment.antt =====
-- The cases LN_INVOICE, SOL_ESCROW_CREATED and LN_PAID of `applySwapEnvelope`.
use swapfloor.Common.{not, ◌&&◌, ◌||◌, [], ◌∷◌, Result, ok, guard, when, ◌>>◌, ◌>>=◌, if◌then◌else◌}
use swapfloor.Js.Value.{
  Value, str, get, truthy, is_present, is_defined, number_eq, number_lt, strict_eq, to_text,
}
use swapfloor.Js.Convert.{to_number, big_int, times_1000}
use swapfloor.Swap.Constants.{State}
use swapfloor.Swap.Machine.Core.{
  in_state, Trade, state_eq, state_in, require_signer, same_hex, same_text, after, is_finite_time,
}

-- The amount of the invoice, where it is given, is that of the terms, in millisatoshi.
unfoldable pub check_amount : Value → Value → Result (Unit {0})
check_amount body terms = when (is_present (get body "amount_msat")) (do
  sats ← big_int (get terms "btc_sats")
  got ← big_int (str (to_text (get body "amount_msat")))
  guard (number_eq got (times_1000 sats)) "LN invoice amount_msat mismatch vs terms")

unfoldable pub check_invoice_expiry : Value → Value → Result (Unit {0})
check_invoice_expiry envelope body = when (is_present (get body "expires_at_unix")) (do
  guard (is_finite_time (get body "expires_at_unix")) "LN invoice invalid expires_at_unix"
  guard (not (after envelope (get body "expires_at_unix"))) "LN invoice already expired")

-- The details of an invoice stay as they were first announced.
unfoldable pub check_same_invoice : Value → Value → Result (Unit {0})
check_same_invoice prior body = do
  guard (same_hex (get prior "payment_hash_hex") (get body "payment_hash_hex"))
      "LN invoice payment_hash mismatch vs prior invoice"
  guard (same_text (get prior "bolt11") (get body "bolt11"))
      "LN invoice bolt11 mismatch vs prior invoice"
  guard
      (not (is_defined (get prior "amount_msat") && is_defined (get body "amount_msat"))
        || same_text (get prior "amount_msat") (get body "amount_msat"))
      "LN invoice amount_msat mismatch vs prior invoice"
  guard
      (not (is_defined (get prior "expires_at_unix") && is_defined (get body "expires_at_unix"))
        || number_eq (to_number (get prior "expires_at_unix"))
            (to_number (get body "expires_at_unix")))
      "LN invoice expires_at_unix mismatch vs prior invoice"

-- Evidence is kept where there is some, and taken from the body otherwise.
abbrev pub first_evidence : Value → Value → Value
first_evidence prior body = if truthy prior then prior else body

abbrev pub invoice_state : State → State
invoice_state s = if state_eq s State.accepted then State.invoice else s

unfoldable pub on_ln_invoice : Value → Trade → Result Trade
on_ln_invoice envelope next = do
  guard (state_in next.state (State.accepted ∷ State.invoice ∷ State.escrow ∷ []))
      (in_state "LN_INVOICE not allowed" next.state)
  guard (truthy next.terms) "LN_INVOICE requires terms"
  require_signer envelope (get next.terms "ln_receiver_peer") "ln_invoice"
  check_amount (get envelope "body") next.terms
  check_invoice_expiry envelope (get envelope "body")
  when (truthy next.invoice) (check_same_invoice next.invoice (get envelope "body"))
  ok (record next {
    invoice = first_evidence next.invoice (get envelope "body");
    state = invoice_state next.state;
  })

-- The escrow is the one that the terms ask for.
unfoldable pub check_escrow_terms : Value → Value → Result (Unit {0})
check_escrow_terms body terms = do
  guard (strict_eq (get body "recipient") (get terms "sol_recipient"))
      "SOL escrow recipient mismatch vs terms"
  guard (strict_eq (get body "refund") (get terms "sol_refund"))
      "SOL escrow refund mismatch vs terms"
  guard (strict_eq (get body "mint") (get terms "sol_mint")) "SOL escrow mint mismatch vs terms"
  guard (same_text (get body "amount") (get terms "usdt_amount"))
      "SOL escrow amount mismatch vs terms"
  guard
      (not (
        number_lt (to_number (get body "refund_after_unix"))
          (to_number (get terms "sol_refund_after_unix"))))
      "SOL escrow refund_after_unix earlier than terms"

unfoldable pub check_same_escrow : Value → Value → Result (Unit {0})
check_same_escrow prior body = do
  guard (same_text (get prior "escrow_pda") (get body "escrow_pda"))
      "SOL escrow escrow_pda mismatch vs prior escrow"
  guard (same_text (get prior "vault_ata") (get body "vault_ata"))
      "SOL escrow vault_ata mismatch vs prior escrow"
  guard (same_text (get prior "tx_sig") (get body "tx_sig"))
      "SOL escrow tx_sig mismatch vs prior escrow"

unfoldable pub on_sol_escrow_created : Value → Trade → Result Trade
unfolding check_escrow_terms check_same_escrow
on_sol_escrow_created envelope next = do
  guard (state_in next.state (State.invoice ∷ State.escrow ∷ []))
      (in_state "SOL_ESCROW_CREATED not allowed" next.state)
  guard (truthy next.terms) "SOL_ESCROW_CREATED requires terms"
  guard (truthy next.invoice) "SOL_ESCROW_CREATED requires invoice"
  require_signer envelope (get next.terms "ln_receiver_peer") "sol_escrow_created"
  guard
      (same_hex (get (get envelope "body") "payment_hash_hex")
        (get next.invoice "payment_hash_hex"))
      "SOL escrow payment_hash mismatch vs invoice"
  check_escrow_terms (get envelope "body") next.terms
  when (truthy next.escrow) (check_same_escrow next.escrow (get envelope "body"))
  ok (record next {
    escrow = first_evidence next.escrow (get envelope "body");
    state = State.escrow;
  })

unfoldable pub check_payable : Value → Value → Result (Unit {0})
check_payable envelope invoice = when (is_present (get invoice "expires_at_unix")) (do
  guard (is_finite_time (get invoice "expires_at_unix")) "LN_PAID invalid invoice expires_at_unix"
  guard (not (after envelope (get invoice "expires_at_unix"))) "LN_PAID after invoice expiry")

unfoldable pub on_ln_paid : Value → Trade → Result Trade
unfolding check_payable
on_ln_paid envelope next = do
  guard (state_in next.state (State.escrow ∷ State.ln_paid ∷ []))
      (in_state "LN_PAID not allowed" next.state)
  guard (truthy next.terms) "LN_PAID requires terms"
  guard (truthy next.invoice) "LN_PAID requires invoice"
  guard (truthy next.escrow) "LN_PAID requires escrow"
  require_signer envelope (get next.terms "ln_payer_peer") "ln_paid"
  guard
      (same_hex (get (get envelope "body") "payment_hash_hex")
        (get next.invoice "payment_hash_hex"))
      "LN_PAID payment_hash mismatch vs invoice"
  guard
      (same_hex (get (get envelope "body") "payment_hash_hex") (get next.escrow "payment_hash_hex"))
      "LN_PAID payment_hash mismatch vs escrow"
  check_payable envelope next.invoice
  when (truthy next.ln_paid) (
      guard
        (same_hex (get next.ln_paid "payment_hash_hex")
          (get (get envelope "body") "payment_hash_hex"))
        "LN_PAID payment_hash mismatch vs prior ln_paid")
  ok (record next {
    ln_paid = first_evidence next.ln_paid (get envelope "body");
    state = State.ln_paid;
  })
