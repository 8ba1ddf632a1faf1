-- ===== src/Swap/Tests/Theorems.antt =====
-- The theorems of the state machine at the sample swap.
use swapfloor.Common.{◌*◌, ◌≤◌, true, false, ◌≡◌, refl, some, [], ◌∷◌, ok}
use swapfloor.Js.Text.{trim, codes, digits_value}
use swapfloor.Js.Value.{get}
use swapfloor.Js.Convert.{normalize_hex}
use swapfloor.Swap.Constants.{Kind, State}
use swapfloor.Swap.Schema.{kind_of_value}
use swapfloor.Swap.Envelope.{verify_signed_envelope}
use swapfloor.Swap.Machine.{apply_swap_envelope, apply_all}
use swapfloor.Swap.Machine.Core.{Trade}
use swapfloor.Swap.Trades.Invariant.{IsConsistent, is_locked}
use swapfloor.Swap.Trades.Preserved.{apply_all-IsConsistent}
use swapfloor.Swap.Trades.Agreement.{Agrees, locked-Agrees}
use swapfloor.Swap.Trades.Graph.{Edge, apply-Edge}
use swapfloor.Swap.Trades.History.{
  KeepsTerms, KeepsEscrow, apply_all-KeepsTerms, apply_all-KeepsEscrow, apply_all-final,
}
use swapfloor.Swap.Trades.Authority.{
  apply_signer, refund_not_early, paid_not_late, accepted_not_late, invoice_amount,
  cancel_by_anyone,
}
use swapfloor.Swap.Trades.Replay.{apply_again}
use swapfloor.Swap.Tests.Sample.{
  machine, toy, text, fresh, at_terms, at_accepted, at_invoice, at_escrow, at_paid, at_claimed,
  at_refunded, propose, agree, bill, lock, pay, claim, refund, stranger_cancel, to_escrow,
  to_claimed,
}
use swapfloor.Swap.Tests.Runs.{created, step_paid, step_claimed, step_refunded}

apply_all-IsConsistent_example : IsConsistent (apply_all toy fresh to_claimed)
apply_all-IsConsistent_example = apply_all-IsConsistent toy (text "t1") fresh to_claimed created

locked-Agrees_example : Agrees (apply_all toy fresh to_claimed)
unfolding machine
locked-Agrees_example = locked-Agrees toy (text "t1") fresh to_claimed created refl

apply-Edge_example :
    (k : Kind) × (kind_of_value (get pay "kind") ≡ some k) × Edge k at_escrow.state at_paid.state
unfolding machine
apply-Edge_example = apply-Edge toy at_escrow pay at_paid refl

apply_all-KeepsTerms_example :
    KeepsTerms at_accepted (apply_all toy at_accepted (propose ∷ bill ∷ lock ∷ []))
unfolding machine
apply_all-KeepsTerms_example =
    apply_all-KeepsTerms toy at_accepted (propose ∷ bill ∷ lock ∷ []) refl

apply_all-KeepsEscrow_example :
    KeepsEscrow
      (apply_all toy fresh to_escrow)
      (apply_all toy (apply_all toy fresh to_escrow) (stranger_cancel ∷ lock ∷ pay ∷ claim ∷ []))
unfolding machine
apply_all-KeepsEscrow_example =
    apply_all-KeepsEscrow toy (apply_all toy fresh to_escrow)
      (stranger_cancel ∷ lock ∷ pay ∷ claim ∷ [])
      (apply_all-IsConsistent toy (text "t1") fresh to_escrow created) refl

apply_all-final_example :
    (apply_all toy at_claimed (refund ∷ stranger_cancel ∷ [])).state ≡ at_claimed.state
unfolding machine
apply_all-final_example = apply_all-final toy at_claimed (refund ∷ stranger_cancel ∷ []) refl

apply_signer_example :
    (normalize_hex (get claim "signer") ≡ normalize_hex (get at_paid.terms "ln_payer_peer"))
    × (at_claimed.terms ≡ at_paid.terms)
    × (verify_signed_envelope toy claim ≡ ok tt)
unfolding machine
apply_signer_example =
    apply_signer toy at_paid claim at_claimed Kind.sol_claimed "ln_payer_peer" refl refl
      step_claimed

refund_not_early_example : 9000 * 1000 ≤ 9000000
unfolding machine
refund_not_early_example =
    refund_not_early toy at_escrow refund at_refunded 9000 9000000 refl refl refl step_refunded

paid_not_late_example : 5000 ≤ 200 * 1000
unfolding machine
paid_not_late_example = paid_not_late toy at_escrow pay at_paid 200 5000 refl refl refl step_paid

accepted_not_late_example : 2000 ≤ 100 * 1000
unfolding machine
accepted_not_late_example =
    accepted_not_late toy at_terms agree at_accepted 100 2000 refl refl refl refl refl

invoice_amount_example :
    (digits_value 0 (trim (codes "50000")) ≡ 50 * 1000) × (at_invoice.terms ≡ at_accepted.terms)
unfolding machine
invoice_amount_example =
    invoice_amount toy at_accepted bill at_invoice 50 (codes "50000") refl refl refl refl

cancel_by_anyone_example :
    (is_locked at_invoice.state ≡ false
      → (t : Trade) × (apply_swap_envelope toy at_invoice stranger_cancel ≡ ok t)
        × (t.state ≡ State.canceled))
    × (is_locked at_invoice.state ≡ true
        → (t : Trade) → ¬ (apply_swap_envelope toy at_invoice stranger_cancel ≡ ok t))
unfolding machine
cancel_by_anyone_example = cancel_by_anyone toy at_invoice stranger_cancel refl refl refl refl

apply_again_example : apply_swap_envelope toy at_invoice bill ≡ ok at_invoice
unfolding machine
apply_again_example = apply_again toy at_accepted bill at_invoice refl
