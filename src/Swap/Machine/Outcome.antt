-- ===== src/Swap/Machine/Outcome.antt =====
-- The cases SOL_CLAIMED, SOL_REFUNDED, CANCEL and STATUS of `applySwapEnvelope`.
use Prim.Native.String
use swapfloor.Common.{not, [], ◌∷◌, Result, ok, guard, when, ◌>>◌, if◌then◌else◌}
use swapfloor.Js.Value.{Value, null, get, truthy, is_present}
use swapfloor.Swap.Constants.{State, state_name}
use swapfloor.Swap.Machine.Core.{
  in_state, Trade, state_eq, state_in, require_signer, same_hex, same_text, before, is_finite_time,
}
use swapfloor.Swap.Machine.Payment.{first_evidence}

unfoldable pub on_sol_claimed : Value → Trade → Result Trade
on_sol_claimed envelope next = do
  guard (state_in next.state (State.escrow ∷ State.ln_paid ∷ State.claimed ∷ []))
      (in_state "SOL_CLAIMED not allowed" next.state)
  guard (truthy next.terms) "SOL_CLAIMED requires terms"
  guard (truthy next.escrow) "SOL_CLAIMED requires escrow"
  require_signer envelope (get next.terms "ln_payer_peer") "sol_claimed"
  guard
      (same_hex (get (get envelope "body") "payment_hash_hex") (get next.escrow "payment_hash_hex"))
      "SOL_CLAIMED payment_hash mismatch vs escrow"
  guard (same_text (get (get envelope "body") "escrow_pda") (get next.escrow "escrow_pda"))
      "SOL_CLAIMED escrow_pda mismatch vs escrow"
  when (truthy next.claimed) (
      guard (same_text (get next.claimed "tx_sig") (get (get envelope "body") "tx_sig"))
        "SOL_CLAIMED tx_sig mismatch vs prior claim")
  ok (record next {
    claimed = first_evidence next.claimed (get envelope "body");
    state = State.claimed;
  })

-- The time from which the escrow pays back.
unfoldable pub check_refund_time : Value → Value → Result (Unit {0})
check_refund_time envelope escrow = when (is_present (get escrow "refund_after_unix")) (do
  guard (is_finite_time (get escrow "refund_after_unix")) "SOL_REFUNDED invalid refund_after_unix"
  guard (not (before envelope (get escrow "refund_after_unix"))) "SOL_REFUNDED too early")

unfoldable pub on_sol_refunded : Value → Trade → Result Trade
unfolding check_refund_time
on_sol_refunded envelope next = do
  guard (state_in next.state (State.escrow ∷ State.refunded ∷ []))
      (in_state "SOL_REFUNDED not allowed" next.state)
  guard (truthy next.terms) "SOL_REFUNDED requires terms"
  guard (truthy next.escrow) "SOL_REFUNDED requires escrow"
  require_signer envelope (get next.terms "ln_receiver_peer") "sol_refunded"
  guard
      (same_hex (get (get envelope "body") "payment_hash_hex") (get next.escrow "payment_hash_hex"))
      "SOL_REFUNDED payment_hash mismatch vs escrow"
  guard (same_text (get (get envelope "body") "escrow_pda") (get next.escrow "escrow_pda"))
      "SOL_REFUNDED escrow_pda mismatch vs escrow"
  check_refund_time envelope next.escrow
  when (truthy next.refunded) (
      guard (same_text (get next.refunded "tx_sig") (get (get envelope "body") "tx_sig"))
        "SOL_REFUNDED tx_sig mismatch vs prior refund")
  ok (record next {
    refunded = first_evidence next.refunded (get envelope "body");
    state = State.refunded;
  })

-- No signer is asked for.
unfoldable pub cancel_open : Value → Trade → Result Trade
cancel_open envelope next = do
  guard (not (state_in next.state (State.claimed ∷ State.refunded ∷ [])))
      (String.◌++◌ "CANCEL not allowed in terminal state=" (state_name next.state))
  guard (not (state_in next.state (State.escrow ∷ State.ln_paid ∷ []))) (
      String.◌++◌ "CANCEL not allowed after escrow creation (state="
        (String.◌++◌ (state_name next.state) ")"))
  ok (record next {
    state = State.canceled;
    canceled_reason =
        if truthy (get (get envelope "body") "reason")
        then get (get envelope "body") "reason"
        else null;
  })

unfoldable pub on_cancel : Value → Trade → Result Trade
unfolding cancel_open
on_cancel envelope next =
    if state_eq next.state State.canceled then ok next else cancel_open envelope next

unfoldable pub on_status : Trade → Result Trade
on_status next = ok next
