-- ===== src/Swap/Machine.antt =====
-- src/swap/stateMachine.js: how a signed envelope changes a trade.
pub mod Core
pub mod Negotiation
pub mod Payment
pub mod Outcome
use swapfloor.Common.{Option, none, some, Result, ok, err, refused, guard, ◌>>◌, List, [], ◌∷◌}
use swapfloor.Js.Value.{Value, get, strict_eq}
use swapfloor.Swap.Constants.{
  Kind, accept, cancel, status, ln_invoice, sol_escrow_created, sol_claimed, sol_refunded,
}
use swapfloor.Swap.Schema.{validate_swap_envelope, kind_of_value}
use swapfloor.Swap.Envelope.{Crypto, verify_signed_envelope}
use Core.{Trade, with_last}
use Negotiation.{on_terms, on_accept}
use Payment.{on_ln_invoice, on_sol_escrow_created, on_ln_paid}
use Outcome.{on_sol_claimed, on_sol_refunded, on_cancel, on_status}

-- The `switch` on the kind of the envelope.
unfoldable pub dispatch : Crypto → Option Kind → Value → Trade → Result Trade
dispatch crypto (some Kind.terms) envelope next = on_terms crypto envelope next
dispatch crypto (some accept) envelope next = on_accept envelope next
dispatch crypto (some ln_invoice) envelope next = on_ln_invoice envelope next
dispatch crypto (some sol_escrow_created) envelope next = on_sol_escrow_created envelope next
dispatch crypto (some Kind.ln_paid) envelope next = on_ln_paid envelope next
dispatch crypto (some sol_claimed) envelope next = on_sol_claimed envelope next
dispatch crypto (some sol_refunded) envelope next = on_sol_refunded envelope next
dispatch crypto (some cancel) envelope next = on_cancel envelope next
dispatch crypto (some status) envelope next = on_status next
dispatch crypto _ envelope next = err (refused "Unhandled kind")

unfoldable pub apply_swap_envelope : Crypto → Trade → Value → Result Trade
apply_swap_envelope crypto trade envelope = do
  validate_swap_envelope envelope
  guard (strict_eq (get envelope "trade_id") trade.trade_id) "trade_id mismatch"
  verify_signed_envelope crypto envelope
  dispatch crypto (kind_of_value (get envelope "kind")) envelope (with_last trade envelope)

-- A sequence of envelopes: one that is refused leaves the trade as it was.
unfoldable pub kept : Trade → Result Trade → Trade
kept trade (ok next) = next
kept trade (err e) = trade

unfoldable pub apply_all : Crypto → Trade → List Value → Trade
unfolding kept
apply_all crypto trade [] = trade
apply_all crypto trade (e ∷ es) =
    apply_all crypto (kept trade (apply_swap_envelope crypto trade e)) es
