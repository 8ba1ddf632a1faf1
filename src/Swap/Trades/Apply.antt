-- ===== src/Swap/Trades/Apply.antt =====
-- A successful `applySwapEnvelope`, taken apart into its checks and the effect of its case.
use swapfloor.Common.{true, ok, ◌≡◌, arith, Option, some, >>-eq-ok, guard->>}
use swapfloor.Js.Value.{Value, get, truthy, strict_eq, is_object}
use swapfloor.Swap.Constants.{
  Kind, accept, cancel, status, ln_invoice, sol_escrow_created, sol_claimed, sol_refunded,
}
use swapfloor.Swap.Schema.{validate_swap_envelope, validate_swap_body, kind_of_value}
use swapfloor.Swap.Envelope.{Crypto, verify_signed_envelope}
use swapfloor.Swap.Machine.{dispatch, apply_swap_envelope}
use swapfloor.Swap.Machine.Core.{Trade, with_last}
use swapfloor.Swap.Trades.Accepts.{
  Proposed, Agreed, Invoiced, Locked, Paid, Claimed, Refunded, Canceled, on_terms-Proposed,
  on_accept-Agreed, on_ln_invoice-Invoiced, on_sol_escrow_created-Locked, on_ln_paid-Paid,
  on_sol_claimed-Claimed, on_sol_refunded-Refunded, on_cancel-Canceled,
}
use swapfloor.Swap.Machine.Outcome.{on_status}

abbrev pub Effect : Crypto → Option Kind → Value → Trade → Trade → Type 0
Effect crypto (some Kind.terms) e next t = Proposed e next t crypto
Effect crypto (some accept) e next t = Agreed e next t
Effect crypto (some ln_invoice) e next t = Invoiced e next t
Effect crypto (some sol_escrow_created) e next t = Locked e next t
Effect crypto (some Kind.ln_paid) e next t = Paid e next t
Effect crypto (some sol_claimed) e next t = Claimed e next t
Effect crypto (some sol_refunded) e next t = Refunded e next t
Effect crypto (some cancel) e next t = Canceled e next t
Effect crypto (some status) e next t = t ≡ next
Effect crypto _ e next t = ⊥

module _ (crypto : Crypto) where
  dispatch-Effect :
      (k : Option Kind) (e : Value) (next t : Trade)
      → dispatch crypto k e next ≡ ok t
      → Effect crypto k e next t
  unfolding dispatch on_status
  dispatch-Effect (some Kind.terms) e next t h = on_terms-Proposed e next t crypto h
  dispatch-Effect (some accept) e next t h = on_accept-Agreed e next t h
  dispatch-Effect (some ln_invoice) e next t h = on_ln_invoice-Invoiced e next t h
  dispatch-Effect (some sol_escrow_created) e next t h = on_sol_escrow_created-Locked e next t h
  dispatch-Effect (some Kind.ln_paid) e next t h = on_ln_paid-Paid e next t h
  dispatch-Effect (some sol_claimed) e next t h = on_sol_claimed-Claimed e next t h
  dispatch-Effect (some sol_refunded) e next t h = on_sol_refunded-Refunded e next t h
  dispatch-Effect (some cancel) e next t h = on_cancel-Canceled e next t h
  dispatch-Effect (some status) e next t h = ground arith
  dispatch-Effect _ e next t h = cc

  pub record Applied (trade : Trade) (e : Value) (t : Trade) : Type 0 where
    pub valid : validate_swap_envelope e ≡ ok tt
    pub same_trade : strict_eq (get e "trade_id") trade.trade_id ≡ true
    pub verified : verify_signed_envelope crypto e ≡ ok tt
    pub effect : Effect crypto (kind_of_value (get e "kind")) e (with_last trade e) t

  pub apply-Applied :
      (trade : Trade) (e : Value) (t : Trade)
      → apply_swap_envelope crypto trade e ≡ ok t
      → Applied trade e t
  unfolding apply_swap_envelope
  apply-Applied trade e t h =
      let (valid, h') = >>-eq-ok _ _ h in
      let (same, h'') = guard->> _ _ _ h' in
      let (verified, done) = >>-eq-ok _ _ h'' in
      record {
        valid = valid;
        same_trade = same;
        verified = verified;
        effect = dispatch-Effect (kind_of_value (get e "kind")) e (with_last trade e) t done;
      }

-- A valid envelope has an object for its body.
pub body_is_object :
    (e : Value) → validate_swap_envelope e ≡ ok tt → is_object (get e "body") ≡ true
unfolding validate_swap_envelope validate_swap_body
body_is_object e h = let (shape, h') = >>-eq-ok _ _ h in (guard->> _ _ _ h').0

pub truthy_of_is_object : (v : Value) → is_object v ≡ true → truthy v ≡ true
truthy_of_is_object v h = ground arith
