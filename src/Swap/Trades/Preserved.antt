-- ===== src/Swap/Trades/Preserved.antt =====
-- Consistency over single envelopes and over whole histories.
use swapfloor.Common.{true, Result, ok, err, ◌≡◌, refl, arith, Option, some, List, [], ◌∷◌}
use swapfloor.Js.Value.{Value, get, truthy}
use swapfloor.Swap.Constants.{
  Kind, accept, cancel, status, ln_invoice, sol_escrow_created, sol_claimed, sol_refunded,
}
use swapfloor.Swap.Schema.{kind_of_value}
use swapfloor.Swap.Envelope.{Crypto}
use swapfloor.Swap.Machine.{apply_swap_envelope, apply_all, kept}
use swapfloor.Swap.Machine.Core.{Trade, with_last, create_initial_trade}
use swapfloor.Swap.Trades.Apply.{Effect, apply-Applied, body_is_object, truthy_of_is_object}
use swapfloor.Swap.Trades.Invariant.{
  IsConsistent, Proposed-IsConsistent, Agreed-IsConsistent, Invoiced-IsConsistent,
  Locked-IsConsistent, Paid-IsConsistent, Claimed-IsConsistent, Refunded-IsConsistent,
  Canceled-IsConsistent,
}

module _ (crypto : Crypto) where
  Effect-IsConsistent :
      (k : Option Kind) (e : Value) (next t : Trade)
      → IsConsistent next
      → truthy (get e "body") ≡ true
      → Effect crypto k e next t
      → IsConsistent t
  Effect-IsConsistent (some Kind.terms) e next t v b a = Proposed-IsConsistent e next v b t crypto a
  Effect-IsConsistent (some accept) e next t v b a = Agreed-IsConsistent e next v b t a
  Effect-IsConsistent (some ln_invoice) e next t v b a = Invoiced-IsConsistent e next v b t a
  Effect-IsConsistent (some sol_escrow_created) e next t v b a = Locked-IsConsistent e next v b t a
  Effect-IsConsistent (some Kind.ln_paid) e next t v b a = Paid-IsConsistent e next v b t a
  Effect-IsConsistent (some sol_claimed) e next t v b a = Claimed-IsConsistent e next v b t a
  Effect-IsConsistent (some sol_refunded) e next t v b a = Refunded-IsConsistent e next v b t a
  Effect-IsConsistent (some cancel) e next t v b a = Canceled-IsConsistent e next v b t a
  Effect-IsConsistent (some status) e next t v b a = rw a v
  Effect-IsConsistent _ e next t v b a = absurd a

  -- An envelope that is accepted leaves a consistent trade consistent: the terms, invoice and
  -- escrow that its state calls for are there, escrow and invoice share one payment hash, and the
  -- escrow is the one of the terms.
  pub apply-IsConsistent :
      (trade : Trade) (e : Value) (t : Trade)
      → IsConsistent trade
      → apply_swap_envelope crypto trade e ≡ ok t
      → IsConsistent t
  apply-IsConsistent trade e t v h =
      let a = apply-Applied crypto trade e t h in
      let w : IsConsistent (with_last trade e) = record {
        has_terms = v.has_terms;
        has_invoice = v.has_invoice;
        has_escrow = v.has_escrow;
        one_hash = v.one_hash;
        matches = v.matches;
        unlocked = v.unlocked;
        has_payment = v.has_payment;
        has_claim = v.has_claim;
        has_refund = v.has_refund;
      } in
      Effect-IsConsistent (kind_of_value (get e "kind")) e (with_last trade e) t w
        (truthy_of_is_object (get e "body") (body_is_object e a.valid)) a.effect

  kept-IsConsistent :
      (trade : Trade) (r : Result Trade)
      → IsConsistent trade
      → ((t : Trade) → r ≡ ok t → IsConsistent t)
      → IsConsistent (kept trade r)
  unfolding kept
  kept-IsConsistent trade (ok t) v f = f t refl
  kept-IsConsistent trade (err x) v f = v

  apply_all_from-IsConsistent :
      (trade : Trade) (es : List Value)
      → IsConsistent trade
      → IsConsistent (apply_all crypto trade es)
  unfolding apply_all
  apply_all_from-IsConsistent trade [] v = v
  apply_all_from-IsConsistent trade (e ∷ es) v =
      apply_all_from-IsConsistent (kept trade (apply_swap_envelope crypto trade e)) es (
        kept-IsConsistent trade (apply_swap_envelope crypto trade e) v
          (λ t h. apply-IsConsistent trade e t v h))

  -- Whatever envelopes arrive after its creation, in whatever order, a trade is consistent.
  pub apply_all-IsConsistent :
      (id : Value) (trade : Trade) (es : List Value)
      → create_initial_trade id ≡ ok trade
      → IsConsistent (apply_all crypto trade es)
  apply_all-IsConsistent id trade es h =
      apply_all_from-IsConsistent trade es (unfold create_initial_trade in ground arith)
