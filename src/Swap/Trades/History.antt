-- ===== src/Swap/Trades/History.antt =====
-- What later envelopes cannot change.
use swapfloor.Common.{
  Bool, true, false, Result, ok, err, ◌≡◌, refl, ◌∙◌, arith, Option, some, List, [], ◌∷◌, inl, inr,
}
use swapfloor.Js.Value.{Value, get, truthy}
use swapfloor.Swap.Constants.{
  Kind, State, accept, cancel, status, ln_invoice, sol_escrow_created, sol_claimed, sol_refunded,
}
use swapfloor.Swap.Schema.{kind_of_value}
use swapfloor.Swap.Envelope.{Crypto}
use swapfloor.Swap.Machine.{apply_swap_envelope, apply_all, kept}
use swapfloor.Swap.Machine.Core.{Trade, with_last, state_in}
use swapfloor.Swap.Trades.Apply.{Effect, apply-Applied}
use swapfloor.Swap.Trades.Invariant.{IsConsistent, is_locked}
use swapfloor.Swap.Trades.Preserved.{apply-IsConsistent}
use swapfloor.Swap.Trades.Graph
use swapfloor.Swap.Trades.Graph.{Edge, apply-Edge}

abbrev pub is_early : State → Bool
is_early s = state_in s (State.init ∷ State.terms ∷ [])

abbrev pub is_final : State → Bool
is_final s = state_in s (State.claimed ∷ State.refunded ∷ State.canceled ∷ [])

-- The agreement of `t` is that of `s`, and stays closed to new terms.
pub record KeepsTerms (s t : Trade) : Type 0 where
  pub terms : t.terms ≡ s.terms
  pub hash : t.terms_hash ≡ s.terms_hash
  pub accepted_at : t.accepted_at ≡ s.accepted_at
  pub closed : is_early t.state ≡ false

-- The evidence on which money moves is that of `s`, and `t` is locked too.
pub record KeepsEscrow (s t : Trade) : Type 0 where
  pub terms : t.terms ≡ s.terms
  pub invoice : t.invoice ≡ s.invoice
  pub escrow : t.escrow ≡ s.escrow
  pub locked : is_locked t.state ≡ true

final_edge : {k : Kind} {s t : State} → Edge k s t → is_final s ≡ true → t ≡ s
final_edge Graph.stay h = refl
final_edge _ h = cc

module _ (crypto : Crypto) where
  Effect-KeepsTerms :
      (k : Option Kind) (e : Value) (next t : Trade)
      → is_early next.state ≡ false
      → Effect crypto k e next t
      → KeepsTerms next t
  Effect-KeepsTerms (some Kind.terms) e next t late a = elim (a.outcome) [
    | inl (early, same) ↦ cc
    | inr (still, hash, same) ↦ rw same (ground arith)
  ]
  Effect-KeepsTerms (some accept) e next t late a = elim (a.outcome) [
    | inl (early, window, same) ↦ ground arith
    | inr (still, same) ↦ rw same (ground arith)
  ]
  Effect-KeepsTerms (some ln_invoice) e next t late a = rw (a.outcome) (ground arith)
  Effect-KeepsTerms (some sol_escrow_created) e next t late a = rw (a.outcome) (ground arith)
  Effect-KeepsTerms (some Kind.ln_paid) e next t late a = rw (a.outcome) (ground arith)
  Effect-KeepsTerms (some sol_claimed) e next t late a = rw (a.outcome) (ground arith)
  Effect-KeepsTerms (some sol_refunded) e next t late a = rw (a.outcome) (ground arith)
  Effect-KeepsTerms (some cancel) e next t late a = elim a [
    | inl (done, same) ↦ rw same (ground arith)
    | inr (early, same) ↦ rw same (ground arith)
  ]
  Effect-KeepsTerms (some status) e next t late a = rw a (ground arith)
  Effect-KeepsTerms _ e next t late a = absurd a

  Effect-KeepsEscrow :
      (k : Option Kind) (e : Value) (next t : Trade)
      → is_locked next.state ≡ true
      → truthy next.invoice ≡ true
      → truthy next.escrow ≡ true
      → Effect crypto k e next t
      → KeepsEscrow next t
  Effect-KeepsEscrow (some Kind.terms) e next t late i x a = elim (a.outcome) [
    | inl (early, same) ↦ ground arith
    | inr (still, hash, same) ↦ rw same (ground arith)
  ]
  Effect-KeepsEscrow (some accept) e next t late i x a = elim (a.outcome) [
    | inl (early, window, same) ↦ ground arith
    | inr (still, same) ↦ rw same (ground arith)
  ]
  Effect-KeepsEscrow (some ln_invoice) e next t late i x a = rw (a.outcome) (ground arith)
  Effect-KeepsEscrow (some sol_escrow_created) e next t late i x a = rw (a.outcome) (ground arith)
  Effect-KeepsEscrow (some Kind.ln_paid) e next t late i x a = rw (a.outcome) (ground arith)
  Effect-KeepsEscrow (some sol_claimed) e next t late i x a = rw (a.outcome) (ground arith)
  Effect-KeepsEscrow (some sol_refunded) e next t late i x a = rw (a.outcome) (ground arith)
  Effect-KeepsEscrow (some cancel) e next t late i x a = elim a [
    | inl (done, same) ↦ ground arith
    | inr (early, same) ↦ ground arith
  ]
  Effect-KeepsEscrow (some status) e next t late i x a = rw a (ground arith)
  Effect-KeepsEscrow _ e next t late i x a = absurd a

  -- One envelope, accepted or not.
  kept-KeepsTerms :
      (trade : Trade) (e : Value) (r : Result Trade)
      → apply_swap_envelope crypto trade e ≡ r
      → is_early trade.state ≡ false
      → KeepsTerms trade (kept trade r)
  unfolding kept
  kept-KeepsTerms trade e (ok t) h late =
      let k =
        Effect-KeepsTerms (kind_of_value (get e "kind")) e (with_last trade e) t late
          (apply-Applied crypto trade e t h).effect in
      record { terms = k.terms; hash = k.hash; accepted_at = k.accepted_at; closed = k.closed }
  kept-KeepsTerms trade e (err x) h late = ground arith

  -- Once the terms are accepted or the trade is canceled, no sequence of envelopes changes the
  -- terms, their hash or the time of acceptance, or leads back to a state that takes new terms.
  pub apply_all-KeepsTerms :
      (trade : Trade) (es : List Value)
      → is_early trade.state ≡ false
      → KeepsTerms trade (apply_all crypto trade es)
  unfolding apply_all
  apply_all-KeepsTerms trade [] late = ground arith
  apply_all-KeepsTerms trade (e ∷ es) late =
      let one = kept-KeepsTerms trade e (apply_swap_envelope crypto trade e) refl late in
      let rest =
        apply_all-KeepsTerms (kept trade (apply_swap_envelope crypto trade e)) es one.closed in
      record {
        terms = rest.terms ∙ one.terms;
        hash = rest.hash ∙ one.hash;
        accepted_at = rest.accepted_at ∙ one.accepted_at;
        closed = rest.closed;
      }

  kept-KeepsEscrow :
      (trade : Trade) (e : Value) (r : Result Trade)
      → apply_swap_envelope crypto trade e ≡ r
      → IsConsistent trade
      → is_locked trade.state ≡ true
      → KeepsEscrow trade (kept trade r) × IsConsistent (kept trade r)
  unfolding kept
  kept-KeepsEscrow trade e (ok t) h v late =
      let k =
        Effect-KeepsEscrow (kind_of_value (get e "kind")) e (with_last trade e) t late
          (v.has_invoice (ground arith)) (v.has_escrow late)
          (apply-Applied crypto trade e t h).effect in
      (
        record { terms = k.terms; invoice = k.invoice; escrow = k.escrow; locked = k.locked },
        apply-IsConsistent crypto trade e t v h,
      )
  kept-KeepsEscrow trade e (err x) h v late = (ground arith, v)

  -- Once the escrow of a consistent trade is recorded, no sequence of envelopes changes its terms,
  -- its invoice or its escrow, or cancels it.
  pub apply_all-KeepsEscrow :
      (trade : Trade) (es : List Value)
      → IsConsistent trade
      → is_locked trade.state ≡ true
      → KeepsEscrow trade (apply_all crypto trade es)
  unfolding apply_all
  apply_all-KeepsEscrow trade [] v late = ground arith
  apply_all-KeepsEscrow trade (e ∷ es) v late =
      let (one, w) = kept-KeepsEscrow trade e (apply_swap_envelope crypto trade e) refl v late in
      let rest =
        apply_all-KeepsEscrow (kept trade (apply_swap_envelope crypto trade e)) es w one.locked in
      record {
        terms = rest.terms ∙ one.terms;
        invoice = rest.invoice ∙ one.invoice;
        escrow = rest.escrow ∙ one.escrow;
        locked = rest.locked;
      }

  kept-final :
      (trade : Trade) (e : Value) (r : Result Trade)
      → apply_swap_envelope crypto trade e ≡ r
      → is_final trade.state ≡ true
      → (kept trade r).state ≡ trade.state
  unfolding kept
  kept-final trade e (ok t) h f =
      let (k, known, edge) = apply-Edge crypto trade e t h in final_edge edge f
  kept-final trade e (err x) h f = refl

  -- A claimed, refunded or canceled trade stays so under every sequence of envelopes; in
  -- particular a trade is never claimed and refunded.
  pub apply_all-final :
      (trade : Trade) (es : List Value)
      → is_final trade.state ≡ true
      → (apply_all crypto trade es).state ≡ trade.state
  unfolding apply_all
  apply_all-final trade [] f = refl
  apply_all-final trade (e ∷ es) f =
      let one = kept-final trade e (apply_swap_envelope crypto trade e) refl f in
      apply_all-final (kept trade (apply_swap_envelope crypto trade e)) es (rw one f) ∙ one
