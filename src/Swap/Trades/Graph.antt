-- ===== src/Swap/Trades/Graph.antt =====
-- The transition diagram of a trade.
use swapfloor.Common.{true, ok, subst, ◌≡◌, refl, Option, none, some, [], ◌∷◌, inl, inr}
use swapfloor.Js.Value.{Value, get}
use swapfloor.Swap.Constants.{
  Kind, State, accept, cancel, status, ln_invoice, sol_escrow_created, sol_claimed, sol_refunded,
}
use swapfloor.Swap.Schema.{kind_of_value}
use swapfloor.Swap.Envelope.{Crypto}
use swapfloor.Swap.Machine.{apply_swap_envelope}
use swapfloor.Swap.Machine.Core.{Trade, with_last, state_in}
use swapfloor.Swap.Machine.Payment.{invoice_state}
use swapfloor.Swap.Trades.Apply.{Effect, apply-Applied}

-- The moves that change the state, each with the kind of message that makes it; every message may
-- also leave the state as it is.
pub data Edge : Kind → State → State → Type 0 where
  stay : {k : Kind} {s : State} → Edge k s s
  propose : Edge Kind.terms State.init State.terms
  agree : Edge accept State.terms State.accepted
  bill : Edge ln_invoice State.accepted State.invoice
  lock : Edge sol_escrow_created State.invoice State.escrow
  pay : Edge Kind.ln_paid State.escrow State.ln_paid
  claim_unpaid : Edge sol_claimed State.escrow State.claimed
  claim : Edge sol_claimed State.ln_paid State.claimed
  refund : Edge sol_refunded State.escrow State.refunded
  abort_init : Edge cancel State.init State.canceled
  abort_terms : Edge cancel State.terms State.canceled
  abort_accepted : Edge cancel State.accepted State.canceled
  abort_invoice : Edge cancel State.invoice State.canceled

ruleset edges = (
  stay, propose, agree, bill, lock, pay, claim_unpaid, claim, refund, abort_init, abort_terms,
  abort_accepted, abort_invoice,
)

terms_edge :
    (s : State) → state_in s (State.init ∷ State.terms ∷ []) ≡ true → Edge Kind.terms s State.terms
terms_edge State.init h = propose
terms_edge State.terms h = stay
terms_edge _ h = cc

invoice_edge :
    (s : State)
    → state_in s (State.accepted ∷ State.invoice ∷ State.escrow ∷ []) ≡ true
    → Edge ln_invoice s (invoice_state s)
invoice_edge State.accepted h = bill
invoice_edge State.invoice h = stay
invoice_edge State.escrow h = stay
invoice_edge _ h = cc

escrow_edge :
    (s : State)
    → state_in s (State.invoice ∷ State.escrow ∷ []) ≡ true
    → Edge sol_escrow_created s State.escrow
escrow_edge State.invoice h = lock
escrow_edge State.escrow h = stay
escrow_edge _ h = cc

paid_edge :
    (s : State)
    → state_in s (State.escrow ∷ State.ln_paid ∷ []) ≡ true
    → Edge Kind.ln_paid s State.ln_paid
paid_edge State.escrow h = pay
paid_edge State.ln_paid h = stay
paid_edge _ h = cc

claimed_edge :
    (s : State)
    → state_in s (State.escrow ∷ State.ln_paid ∷ State.claimed ∷ []) ≡ true
    → Edge sol_claimed s State.claimed
claimed_edge State.escrow h = claim_unpaid
claimed_edge State.ln_paid h = claim
claimed_edge State.claimed h = stay
claimed_edge _ h = cc

refunded_edge :
    (s : State)
    → state_in s (State.escrow ∷ State.refunded ∷ []) ≡ true
    → Edge sol_refunded s State.refunded
refunded_edge State.escrow h = refund
refunded_edge State.refunded h = stay
refunded_edge _ h = cc

canceled_edge :
    (s : State)
    → state_in s (State.init ∷ State.terms ∷ State.accepted ∷ State.invoice ∷ []) ≡ true
    → Edge cancel s State.canceled
canceled_edge State.init h = abort_init
canceled_edge State.terms h = abort_terms
canceled_edge State.accepted h = abort_accepted
canceled_edge State.invoice h = abort_invoice
canceled_edge _ h = cc

module _ (crypto : Crypto) where
  Effect-Edge :
      (k : Kind) (e : Value) (next t : Trade)
      → Effect crypto (some k) e next t
      → Edge k next.state t.state
  Effect-Edge Kind.terms e next t a = elim (a.outcome) [
    | inl (early, same) ↦ rw same (terms_edge next.state early)
    | inr (late, hash, same) ↦ rw same stay
  ]
  Effect-Edge accept e next t a = elim (a.outcome) [
    | inl (early, window, same) ↦ rw (same, early) agree
    | inr (late, same) ↦ rw same stay
  ]
  Effect-Edge ln_invoice e next t a = rw (a.outcome) (invoice_edge next.state a.expected)
  Effect-Edge sol_escrow_created e next t a = rw (a.outcome) (escrow_edge next.state a.expected)
  Effect-Edge Kind.ln_paid e next t a = rw (a.outcome) (paid_edge next.state a.expected)
  Effect-Edge sol_claimed e next t a = rw (a.outcome) (claimed_edge next.state a.expected)
  Effect-Edge sol_refunded e next t a = rw (a.outcome) (refunded_edge next.state a.expected)
  Effect-Edge cancel e next t a = elim a [
    | inl (late, same) ↦ rw same stay
    | inr (early, same) ↦ rw same (canceled_edge next.state early)
  ]
  Effect-Edge status e next t a = rw a stay
  Effect-Edge _ e next t a = absurd a

  Effect-known :
      (k : Option Kind) (e : Value) (next t : Trade)
      → Effect crypto k e next t
      → (j : Kind) × (k ≡ some j)
  Effect-known none e next t a = absurd a
  Effect-known (some k) e next t a = (k, refl)

  -- An accepted envelope is of a known kind and moves the state along an edge of that kind.
  pub apply-Edge :
      (trade : Trade) (e : Value) (t : Trade)
      → apply_swap_envelope crypto trade e ≡ ok t
      → (k : Kind) × (kind_of_value (get e "kind") ≡ some k) × Edge k trade.state t.state
  apply-Edge trade e t h =
      let a = apply-Applied crypto trade e t h in
      let (k, known) =
        Effect-known (kind_of_value (get e "kind")) e (with_last trade e) t a.effect in
      (
        k,
        known,
        Effect-Edge k e (with_last trade e) t
            (subst (λ j. Effect crypto j e (with_last trade e) t) known a.effect),
      )
