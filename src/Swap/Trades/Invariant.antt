-- ===== src/Swap/Trades/Invariant.antt =====
-- The consistency of a trade's evidence, and that every envelope keeps it.
use swapfloor.Common.{Bool, true, false, [], ◌∷◌, ◌≡◌, arith, inl, inr}
use swapfloor.Js.Value.{Value, null, get, truthy}
use swapfloor.Swap.Constants.{State}
use swapfloor.Swap.Envelope.{Crypto}
use swapfloor.Swap.Machine.Core.{Trade, state_in, same_hex}
use swapfloor.Swap.Trades.Accepts.{
  MatchesTerms, Proposed, Agreed, Invoiced, Locked, Paid, Claimed, Refunded, Canceled,
}

abbrev pub is_agreed : State → Bool
is_agreed s = state_in s (
    State.accepted ∷ State.invoice ∷ State.escrow ∷ State.ln_paid ∷ State.claimed ∷ State.refunded
    ∷ [])

abbrev pub is_invoiced : State → Bool
is_invoiced s =
    state_in s (State.invoice ∷ State.escrow ∷ State.ln_paid ∷ State.claimed ∷ State.refunded ∷ [])

abbrev pub is_locked : State → Bool
is_locked s = state_in s (State.escrow ∷ State.ln_paid ∷ State.claimed ∷ State.refunded ∷ [])

pub record IsConsistent (t : Trade) : Type 0 where
  pub has_terms : is_agreed t.state ≡ true → truthy t.terms ≡ true
  pub has_invoice : is_invoiced t.state ≡ true → truthy t.invoice ≡ true
  pub has_escrow : is_locked t.state ≡ true → truthy t.escrow ≡ true
  pub one_hash :
      is_locked t.state ≡ true
      → same_hex (get t.escrow "payment_hash_hex") (get t.invoice "payment_hash_hex") ≡ true
  pub matches : is_locked t.state ≡ true → MatchesTerms t.escrow t.terms
  pub unlocked : is_locked t.state ≡ false → t.escrow ≡ null
  pub has_payment : t.state ≡ State.ln_paid → truthy t.ln_paid ≡ true
  pub has_claim : t.state ≡ State.claimed → truthy t.claimed ≡ true
  pub has_refund : t.state ≡ State.refunded → truthy t.refunded ≡ true

module _ (envelope : Value) (next : Trade) (v : IsConsistent next)
    (body_given : truthy (get envelope "body") ≡ true) (t : Trade) where
  pub Proposed-IsConsistent : (crypto : Crypto) → Proposed envelope next t crypto → IsConsistent t
  Proposed-IsConsistent crypto a = elim (a.outcome) [
    | inl (early, e) ↦ rw e (ground arith)
    | inr (late, same, e) ↦ rw e v
  ]

  pub Agreed-IsConsistent : Agreed envelope next t → IsConsistent t
  Agreed-IsConsistent a = elim (a.outcome) [
    | inl (early, window, e) ↦ rw e (ground arith)
    | inr (late, e) ↦ rw e v
  ]

  pub Invoiced-IsConsistent : Invoiced envelope next t → IsConsistent t
  Invoiced-IsConsistent a = rw (a.outcome) (ground arith)

  pub Locked-IsConsistent : Locked envelope next t → IsConsistent t
  Locked-IsConsistent a = rw (a.outcome) (ground arith)

  pub Paid-IsConsistent : Paid envelope next t → IsConsistent t
  Paid-IsConsistent a = rw (a.outcome) (ground arith)

  pub Claimed-IsConsistent : Claimed envelope next t → IsConsistent t
  Claimed-IsConsistent a = rw (a.outcome) (ground arith)

  pub Refunded-IsConsistent : Refunded envelope next t → IsConsistent t
  Refunded-IsConsistent a = rw (a.outcome) (ground arith)

  pub Canceled-IsConsistent : Canceled envelope next t → IsConsistent t
  Canceled-IsConsistent a = elim a [ inl (late, e) ↦ rw e v | inr (early, e) ↦ rw e (ground arith) ]
