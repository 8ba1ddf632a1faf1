-- ===== src/Swap/Trades/Accepts.antt =====
-- What each case of `applySwapEnvelope` has checked when it succeeds, and the trade it returns.
use swapfloor.Common.{true, false, [], ◌∷◌, ok, ◌≡◌, arith, ◌⊎◌, if◌then◌else◌}
use swapfloor.Js.Text.{Text}
use swapfloor.Js.Value.{Value, null, str, get, truthy, strict_eq, number_lt}
use swapfloor.Js.Convert.{to_number}
use swapfloor.Swap.Constants.{State}
use swapfloor.Swap.Envelope.{Crypto, hash_unsigned_envelope, strip_signature}
use swapfloor.Swap.Machine.Core.{Trade, state_in, require_signer, signed_by, same_hex, same_text}
use swapfloor.Swap.Machine.Negotiation.{on_terms, on_accept, replace_terms, check_terms_window}
use swapfloor.Swap.Machine.Payment.{
  on_ln_invoice, on_sol_escrow_created, on_ln_paid, first_evidence, invoice_state, check_amount,
  check_invoice_expiry, check_same_invoice, check_same_escrow, check_payable,
}
use swapfloor.Swap.Machine.Outcome.{on_sol_claimed, on_sol_refunded, on_cancel, check_refund_time}

-- The escrow that was announced is the one that the terms ask for.
pub record MatchesTerms (escrow terms : Value) : Type 0 where
  pub recipient : strict_eq (get escrow "recipient") (get terms "sol_recipient") ≡ true
  pub refund : strict_eq (get escrow "refund") (get terms "sol_refund") ≡ true
  pub mint : strict_eq (get escrow "mint") (get terms "sol_mint") ≡ true
  pub amount : same_text (get escrow "amount") (get terms "usdt_amount") ≡ true
  pub not_early :
      number_lt
        (to_number (get escrow "refund_after_unix"))
        (to_number (get terms "sol_refund_after_unix"))
      ≡ false

abbrev pub hash_of : Crypto → Value → Text
hash_of crypto envelope = hash_unsigned_envelope crypto (strip_signature envelope)

module _ (envelope : Value) (next t : Trade) where
  pub record Proposed (crypto : Crypto) : Type 0 where
    pub signed : signed_by envelope (get (get envelope "body") "ln_receiver_peer") ≡ true
    pub locked :
        truthy next.terms ≡ true → signed_by envelope (get next.terms "ln_receiver_peer") ≡ true
    pub outcome :
        ((state_in next.state (State.init ∷ State.terms ∷ []) ≡ true)
          × (t ≡ replace_terms next (get envelope "body") (hash_of crypto envelope)))
        ⊎ ((state_in next.state (State.init ∷ State.terms ∷ []) ≡ false)
            × (same_hex next.terms_hash (str (hash_of crypto envelope)) ≡ true)
            × (t ≡ next))

  pub on_terms-Proposed : (crypto : Crypto) → on_terms crypto envelope next ≡ ok t → Proposed crypto
  unfolding on_terms require_signer
  on_terms-Proposed crypto h = ground arith

  pub record Agreed : Type 0 where
    pub has_terms : truthy next.terms ≡ true
    pub has_hash : truthy next.terms_hash ≡ true
    pub signed : signed_by envelope (get next.terms "ln_payer_peer") ≡ true
    pub hash : same_hex (get (get envelope "body") "terms_hash") next.terms_hash ≡ true
    pub outcome :
        ((next.state ≡ State.terms)
          × (check_terms_window envelope next ≡ ok tt)
          × (t ≡ record next { state = State.accepted; accepted_at = get envelope "ts" }))
        ⊎ ((state_in next.state (State.terms ∷ State.canceled ∷ []) ≡ false) × (t ≡ next))

  pub on_accept-Agreed : on_accept envelope next ≡ ok t → Agreed
  unfolding on_accept require_signer
  on_accept-Agreed h = ground arith

  pub record Invoiced : Type 0 where
    pub expected : state_in next.state (State.accepted ∷ State.invoice ∷ State.escrow ∷ []) ≡ true
    pub has_terms : truthy next.terms ≡ true
    pub signed : signed_by envelope (get next.terms "ln_receiver_peer") ≡ true
    pub amount : check_amount (get envelope "body") next.terms ≡ ok tt
    pub expiry : check_invoice_expiry envelope (get envelope "body") ≡ ok tt
    pub stable :
        truthy next.invoice ≡ true → check_same_invoice next.invoice (get envelope "body") ≡ ok tt
    pub outcome : t ≡ record next {
      invoice = first_evidence next.invoice (get envelope "body");
      state = invoice_state next.state;
    }

  pub on_ln_invoice-Invoiced : on_ln_invoice envelope next ≡ ok t → Invoiced
  unfolding on_ln_invoice require_signer
  on_ln_invoice-Invoiced h = ground arith

  pub record Locked : Type 0 where
    pub expected : state_in next.state (State.invoice ∷ State.escrow ∷ []) ≡ true
    pub has_terms : truthy next.terms ≡ true
    pub has_invoice : truthy next.invoice ≡ true
    pub signed : signed_by envelope (get next.terms "ln_receiver_peer") ≡ true
    pub one_hash :
        same_hex
          (get (get envelope "body") "payment_hash_hex")
          (get next.invoice "payment_hash_hex")
        ≡ true
    pub matches : MatchesTerms (get envelope "body") next.terms
    pub stable :
        truthy next.escrow ≡ true → check_same_escrow next.escrow (get envelope "body") ≡ ok tt
    pub outcome : t ≡ record next {
      escrow = first_evidence next.escrow (get envelope "body");
      state = State.escrow;
    }

  pub on_sol_escrow_created-Locked : on_sol_escrow_created envelope next ≡ ok t → Locked
  unfolding on_sol_escrow_created require_signer
  on_sol_escrow_created-Locked h = ground arith

  pub record Paid : Type 0 where
    pub expected : state_in next.state (State.escrow ∷ State.ln_paid ∷ []) ≡ true
    pub has_terms : truthy next.terms ≡ true
    pub has_invoice : truthy next.invoice ≡ true
    pub has_escrow : truthy next.escrow ≡ true
    pub signed : signed_by envelope (get next.terms "ln_payer_peer") ≡ true
    pub invoice_hash :
        same_hex
          (get (get envelope "body") "payment_hash_hex")
          (get next.invoice "payment_hash_hex")
        ≡ true
    pub escrow_hash :
        same_hex (get (get envelope "body") "payment_hash_hex") (get next.escrow "payment_hash_hex")
        ≡ true
    pub payable : check_payable envelope next.invoice ≡ ok tt
    pub stable :
        truthy next.ln_paid ≡ true
        → same_hex
            (get next.ln_paid "payment_hash_hex")
            (get (get envelope "body") "payment_hash_hex")
          ≡ true
    pub outcome : t ≡ record next {
      ln_paid = first_evidence next.ln_paid (get envelope "body");
      state = State.ln_paid;
    }

  pub on_ln_paid-Paid : on_ln_paid envelope next ≡ ok t → Paid
  unfolding on_ln_paid require_signer
  on_ln_paid-Paid h = ground arith

  pub record Claimed : Type 0 where
    pub expected : state_in next.state (State.escrow ∷ State.ln_paid ∷ State.claimed ∷ []) ≡ true
    pub has_terms : truthy next.terms ≡ true
    pub has_escrow : truthy next.escrow ≡ true
    pub signed : signed_by envelope (get next.terms "ln_payer_peer") ≡ true
    pub one_hash :
        same_hex (get (get envelope "body") "payment_hash_hex") (get next.escrow "payment_hash_hex")
        ≡ true
    pub one_pda :
        same_text (get (get envelope "body") "escrow_pda") (get next.escrow "escrow_pda") ≡ true
    pub stable :
        truthy next.claimed ≡ true
        → same_text (get next.claimed "tx_sig") (get (get envelope "body") "tx_sig") ≡ true
    pub outcome : t ≡ record next {
      claimed = first_evidence next.claimed (get envelope "body");
      state = State.claimed;
    }

  pub on_sol_claimed-Claimed : on_sol_claimed envelope next ≡ ok t → Claimed
  unfolding on_sol_claimed require_signer
  on_sol_claimed-Claimed h = ground arith

  pub record Refunded : Type 0 where
    pub expected : state_in next.state (State.escrow ∷ State.refunded ∷ []) ≡ true
    pub has_terms : truthy next.terms ≡ true
    pub has_escrow : truthy next.escrow ≡ true
    pub signed : signed_by envelope (get next.terms "ln_receiver_peer") ≡ true
    pub one_hash :
        same_hex (get (get envelope "body") "payment_hash_hex") (get next.escrow "payment_hash_hex")
        ≡ true
    pub one_pda :
        same_text (get (get envelope "body") "escrow_pda") (get next.escrow "escrow_pda") ≡ true
    pub timely : check_refund_time envelope next.escrow ≡ ok tt
    pub stable :
        truthy next.refunded ≡ true
        → same_text (get next.refunded "tx_sig") (get (get envelope "body") "tx_sig") ≡ true
    pub outcome : t ≡ record next {
      refunded = first_evidence next.refunded (get envelope "body");
      state = State.refunded;
    }

  pub on_sol_refunded-Refunded : on_sol_refunded envelope next ≡ ok t → Refunded
  unfolding on_sol_refunded require_signer
  on_sol_refunded-Refunded h = ground arith

  abbrev pub Canceled : Type 0
  Canceled =
      ((next.state ≡ State.canceled) × (t ≡ next))
      ⊎ ((state_in next.state (State.init ∷ State.terms ∷ State.accepted ∷ State.invoice ∷ [])
            ≡ true)
          × (t ≡ record next {
            state = State.canceled;
            canceled_reason =
                if truthy (get (get envelope "body") "reason")
                then get (get envelope "body") "reason"
                else null;
          }))

  pub on_cancel-Canceled : on_cancel envelope next ≡ ok t → Canceled
  unfolding on_cancel
  on_cancel-Canceled h = ground arith
