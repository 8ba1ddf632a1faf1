-- ===== src/Swap/Trades/Replay.antt =====
-- An envelope that arrives twice.
use swapfloor.Common.{true, ok, ◌≡◌, refl, sym, ap, ◌∙◌, subst, arith, Option, some, inl, inr}
use swapfloor.Js.Text.{text_eq_refl}
use swapfloor.Js.Value.{Value, strict_eq, get, truthy, to_text, number_eq}
use swapfloor.Js.Convert.{normalize_hex, to_number, unix_sec_to_ms}
use swapfloor.Swap.Constants.{
  Kind, accept, cancel, status, ln_invoice, sol_escrow_created, sol_claimed, sol_refunded,
}
use swapfloor.Swap.Schema.{kind_of_value, validate_swap_envelope}
use swapfloor.Swap.Envelope.{Crypto, verify_signed_envelope}
use swapfloor.Swap.Machine.{apply_swap_envelope, dispatch}
use swapfloor.Swap.Machine.Core.{
  Trade, with_last, same_hex, same_text, is_finite_time, require_signer,
}
use swapfloor.Swap.Machine.Negotiation.{on_terms, on_accept}
use swapfloor.Swap.Machine.Payment.{
  on_ln_invoice, on_sol_escrow_created, on_ln_paid, check_same_invoice, check_invoice_expiry,
  check_same_escrow,
}
use swapfloor.Swap.Machine.Outcome.{on_sol_claimed, on_sol_refunded, on_cancel, on_status}
use swapfloor.Swap.Trades.Accepts.{
  on_terms-Proposed, on_accept-Agreed, on_ln_invoice-Invoiced, on_sol_escrow_created-Locked,
  on_ln_paid-Paid, on_sol_claimed-Claimed, on_sol_refunded-Refunded, on_cancel-Canceled,
}
use swapfloor.Swap.Trades.Apply.{Effect, apply-Applied, body_is_object, truthy_of_is_object}

same_hex_refl : (v : Value) → same_hex v v ≡ true
unfolding same_hex
same_hex_refl v = text_eq_refl (normalize_hex v)

same_text_refl : (v : Value) → same_text v v ≡ true
unfolding same_text
same_text_refl v = text_eq_refl (to_text v)

time_eq_refl : (v : Value) → is_finite_time v ≡ true → number_eq (to_number v) (to_number v) ≡ true
unfolding is_finite_time unix_sec_to_ms
time_eq_refl v h = ground arith

check_same_invoice_refl :
    (e body : Value) → check_invoice_expiry e body ≡ ok tt → check_same_invoice body body ≡ ok tt
unfolding check_same_invoice check_invoice_expiry to_number
check_same_invoice_refl e body h = ground (
  arith,
  same_hex_refl (get body "payment_hash_hex"),
  same_text_refl (get body "bolt11"),
  same_text_refl (get body "amount_msat"),
  time_eq_refl (get body "expires_at_unix"),
)

check_same_escrow_refl : (body : Value) → check_same_escrow body body ≡ ok tt
unfolding check_same_escrow
check_same_escrow_refl body = ground (
  arith,
  same_text_refl (get body "escrow_pda"),
  same_text_refl (get body "vault_ata"),
  same_text_refl (get body "tx_sig"),
)

module _ (e : Value) (next t : Trade) (body_given : truthy (get e "body") ≡ true) where
  on_terms-again : (crypto : Crypto) → on_terms crypto e next ≡ ok t → on_terms crypto e t ≡ ok t
  on_terms-again crypto h =
      let a = on_terms-Proposed e next t crypto h in
      elim (a.outcome) [
        | inl (early, same) ↦ rw same (unfold on_terms require_signer in ground (arith, a.signed))
        | inr (late, hash, same) ↦ subst (λ s. on_terms crypto e s ≡ ok t) (sym same) h
      ]

  on_accept-again : on_accept e next ≡ ok t → on_accept e t ≡ ok t
  on_accept-again h =
      let a = on_accept-Agreed e next t h in
      elim (a.outcome) [
        | inl (early, window, same) ↦ rw same (
            unfold on_accept require_signer in
            ground (arith, a.signed, a.hash, a.has_terms, a.has_hash))
        | inr (late, same) ↦ subst (λ s. on_accept e s ≡ ok t) (sym same) h
      ]

  on_ln_invoice-again : on_ln_invoice e next ≡ ok t → on_ln_invoice e t ≡ ok t
  on_ln_invoice-again h =
      let a = on_ln_invoice-Invoiced e next t h in
      rw a.outcome (
        unfold on_ln_invoice require_signer in
        ground (
          arith,
          a.signed,
          a.amount,
          a.expiry,
          a.expected,
          a.has_terms,
          a.stable,
          check_same_invoice_refl e (get e "body") a.expiry,
        ))

  on_sol_escrow_created-again :
      on_sol_escrow_created e next ≡ ok t → on_sol_escrow_created e t ≡ ok t
  on_sol_escrow_created-again h =
      let a = on_sol_escrow_created-Locked e next t h in
      rw a.outcome (
        unfold on_sol_escrow_created require_signer in
        ground (arith, a, check_same_escrow_refl (get e "body")))

  on_ln_paid-again : on_ln_paid e next ≡ ok t → on_ln_paid e t ≡ ok t
  on_ln_paid-again h =
      let a = on_ln_paid-Paid e next t h in
      rw a.outcome (
        unfold on_ln_paid require_signer in
        ground (arith, a, same_hex_refl (get (get e "body") "payment_hash_hex")))

  on_sol_claimed-again : on_sol_claimed e next ≡ ok t → on_sol_claimed e t ≡ ok t
  on_sol_claimed-again h =
      let a = on_sol_claimed-Claimed e next t h in
      rw a.outcome (
        unfold on_sol_claimed require_signer in
        ground (arith, a, same_text_refl (get (get e "body") "tx_sig")))

  on_sol_refunded-again : on_sol_refunded e next ≡ ok t → on_sol_refunded e t ≡ ok t
  on_sol_refunded-again h =
      let a = on_sol_refunded-Refunded e next t h in
      rw a.outcome (
        unfold on_sol_refunded require_signer in
        ground (arith, a, same_text_refl (get (get e "body") "tx_sig")))

  on_cancel-again : on_cancel e next ≡ ok t → on_cancel e t ≡ ok t
  on_cancel-again h = elim (on_cancel-Canceled e next t h) [
    | inl (done, same) ↦ subst (λ s. on_cancel e s ≡ ok t) (sym same) h
    | inr (early, same) ↦ rw same (unfold on_cancel in ground arith)
  ]

module _ (crypto : Crypto) where
  dispatch-again :
      (k : Option Kind) (e : Value) (next t : Trade)
      → truthy (get e "body") ≡ true
      → dispatch crypto k e next ≡ ok t
      → dispatch crypto k e t ≡ ok t
  unfolding dispatch on_status
  dispatch-again (some Kind.terms) e next t b h = on_terms-again e next t b crypto h
  dispatch-again (some accept) e next t b h = on_accept-again e next t b h
  dispatch-again (some ln_invoice) e next t b h = on_ln_invoice-again e next t b h
  dispatch-again (some sol_escrow_created) e next t b h = on_sol_escrow_created-again e next t b h
  dispatch-again (some Kind.ln_paid) e next t b h = on_ln_paid-again e next t b h
  dispatch-again (some sol_claimed) e next t b h = on_sol_claimed-again e next t b h
  dispatch-again (some sol_refunded) e next t b h = on_sol_refunded-again e next t b h
  dispatch-again (some cancel) e next t b h = on_cancel-again e next t b h
  dispatch-again (some status) e next t b h = refl
  dispatch-again _ e next t b h = cc

  -- What no case changes.
  record SameHeader (next t : Trade) : Type 0 where
    trade_id : t.trade_id ≡ next.trade_id
    last : t.last ≡ next.last

  Effect-SameHeader :
      (k : Option Kind) (e : Value) (next t : Trade) → Effect crypto k e next t → SameHeader next t
  Effect-SameHeader (some Kind.terms) e next t a = elim (a.outcome) [
    | inl (early, same) ↦ ground arith
    | inr (late, hash, same) ↦ ground arith
  ]
  Effect-SameHeader (some accept) e next t a = elim (a.outcome) [
    | inl (early, window, same) ↦ ground arith
    | inr (late, same) ↦ ground arith
  ]
  Effect-SameHeader (some ln_invoice) e next t a = rw a.outcome (ground arith)
  Effect-SameHeader (some sol_escrow_created) e next t a = rw a.outcome (ground arith)
  Effect-SameHeader (some Kind.ln_paid) e next t a = rw a.outcome (ground arith)
  Effect-SameHeader (some sol_claimed) e next t a = rw a.outcome (ground arith)
  Effect-SameHeader (some sol_refunded) e next t a = rw a.outcome (ground arith)
  Effect-SameHeader (some cancel) e next t a = elim a [
    | inl (done, same) ↦ ground arith
    | inr (early, same) ↦ ground arith
  ]
  Effect-SameHeader (some status) e next t a = ground arith
  Effect-SameHeader _ e next t a = absurd a

  with_last-same :
      (trade : Trade) (e : Value) (t : Trade)
      → t.last ≡ (with_last trade e).last
      → with_last t e ≡ t
  with_last-same trade e t h = ground arith

  -- Past its checks, `applySwapEnvelope` is its `switch`.
  apply-dispatch :
      (trade : Trade) (e : Value)
      → validate_swap_envelope e ≡ ok tt
      → strict_eq (get e "trade_id") trade.trade_id ≡ true
      → verify_signed_envelope crypto e ≡ ok tt
      → apply_swap_envelope crypto trade e
        ≡ dispatch crypto (kind_of_value (get e "kind")) e (with_last trade e)
  unfolding apply_swap_envelope
  apply-dispatch trade e valid same verified = rw (valid, same, verified)

  -- An envelope that was accepted is accepted again by the trade it led to, and changes nothing
  -- there.
  pub apply_again :
      (trade : Trade) (e : Value) (t : Trade)
      → apply_swap_envelope crypto trade e ≡ ok t
      → apply_swap_envelope crypto t e ≡ ok t
  apply_again trade e t h =
      let a = apply-Applied crypto trade e t h in
      let k = kind_of_value (get e "kind") in
      let same = Effect-SameHeader k e (with_last trade e) t a.effect in
      let b = truthy_of_is_object (get e "body") (body_is_object e a.valid) in
      let d = sym (apply-dispatch trade e a.valid a.same_trade a.verified) ∙ h in
      apply-dispatch t e a.valid (rw same.trade_id a.same_trade) a.verified
      ∙ ap (dispatch crypto k e) (with_last-same trade e t same.last)
      ∙ dispatch-again k e (with_last trade e) t b d
