-- ===== src/Swap/Trades/Authority.antt =====
-- Who may move a trade, and when.
use swapfloor.Common.{
  ℕ, ◌*◌, ◌≤◌, String, true, false, ok, ◌≡◌, refl, arith, Option, none, some, if◌then◌else◌, inl,
  inr, subst, Bool-cases,
}
use swapfloor.Js.Text.{Text, eq_of_text_eq, trim, digits_value}
use swapfloor.Js.Value.{Value, null, num, nat, str, get, truthy, number_lt, strict_eq, to_text}
use swapfloor.Js.Convert.{normalize_hex, unix_sec_to_ms, to_number, big_int}
use swapfloor.Swap.Constants.{
  Kind, State, accept, cancel, ln_invoice, sol_escrow_created, sol_claimed, sol_refunded,
}
use swapfloor.Swap.Schema.{validate_swap_envelope, kind_of_value}
use swapfloor.Swap.Envelope.{Crypto, verify_signed_envelope}
use swapfloor.Swap.Machine.{apply_swap_envelope, dispatch}
use swapfloor.Swap.Machine.Core.{Trade, state_eq, with_last, signed_by, before, after}
use swapfloor.Swap.Machine.Negotiation.{check_terms_window}
use swapfloor.Swap.Machine.Payment.{check_amount, check_payable}
use swapfloor.Swap.Machine.Outcome.{check_refund_time, on_cancel}
use swapfloor.Swap.Trades.Apply.{Effect, apply-Applied}
use swapfloor.Swap.Trades.Invariant.{is_locked}

-- The field of the terms that names the peer a message must come from.
abbrev pub signer_field : Kind → Option String
signer_field accept = some "ln_payer_peer"
signer_field Kind.ln_paid = some "ln_payer_peer"
signer_field sol_claimed = some "ln_payer_peer"
signer_field ln_invoice = some "ln_receiver_peer"
signer_field sol_escrow_created = some "ln_receiver_peer"
signer_field sol_refunded = some "ln_receiver_peer"
signer_field _ = none

signed_by_lem :
    (e expected : Value)
    → signed_by e expected ≡ true
    → normalize_hex (get e "signer") ≡ normalize_hex expected
unfolding signed_by
signed_by_lem e expected h =
    eq_of_text_eq (normalize_hex (get e "signer")) (normalize_hex expected) (ground arith)

-- The times that the program compares, as numbers of seconds and milliseconds.
before_lem :
    (e unix : Value) (n m : ℕ)
    → unix ≡ num (nat n)
    → get e "ts" ≡ num (nat m)
    → before e unix ≡ false
    → n * 1000 ≤ m
unfolding before unix_sec_to_ms to_number
before_lem e unix n m p q h =
    let h' : number_lt (nat m) (nat (n * 1000)) ≡ false = (rw (q, p) at h) in ground arith

after_lem :
    (e unix : Value) (n m : ℕ)
    → unix ≡ num (nat n)
    → get e "ts" ≡ num (nat m)
    → after e unix ≡ false
    → m ≤ n * 1000
unfolding after unix_sec_to_ms to_number
after_lem e unix n m p q h =
    let h' : number_lt (nat (n * 1000)) (nat m) ≡ false = (rw (q, p) at h) in ground arith

module _ (crypto : Crypto) where
  Effect-signer :
      (k : Kind) (e : Value) (next t : Trade) (f : String)
      → signer_field k ≡ some f
      → Effect crypto (some k) e next t
      → (normalize_hex (get e "signer") ≡ normalize_hex (get next.terms f)) × (t.terms ≡ next.terms)
  Effect-signer accept e next t f s a = elim (a.outcome) [
    | inl (early, window, same) ↦
        ground (arith, signed_by_lem e (get next.terms "ln_payer_peer") a.signed)
    | inr (still, same) ↦ ground (arith, signed_by_lem e (get next.terms "ln_payer_peer") a.signed)
  ]
  Effect-signer Kind.ln_paid e next t f s a =
      ground (arith, a.outcome, signed_by_lem e (get next.terms "ln_payer_peer") a.signed)
  Effect-signer sol_claimed e next t f s a =
      ground (arith, a.outcome, signed_by_lem e (get next.terms "ln_payer_peer") a.signed)
  Effect-signer ln_invoice e next t f s a =
      ground (arith, a.outcome, signed_by_lem e (get next.terms "ln_receiver_peer") a.signed)
  Effect-signer sol_escrow_created e next t f s a =
      ground (arith, a.outcome, signed_by_lem e (get next.terms "ln_receiver_peer") a.signed)
  Effect-signer sol_refunded e next t f s a =
      ground (arith, a.outcome, signed_by_lem e (get next.terms "ln_receiver_peer") a.signed)
  Effect-signer _ e next t f s a = cc

  -- An accepted ACCEPT, LN_PAID or SOL_CLAIMED names the payer of the agreed terms as its signer,
  -- an accepted LN_INVOICE, SOL_ESCROW_CREATED or SOL_REFUNDED the receiver, the terms stay as
  -- they are, and the signature over the envelope is verified.
  pub apply_signer :
      (trade : Trade) (e : Value) (t : Trade) (k : Kind) (f : String)
      → kind_of_value (get e "kind") ≡ some k
      → signer_field k ≡ some f
      → apply_swap_envelope crypto trade e ≡ ok t
      → (normalize_hex (get e "signer") ≡ normalize_hex (get trade.terms f))
        × (t.terms ≡ trade.terms)
        × (verify_signed_envelope crypto e ≡ ok tt)
  apply_signer trade e t k f known s h =
      let a = apply-Applied crypto trade e t h in
      let (signer, kept) =
        Effect-signer k e (with_last trade e) t f s
          (subst (λ j. Effect crypto j e (with_last trade e) t) known a.effect) in
      (signer, kept, a.verified)

  -- A refund is recorded only at or after the refund time of the recorded escrow.
  pub refund_not_early :
      (trade : Trade) (e : Value) (t : Trade) (refund_after ts : ℕ)
      → kind_of_value (get e "kind") ≡ some sol_refunded
      → get trade.escrow "refund_after_unix" ≡ num (nat refund_after)
      → get e "ts" ≡ num (nat ts)
      → apply_swap_envelope crypto trade e ≡ ok t
      → refund_after * 1000 ≤ ts
  refund_not_early trade e t r ts known p q h =
      let a = apply-Applied crypto trade e t h in
      let b = subst (λ j. Effect crypto j e (with_last trade e) t) known a.effect in
      before_lem e (get trade.escrow "refund_after_unix") r ts p q
        (refund_time e trade.escrow r p b.timely)
    where
      refund_time :
          (e escrow : Value) (r : ℕ)
          → get escrow "refund_after_unix" ≡ num (nat r)
          → check_refund_time e escrow ≡ ok tt
          → before e (get escrow "refund_after_unix") ≡ false
      refund_time e escrow r p h = unfold check_refund_time in ground arith

  -- A payment is recorded only up to the expiry of the recorded invoice.
  pub paid_not_late :
      (trade : Trade) (e : Value) (t : Trade) (expires ts : ℕ)
      → kind_of_value (get e "kind") ≡ some Kind.ln_paid
      → get trade.invoice "expires_at_unix" ≡ num (nat expires)
      → get e "ts" ≡ num (nat ts)
      → apply_swap_envelope crypto trade e ≡ ok t
      → ts ≤ expires * 1000
  paid_not_late trade e t r ts known p q h =
      let a = apply-Applied crypto trade e t h in
      let b = subst (λ j. Effect crypto j e (with_last trade e) t) known a.effect in
      after_lem e (get trade.invoice "expires_at_unix") r ts p q
        (pay_time e trade.invoice r p b.payable)
    where
      pay_time :
          (e invoice : Value) (r : ℕ)
          → get invoice "expires_at_unix" ≡ num (nat r)
          → check_payable e invoice ≡ ok tt
          → after e (get invoice "expires_at_unix") ≡ false
      pay_time e invoice r p h = unfold check_payable in ground arith

  -- The first ACCEPT of a trade is let through only up to the end of the terms' validity, where
  -- the terms give one.
  pub accepted_not_late :
      (trade : Trade) (e : Value) (t : Trade) (valid_until ts : ℕ)
      → kind_of_value (get e "kind") ≡ some accept
      → trade.state ≡ State.terms
      → get trade.terms "terms_valid_until_unix" ≡ num (nat valid_until)
      → get e "ts" ≡ num (nat ts)
      → apply_swap_envelope crypto trade e ≡ ok t
      → ts ≤ valid_until * 1000
  accepted_not_late trade e t r ts known open_terms p q h =
      let a = apply-Applied crypto trade e t h in
      let b = subst (λ j. Effect crypto j e (with_last trade e) t) known a.effect in
      after_lem e (get trade.terms "terms_valid_until_unix") r ts p q (elim (b.outcome) [
        | inl (early, window, same) ↦ accept_time (with_last trade e) p window
        | inr (still, same) ↦ ground arith
      ])
    where
      accept_time :
          (next : Trade)
          → get next.terms "terms_valid_until_unix" ≡ num (nat r)
          → check_terms_window e next ≡ ok tt
          → after e (get next.terms "terms_valid_until_unix") ≡ false
      accept_time next p h = unfold check_terms_window in ground arith

  -- The amount of an accepted invoice, where it is given, is a thousand times the satoshis of the
  -- terms, and the terms stay as they are.
  pub invoice_amount :
      (trade : Trade) (e : Value) (t : Trade) (sats : ℕ) (amount : Text)
      → kind_of_value (get e "kind") ≡ some ln_invoice
      → get trade.terms "btc_sats" ≡ num (nat sats)
      → get (get e "body") "amount_msat" ≡ str amount
      → apply_swap_envelope crypto trade e ≡ ok t
      → (digits_value 0 (trim amount) ≡ sats * 1000) × (t.terms ≡ trade.terms)
  invoice_amount trade e t sats amount known p q h =
      let a = apply-Applied crypto trade e t h in
      let b = subst (λ j. Effect crypto j e (with_last trade e) t) known a.effect in
      (due (get e "body") trade.terms p q b.amount, ground (arith, b.outcome))
    where
      due :
          (body terms : Value)
          → get terms "btc_sats" ≡ num (nat sats)
          → get body "amount_msat" ≡ str amount
          → check_amount body terms ≡ ok tt
          → digits_value 0 (trim amount) ≡ sats * 1000
      due body terms p q h = unfold check_amount big_int to_text in ground arith

  cancel_result :
      (e : Value) (next : Trade)
      → is_locked next.state ≡ false
      → (t : Trade) × (on_cancel e next ≡ ok t) × (t.state ≡ State.canceled)
  unfolding on_cancel
  cancel_result e next h = elim (Bool-cases (state_eq next.state State.canceled)) [
    | inl done ↦ (next, ground arith, ground arith)
    | inr not_done ↦ (
      record next {
        state = State.canceled;
        canceled_reason =
            if truthy (get (get e "body") "reason") then get (get e "body") "reason" else null;
      },
      ground arith,
      refl,
    )
  ]

  -- A valid CANCEL with any verified signature, whoever the signer is, cancels a trade whose
  -- escrow is not recorded, and is refused by one whose escrow is.
  pub cancel_by_anyone :
      (trade : Trade) (e : Value)
      → kind_of_value (get e "kind") ≡ some cancel
      → validate_swap_envelope e ≡ ok tt
      → strict_eq (get e "trade_id") trade.trade_id ≡ true
      → verify_signed_envelope crypto e ≡ ok tt
      → (is_locked trade.state ≡ false
          → (t : Trade) × (apply_swap_envelope crypto trade e ≡ ok t) × (t.state ≡ State.canceled))
        × (is_locked trade.state ≡ true
            → (t : Trade) → ¬ (apply_swap_envelope crypto trade e ≡ ok t))
  cancel_by_anyone trade e known valid same verified = (
    (λ h.
        let (t, r, s) = cancel_result e (with_last trade e) h in
        (t, unfold apply_swap_envelope dispatch in rw (valid, same, verified, known) r, s)),
    (λ h t r.
        let a = apply-Applied crypto trade e t r in
        let b = subst (λ j. Effect crypto j e (with_last trade e) t) known a.effect in
        ground arith),
  )
