-- ===== src/Swap/Payer/Covers.antt =====
-- How the payer's checks meet the trade state machine: the time that is left after them, that the
-- machine records the payment they let through, and the field of the terms that they do not read.
use swapfloor.Common.{ℕ, ◌+◌, ◌*◌, ◌≤◌, true, false, ok, ◌≡◌, refl, arith, Bool-cases, inl, inr}
use swapfloor.Js.Value.{is_reference, Value, Number, nat, negsuc, nan, num, get, is_present, truthy}
use swapfloor.Js.Text.{text_eq_refl, eq_of_text_eq}
use swapfloor.Js.Convert.{normalize_hex, to_number, unix_sec_to_ms}
use swapfloor.Ln.Bolt11.{Decoded, check_expiry}
use swapfloor.Ln.Bolt11.Tags.{Bech32}
use swapfloor.Swap.Constants.{State}
use swapfloor.Swap.Machine.Core.{Trade, signed_by, same_hex, after, is_finite_time, require_signer}
use swapfloor.Swap.Machine.Payment.{on_ln_paid, check_payable}
use swapfloor.Swap.Prepay.{
  check_ahead, check_times, invoice_expiry, verify_swap_pre_pay, verify_escrow_against_terms,
}
use swapfloor.Swap.Payer.Sound.{Matches, verify_swap_pre_pay-PayableAt, check_ahead-margin}

abbrev pub at : ℕ → Value
at now = num (nat now)

module _ (bech32 : Bech32) (terms invoice escrow : Value) (now : ℕ) (decoded : Decoded) where
  same_expiry :
      (wanted : Value) (n : Number)
      → to_number wanted ≡ n
      → check_expiry bech32 wanted decoded.expires_at_unix ≡ ok tt
      → is_present wanted ≡ true
      → to_number wanted ≡ nat decoded.expires_at_unix
  unfolding check_expiry
  same_expiry wanted (nat m) e h p = ground arith
  same_expiry wanted (negsuc m) e h p = ground arith
  same_expiry wanted nan e h p = ground arith

  expiry_of :
      Matches bech32 invoice decoded → invoice_expiry invoice decoded ≡ nat decoded.expires_at_unix
  expiry_of m = elim (Bool-cases (is_present (get invoice "expires_at_unix"))) [
    | inl given ↦ rw given (same_expiry (get invoice "expires_at_unix") _ refl m.expiry given)
    | inr absent ↦ rw absent refl
  ]

  record Ahead : Type 0 where
    pub expiry :
        check_ahead
          (nat now)
          (invoice_expiry invoice decoded)
          60
          "invoice already expired"
          "invoice expires too soon (need >=60s margin)"
        ≡ ok tt
    pub refund :
        is_present (get escrow "refund_after_unix") ≡ true
        → check_ahead
            (nat now)
            (to_number (get escrow "refund_after_unix"))
            600
            "escrow refund_after already reached"
            "escrow refund_after too soon (need >=600s claim margin)"
          ≡ ok tt

  check_times-Ahead : check_times invoice escrow (at now) decoded ≡ ok tt → Ahead
  unfolding check_times to_number
  check_times-Ahead h = ground arith

  -- A payment that is let through at a given time is a minute or more before the expiry of the
  -- invoice, and ten minutes or more before the refund time of the escrow.
  pub verify_swap_pre_pay_margins :
      (refund_time : ℕ)
      → is_present (get escrow "refund_after_unix") ≡ true
      → to_number (get escrow "refund_after_unix") ≡ nat refund_time
      → verify_swap_pre_pay bech32 terms invoice escrow (at now) ≡ ok decoded
      → (now + 60 ≤ decoded.expires_at_unix) × (now + 600 ≤ refund_time)
  verify_swap_pre_pay_margins refund_time present time h =
      let payable = verify_swap_pre_pay-PayableAt bech32 terms invoice escrow (at now) decoded h in
      let ahead = check_times-Ahead payable.in_time in
      (
        check_ahead-margin now decoded.expires_at_unix 60 (invoice_expiry invoice decoded) _ _
            (expiry_of payable.matches) ahead.expiry,
        check_ahead-margin now refund_time 600 (to_number (get escrow "refund_after_unix")) _ _ time
            (ahead.refund present),
      )

same_hex_trans : (a b c : Value) → same_hex a b ≡ true → same_hex b c ≡ true → same_hex a c ≡ true
unfolding same_hex
same_hex_trans a b c h k =
    rw
      (
        eq_of_text_eq (normalize_hex a) (normalize_hex b) h,
        eq_of_text_eq (normalize_hex b) (normalize_hex c) k,
      )
      (text_eq_refl (normalize_hex c))

payable_before_expiry :
    (envelope invoice : Value) (expires ts : ℕ)
    → (is_present (get invoice "expires_at_unix") ≡ true
        → to_number (get invoice "expires_at_unix") ≡ nat expires)
    → to_number (get envelope "ts") ≡ nat ts
    → ts ≤ expires * 1000
    → check_payable envelope invoice ≡ ok tt
unfolding check_payable is_finite_time after unix_sec_to_ms
payable_before_expiry envelope invoice expires ts same time le =
    elim (Bool-cases (is_present (get invoice "expires_at_unix"))) [
      | inl given ↦ rw (given, same given, time) (ground arith)
      | inr absent ↦ rw absent refl
    ]

-- A payment that is let through at a given time is recorded: a trade in state escrow with these
-- terms, this invoice and this escrow, and no payment yet, accepts an LN_PAID with the payment hash
-- of the invoice, signed by the payer and sent up to a minute after that time.
pub verify_swap_pre_pay_recorded :
    (bech32 : Bech32) (trade : Trade) (envelope : Value) (now ts : ℕ) (decoded : Decoded)
    → trade.state ≡ State.escrow
    → truthy trade.terms ≡ true
    → truthy trade.invoice ≡ true
    → truthy trade.escrow ≡ true
    → truthy trade.ln_paid ≡ false
    → verify_swap_pre_pay bech32 trade.terms trade.invoice trade.escrow (at now) ≡ ok decoded
    → signed_by envelope (get trade.terms "ln_payer_peer") ≡ true
    → same_hex (get (get envelope "body") "payment_hash_hex") (get trade.invoice "payment_hash_hex")
      ≡ true
    → to_number (get envelope "ts") ≡ nat ts
    → ts ≤ (now + 60) * 1000
    → on_ln_paid envelope trade
      ≡ ok (record trade { ln_paid = get envelope "body"; state = State.ln_paid })
unfolding on_ln_paid require_signer
verify_swap_pre_pay_recorded bech32 trade envelope now ts decoded s t i e p h sig hash time le =
    let payable =
      verify_swap_pre_pay-PayableAt bech32 trade.terms trade.invoice trade.escrow (at now) decoded
        h in
    let le_expiry =
      check_ahead-margin now decoded.expires_at_unix 60 (invoice_expiry trade.invoice decoded) _ _
        (expiry_of bech32 trade.terms trade.invoice trade.escrow now decoded payable.matches)
        (check_times-Ahead bech32 trade.terms trade.invoice trade.escrow now decoded
          payable.in_time).expiry in
    let h2 : same_hex (get (get envelope "body") "payment_hash_hex")
          (get trade.escrow "payment_hash_hex")
        ≡ true =
      same_hex_trans _ _ _ hash payable.same_payment in
    let c : check_payable envelope trade.invoice ≡ ok tt =
      payable_before_expiry envelope trade.invoice decoded.expires_at_unix ts
        (same_expiry bech32 trade.terms trade.invoice trade.escrow now decoded
          (get trade.invoice "expires_at_unix") _ refl payable.matches.expiry)
        time (omega arith) in
    rw (s, t, i, e, p, sig, hash, h2, c) refl

-- Two values that give the same for the fields of the terms that the escrow is compared with.
pub record SameEscrowTerms (terms other : Value) : Type 0 where
  pub reference : is_reference other ≡ is_reference terms
  pub recipient : get other "sol_recipient" ≡ get terms "sol_recipient"
  pub refund : get other "sol_refund" ≡ get terms "sol_refund"
  pub mint : get other "sol_mint" ≡ get terms "sol_mint"
  pub amount : get other "usdt_amount" ≡ get terms "usdt_amount"
  pub refund_time : get other "sol_refund_after_unix" ≡ get terms "sol_refund_after_unix"

-- The payer's checks do not look at the satoshis of the terms: terms that differ in nothing that the
-- escrow is compared with, whatever their `btc_sats`, give the same answer for the same invoice,
-- escrow and time.
pub verify_swap_pre_pay_sats :
    (bech32 : Bech32) (terms other invoice escrow now : Value)
    → SameEscrowTerms terms other
    → verify_swap_pre_pay bech32 other invoice escrow now
      ≡ verify_swap_pre_pay bech32 terms invoice escrow now
unfolding verify_swap_pre_pay verify_escrow_against_terms
verify_swap_pre_pay_sats bech32 terms other invoice escrow now same =
    rw (same.reference, same.recipient, same.refund, same.mint, same.amount, same.refund_time) refl
