-- ===== src/Swap/Payer/Sound.antt =====
-- What `verifySwapPrePay` has checked when it lets a payment through, and what it does not read.
use swapfloor.Common.{
  String, ℕ, ◌+◌, ◌≤◌, true, false, Result, ok, err, refused, thrown, ◌≡◌, arith,
}
use swapfloor.Js.Value.{Value, Number, nat, get, number_lt}
use swapfloor.Js.Convert.{to_number}
use swapfloor.Ln.Bolt11.{
  Decoded, decode_bolt11, caught, hash_matches, check_msat, check_expiry,
  verify_bolt11_matches_invoice_body,
}
use swapfloor.Ln.Bolt11.Tags.{Bech32}
use swapfloor.Swap.Machine.Core.{same_hex, same_text}
use swapfloor.Swap.Prepay.{
  verify_invoice_body, verify_escrow_against_terms, check_ahead, check_times, verify_swap_pre_pay,
  invoice_fault,
}

-- The escrow is what the terms ask for.
pub record MatchesTerms (escrow terms : Value) : Type 0 where
  pub recipient : same_text (get escrow "recipient") (get terms "sol_recipient") ≡ true
  pub refund : same_text (get escrow "refund") (get terms "sol_refund") ≡ true
  pub mint : same_text (get escrow "mint") (get terms "sol_mint") ≡ true
  pub amount : same_text (get escrow "amount") (get terms "usdt_amount") ≡ true
  pub not_early :
      number_lt
        (to_number (get escrow "refund_after_unix"))
        (to_number (get terms "sol_refund_after_unix"))
      ≡ false

-- The invoice message says what the invoice says.
module _ (bech32 : Bech32) (invoice : Value) (decoded : Decoded) where
  pub record Matches : Type 0 where
    pub from_bolt11 : decode_bolt11 bech32 (get invoice "bolt11") ≡ ok decoded
    pub hash : hash_matches bech32 (get invoice "payment_hash_hex") decoded.payment_hash_hex ≡ true
    pub amount : check_msat bech32 (get invoice "amount_msat") decoded.amount_msat ≡ ok tt
    pub expiry : check_expiry bech32 (get invoice "expires_at_unix") decoded.expires_at_unix ≡ ok tt

  pub record PayableAt (terms escrow now : Value) : Type 0 where
    pub matches : Matches
    pub locked : MatchesTerms escrow terms
    pub same_payment :
        same_hex (get invoice "payment_hash_hex") (get escrow "payment_hash_hex") ≡ true
    pub in_time : check_times invoice escrow now decoded ≡ ok tt

  caught-ok : (r : Result Decoded) → caught bech32 r ≡ ok decoded → r ≡ ok decoded
  unfolding caught
  caught-ok (ok d) h = h
  caught-ok (err (refused m)) h = cc
  caught-ok (err (thrown m)) h = cc

  invoice_fault-ok : (r : Result Decoded) → invoice_fault r ≡ ok decoded → r ≡ ok decoded
  unfolding invoice_fault
  invoice_fault-ok (ok d) h = h
  invoice_fault-ok (err (refused m)) h = cc
  invoice_fault-ok (err (thrown m)) h = cc

  verify_bolt11-Matches :
      verify_bolt11_matches_invoice_body bech32
          (get invoice "bolt11")
          (get invoice "payment_hash_hex")
          (get invoice "amount_msat")
          (get invoice "expires_at_unix")
        ≡ ok decoded
      → Matches
  unfolding verify_bolt11_matches_invoice_body caught
  verify_bolt11-Matches h = ground arith

  verify_invoice_body-Matches : verify_invoice_body bech32 invoice ≡ ok decoded → Matches
  unfolding verify_invoice_body
  verify_invoice_body-Matches h = ground (arith, verify_bolt11-Matches)

verify_escrow-MatchesTerms :
    (terms escrow : Value)
    → verify_escrow_against_terms terms escrow ≡ ok tt
    → MatchesTerms escrow terms
unfolding verify_escrow_against_terms
verify_escrow-MatchesTerms terms escrow h = ground arith

-- A payment that is let through is of an invoice that decodes to what its message says, against an
-- escrow that is what the terms ask for and that has the same payment hash, in time for both.
pub verify_swap_pre_pay-PayableAt :
    (bech32 : Bech32) (terms invoice escrow now : Value) (decoded : Decoded)
    → verify_swap_pre_pay bech32 terms invoice escrow now ≡ ok decoded
    → PayableAt bech32 invoice decoded terms escrow now
unfolding verify_swap_pre_pay
verify_swap_pre_pay-PayableAt bech32 terms invoice escrow now decoded h =
    let body : invoice_fault (verify_invoice_body bech32 invoice) ≡ ok decoded = ground arith in
    let escrow_ok : verify_escrow_against_terms terms escrow ≡ ok tt = ground arith in
    record {
      matches =
          verify_invoice_body-Matches bech32 invoice decoded
            (invoice_fault-ok bech32 invoice decoded (verify_invoice_body bech32 invoice) body);
      locked = verify_escrow-MatchesTerms terms escrow escrow_ok;
      same_payment = ground arith;
      in_time = ground arith;
    }

-- A time that is found ahead of now lies the margin ahead.
pub check_ahead-margin :
    (now time margin : ℕ) (t : Number) (reached soon : String)
    → t ≡ nat time
    → check_ahead (nat now) t margin reached soon ≡ ok tt
    → now + margin ≤ time
unfolding check_ahead
check_ahead-margin now time margin t reached soon same h =
    let at_time : check_ahead (nat now) (nat time) margin reached soon ≡ ok tt = rw same at h in
    ground arith
