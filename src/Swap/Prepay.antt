-- ===== src/Swap/Prepay.antt =====
-- src/swap/verify.js: what the payer checks before the Lightning payment.
use Prim.Native.String
use swapfloor.Common.{
  ℕ, ◌+◌, ◌-◌, String, Bool, not, ◌&&◌, ◌||◌, Result, ok, err, refused, thrown, guard, when, ◌>>=◌,
  ◌>>◌, if◌then◌else◌, leb,
}
use swapfloor.Js.Value.{
  Value, is_reference, Number, nat, negsuc, nan, get, is_present, number_eq, number_lt,
  number_is_finite,
}
use swapfloor.Js.Convert.{to_number}
use swapfloor.Ln.Bolt11.{Decoded, verify_bolt11_matches_invoice_body}
use swapfloor.Ln.Bolt11.Tags.{Bech32}
use swapfloor.Swap.Machine.Core.{same_hex, same_text}
use swapfloor.Solana.Keys.{Web3}
use swapfloor.Solana.OnChain.{Chain, Verified, verify_ln_usdt_escrow_onchain}

abbrev pub min_refund_delta : ℕ
min_refund_delta = 600

abbrev pub min_invoice_expiry_delta : ℕ
min_invoice_expiry_delta = 60

-- `a >= b`
abbrev pub number_ge : Number → Number → Bool
number_ge a b = number_lt b a || number_eq a b

-- `a - b`
abbrev pub number_minus : Number → Number → Number
number_minus (nat a) (nat b) = if leb b a then nat (a - b) else negsuc (b - a - 1)
number_minus (negsuc a) (nat b) = negsuc (a + b)
number_minus (nat a) (negsuc b) = nat (a + b + 1)
number_minus (negsuc a) (negsuc b) = if leb a b then nat (b - a) else negsuc (a - b - 1)
number_minus _ _ = nan

unfoldable pub verify_invoice_body : Bech32 → Value → Result Decoded
verify_invoice_body bech32 invoice = do
  guard (is_reference invoice) "invoiceBody is required"
  verify_bolt11_matches_invoice_body bech32 (get invoice "bolt11") (get invoice "payment_hash_hex")
      (get invoice "amount_msat") (get invoice "expires_at_unix")

unfoldable pub verify_escrow_against_terms : Value → Value → Result (Unit {0})
verify_escrow_against_terms terms escrow = do
  guard (is_reference terms) "terms is required"
  guard (is_reference escrow) "escrowBody is required"
  guard (same_text (get escrow "recipient") (get terms "sol_recipient"))
      "escrow recipient mismatch vs terms"
  guard (same_text (get escrow "refund") (get terms "sol_refund")) "escrow refund mismatch vs terms"
  guard (same_text (get escrow "mint") (get terms "sol_mint")) "escrow mint mismatch vs terms"
  guard (same_text (get escrow "amount") (get terms "usdt_amount"))
      "escrow amount mismatch vs terms"
  guard
      (not (
        number_lt (to_number (get escrow "refund_after_unix"))
          (to_number (get terms "sol_refund_after_unix"))))
      "escrow refund_after_unix earlier than terms"

-- `invoice invalid: ${error}`
unfoldable pub invoice_fault : Result Decoded → Result Decoded
invoice_fault (ok d) = ok d
invoice_fault (err (refused m)) = err (refused (String.◌++◌ "invoice invalid: " m))
invoice_fault (err (thrown m)) = err (thrown m)

-- A time is ahead of `now`, by at least `margin` seconds.
unfoldable pub check_ahead : Number → Number → ℕ → String → String → Result (Unit {0})
check_ahead now time margin reached soon = do
  guard (not (number_ge now time)) reached
  guard
      (not (
        number_is_finite (number_minus time now) && number_lt (number_minus time now) (nat margin)))
      soon

-- The expiry of the message, or else that of the decoded invoice.
abbrev pub invoice_expiry : Value → Decoded → Number
invoice_expiry invoice decoded =
    if is_present (get invoice "expires_at_unix")
    then to_number (get invoice "expires_at_unix")
    else nat decoded.expires_at_unix

unfoldable pub check_times : Value → Value → Value → Decoded → Result (Unit {0})
check_times invoice escrow now decoded = when (is_present now) (do
  guard (number_is_finite (to_number now) && number_lt (nat 0) (to_number now))
      "now_unix must be a unix seconds number"
  check_ahead (to_number now) (invoice_expiry invoice decoded) min_invoice_expiry_delta
      "invoice already expired" "invoice expires too soon (need >=60s margin)"
  when (is_present (get escrow "refund_after_unix")) (
      check_ahead (to_number now) (to_number (get escrow "refund_after_unix")) min_refund_delta
        "escrow refund_after already reached"
        "escrow refund_after too soon (need >=600s claim margin)"))

-- `now` is `null` where the caller gives none.
unfoldable pub verify_swap_pre_pay : Bech32 → Value → Value → Value → Value → Result Decoded
verify_swap_pre_pay bech32 terms invoice escrow now = do
  guard (is_reference terms) "terms is required"
  guard (is_reference invoice) "invoiceBody is required"
  guard (is_reference escrow) "escrowBody is required"
  decoded ← invoice_fault (verify_invoice_body bech32 invoice)
  verify_escrow_against_terms terms escrow
  guard (same_hex (get invoice "payment_hash_hex") (get escrow "payment_hash_hex"))
      "payment_hash mismatch (invoice vs escrow)"
  check_times invoice escrow now decoded
  ok decoded

-- `escrow onchain invalid: ${error}`
unfoldable pub onchain_fault : Result Verified → Result Verified
onchain_fault (ok v) = ok v
onchain_fault (err (refused m)) = err (refused (String.◌++◌ "escrow onchain invalid: " m))
onchain_fault (err (thrown m)) = err (thrown m)

unfoldable pub verify_swap_pre_pay_onchain :
    Bech32 → Web3 → Chain → Value → Value → Value → Value → Result (Decoded × Verified)
verify_swap_pre_pay_onchain bech32 web3 chain terms invoice escrow now = do
  decoded ← verify_swap_pre_pay bech32 terms invoice escrow now
  onchain ← onchain_fault (verify_ln_usdt_escrow_onchain web3 chain escrow)
  ok (decoded, onchain)
