-- ===== src/Swap/Tests/Payments.antt =====
-- The payer's checks at work on the sample swap.
use swapfloor.Common.{ℕ, zero, suc, ◌≤◌, ◌≡◌, refl, some, none, List, [], ◌∷◌, ◌++◌, ok, arith}
use swapfloor.Js.Text.{codes}
use swapfloor.Js.Value.{Value, get, lookup, obj, field, end}
use swapfloor.Ln.Bolt11.{
  Decoded, decode_words, decode_bolt11, verify_bolt11_matches_invoice_body, hash_matches,
  check_msat, check_expiry, caught,
}
use swapfloor.Ln.Bolt11.Tags.{Bech32, read_tags, read_field, tag_loop, words_to_big_int}
use swapfloor.Ln.Bolt11.Amount.{
  parse_hrp_amount_msat, scaled, before_digit, from_digit, digits_of, after_digits,
}
use swapfloor.Swap.Constants.{State}
use swapfloor.Swap.Machine.Payment.{on_ln_paid}
use swapfloor.Swap.Prepay.{
  verify_invoice_body, verify_escrow_against_terms, invoice_fault, check_ahead, check_times,
  verify_swap_pre_pay,
}
use swapfloor.Swap.Payer.Covers.{
  at, verify_swap_pre_pay_margins, verify_swap_pre_pay_recorded, verify_swap_pre_pay_sats,
}
use swapfloor.Swap.Tests.Sample.{machine, at_escrow, pay, number}

abbrev pub zeros : ℕ → List ℕ
zeros zero = []
zeros (suc n) = 0 ∷ zeros n

-- An invoice for 500 nano-bitcoin of time 100 that expires after 100 seconds.
abbrev pub bech32 : Bech32
bech32 = record {
  decode = λ t. some (
    codes "lnbc500n",
    (0 ∷ 0 ∷ 0 ∷ 0 ∷ 0 ∷ 3 ∷ 4 ∷ []) ++ ((6 ∷ 0 ∷ 2 ∷ 3 ∷ 4 ∷ []) ++ zeros 104),
  );
  from_words = λ ws. some ws;
  bytes_to_hex = λ bytes. bytes;
}

abbrev pub decoded : Decoded
decoded = record {
  hrp = codes "lnbc500n";
  currency = codes "bc";
  amount_msat = some 50000;
  timestamp_unix = 100;
  payment_hash_hex = none;
  expiry_seconds = 100;
  expires_at_unix = 200;
}

pub let_through :
    verify_swap_pre_pay bech32 at_escrow.terms at_escrow.invoice at_escrow.escrow (at 100)
    ≡ ok decoded
unfolding machine decode_words decode_bolt11 verify_bolt11_matches_invoice_body hash_matches
    check_msat check_expiry caught read_tags read_field tag_loop words_to_big_int
    parse_hrp_amount_msat scaled before_digit from_digit digits_of after_digits verify_invoice_body
    verify_escrow_against_terms invoice_fault check_ahead check_times verify_swap_pre_pay
let_through = refl

verify_swap_pre_pay_margins_example : (160 ≤ 200) × (700 ≤ 9000)
unfolding machine
verify_swap_pre_pay_margins_example =
    verify_swap_pre_pay_margins bech32 at_escrow.terms at_escrow.invoice at_escrow.escrow 100
      decoded 9000 refl refl let_through

verify_swap_pre_pay_recorded_example :
    on_ln_paid pay at_escrow
    ≡ ok (record at_escrow { ln_paid = get pay "body"; state = State.ln_paid })
unfolding machine
verify_swap_pre_pay_recorded_example =
    verify_swap_pre_pay_recorded bech32 at_escrow pay 100 5000 decoded refl refl refl refl refl
      let_through refl refl refl (omega arith)

-- Terms of the sample for one satoshi.
abbrev cheap_terms : Value
unfolding get lookup
cheap_terms = obj (
    field "btc_sats" (number 1) (
      field "sol_recipient" (get at_escrow.terms "sol_recipient") (
        field "sol_refund" (get at_escrow.terms "sol_refund") (
          field "sol_mint" (get at_escrow.terms "sol_mint") (
            field "usdt_amount" (get at_escrow.terms "usdt_amount")
              (field "sol_refund_after_unix" (get at_escrow.terms "sol_refund_after_unix") end))))))

verify_swap_pre_pay_sats_example :
    verify_swap_pre_pay bech32 cheap_terms at_escrow.invoice at_escrow.escrow (at 100)
    ≡ verify_swap_pre_pay bech32 at_escrow.terms at_escrow.invoice at_escrow.escrow (at 100)
unfolding machine
verify_swap_pre_pay_sats_example =
    verify_swap_pre_pay_sats bech32 at_escrow.terms cheap_terms at_escrow.invoice at_escrow.escrow
      (at 100)
      (record {
        reference = refl;
        recipient = refl;
        refund = refl;
        mint = refl;
        amount = refl;
        refund_time = refl;
      })
