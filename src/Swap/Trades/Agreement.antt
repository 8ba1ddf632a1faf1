-- ===== src/Swap/Trades/Agreement.antt =====
-- What the evidence of a locked trade says, as equations.
use swapfloor.Common.{true, false, ok, ◌≡◌, refl, ap, arith, List}
use swapfloor.Js.Text.{eq_of_text_eq}
use swapfloor.Js.Value.{
  Value, Number, nat, negsuc, undefined, null, bool, num, str, get, strict_eq, to_text, number_eq,
}
use swapfloor.Js.Convert.{normalize_hex}
use swapfloor.Swap.Envelope.{Crypto}
use swapfloor.Swap.Machine.{apply_all}
use swapfloor.Swap.Machine.Core.{Trade, create_initial_trade, same_hex, same_text}
use swapfloor.Swap.Trades.Invariant.{is_locked}
use swapfloor.Swap.Trades.Preserved.{apply_all-IsConsistent}

eq_of_number_eq : (a b : Number) → number_eq a b ≡ true → a ≡ b
eq_of_number_eq (nat a) (nat b) h = ground arith
eq_of_number_eq (negsuc a) (negsuc b) h = ground arith
eq_of_number_eq _ _ h = cc

-- `===` on values that are no references is equality.
pub eq_of_strict_eq : (a b : Value) → strict_eq a b ≡ true → a ≡ b
unfolding strict_eq
eq_of_strict_eq undefined undefined h = refl
eq_of_strict_eq null null h = refl
eq_of_strict_eq (bool true) (bool b) h = ground arith
eq_of_strict_eq (bool false) (bool b) h = ground arith
eq_of_strict_eq (num a) (num b) h = ap num (eq_of_number_eq a b h)
eq_of_strict_eq (str a) (str b) h = ap str (eq_of_text_eq a b h)
eq_of_strict_eq _ _ h = cc

eq_of_same_hex : (a b : Value) → same_hex a b ≡ true → normalize_hex a ≡ normalize_hex b
unfolding same_hex
eq_of_same_hex a b h = eq_of_text_eq (normalize_hex a) (normalize_hex b) h

eq_of_same_text : (a b : Value) → same_text a b ≡ true → to_text a ≡ to_text b
unfolding same_text
eq_of_same_text a b h = eq_of_text_eq (to_text a) (to_text b) h

-- Escrow, invoice and terms of a trade speak of one swap.
pub record Agrees (t : Trade) : Type 0 where
  pub recipient : get t.escrow "recipient" ≡ get t.terms "sol_recipient"
  pub refund : get t.escrow "refund" ≡ get t.terms "sol_refund"
  pub mint : get t.escrow "mint" ≡ get t.terms "sol_mint"
  pub amount : to_text (get t.escrow "amount") ≡ to_text (get t.terms "usdt_amount")
  pub payment_hash :
      normalize_hex (get t.escrow "payment_hash_hex")
      ≡ normalize_hex (get t.invoice "payment_hash_hex")

-- After any sequence of envelopes, a trade in state escrow, ln_paid, claimed or refunded has an
-- escrow with the recipient, refund address, mint and amount of its terms, and with the payment
-- hash of its invoice.
pub locked-Agrees :
    (crypto : Crypto) (id : Value) (trade : Trade) (es : List Value)
    → create_initial_trade id ≡ ok trade
    → is_locked (apply_all crypto trade es).state ≡ true
    → Agrees (apply_all crypto trade es)
locked-Agrees crypto id trade es h locked =
    let t = apply_all crypto trade es in
    let v = apply_all-IsConsistent crypto id trade es h in
    let m = v.matches locked in
    record {
      recipient =
          eq_of_strict_eq (get t.escrow "recipient") (get t.terms "sol_recipient") m.recipient;
      refund = eq_of_strict_eq (get t.escrow "refund") (get t.terms "sol_refund") m.refund;
      mint = eq_of_strict_eq (get t.escrow "mint") (get t.terms "sol_mint") m.mint;
      amount = eq_of_same_text (get t.escrow "amount") (get t.terms "usdt_amount") m.amount;
      payment_hash =
          eq_of_same_hex (get t.escrow "payment_hash_hex") (get t.invoice "payment_hash_hex")
            (v.one_hash locked);
    }
