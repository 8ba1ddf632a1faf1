-- ===== src/Auto/Answers.antt =====
-- `matchOfferForRfq` as a whole: what it gives, and when it gives nothing.
use swapfloor.Common.{ℕ, ◌≤◌, ◌≡◌, true, some, List, arith}
use swapfloor.Js.Text.{Text}
use swapfloor.Js.Value.{Number, nat, negsuc, nan, Value, get}
use swapfloor.Swap.Envelope.{Crypto}
use swapfloor.Swap.Listings.{trimmed}
use swapfloor.Auto.Events.{to_int_or_null}
use swapfloor.Auto.Offers.{
  clamped, bounded, Wanted, wanted_of, has_amounts, Match, match_offers, match_offer_for_rfq,
}
use swapfloor.Auto.Matching.{IsLine, IsFrom, IsMatch, match_offers-IsMatch}

clamped_within :
    (low high default : ℕ) (n : Number)
    → low ≤ high
    → (low ≤ clamped low high default n) × (clamped low high default n ≤ high)
unfolding clamped
clamped_within low high default (nat n) h = ground arith
clamped_within low high default (negsuc n) h = ground arith
clamped_within low high default nan h = ground arith

-- An hour to a week.
windows_within :
    (body : Value) → (3600 ≤ (wanted_of body).min_window) × ((wanted_of body).max_window ≤ 604800)
unfolding wanted_of bounded
windows_within body =
    let least =
      clamped_within 3600 604800 3600 (to_int_or_null (get body "min_sol_refund_window_sec"))
        (omega arith) in
    let most =
      clamped_within 3600 604800 604800 (to_int_or_null (get body "max_sol_refund_window_sec"))
        (omega arith) in
    (least.0, most.1)

module _ (crypto : Crypto) (now_sec : ℕ) (rfq_evt : Value) (offers : List Value) where
  abbrev pub body : Value
  body = get (get rfq_evt "message") "body"

  abbrev pub rfq : Wanted
  rfq = wanted_of body

  abbrev pub channel : Text
  channel = trimmed (get rfq_evt "channel")

  -- An RFQ is answered only from a line of an open offer of the list: with the amounts of the RFQ,
  -- fee caps within its own, and a refund window that both allow, between an hour and a week.
  pub match_offer_for_rfq-IsMatch :
      (m : Match)
      → match_offer_for_rfq crypto now_sec rfq_evt offers ≡ some m
      → (has_amounts rfq ≡ true)
        × IsMatch crypto now_sec channel rfq offers m
        × (3600 ≤ m.sol_refund_window_sec)
        × (m.sol_refund_window_sec ≤ 604800)
  unfolding match_offer_for_rfq IsMatch IsFrom IsLine
  match_offer_for_rfq-IsMatch m h =
      let amounts : has_amounts rfq ≡ true = ground (arith, h) in
      let searched : match_offers crypto now_sec channel rfq offers ≡ some m = ground (arith, h) in
      let got = match_offers-IsMatch crypto now_sec channel rfq offers m searched in
      let (_, _, _, (_, _, _, (_, _, _, _, (_, _, _, _, _, w₁, w₂, _, _)))) = got in
      let (least, most) = windows_within body in
      (amounts, got, omega (arith, least, w₁), omega (arith, most, w₂))
