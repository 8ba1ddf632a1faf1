-- ===== src/Swap/Valid/Refuses.antt =====
-- The schema refuses by a result, and never by an exception.
use swapfloor.Common.{
  ℕ, String, Option, none, some, Result, ◌>>◌, Returns, returns, guard-Returns, guard->>-Returns,
  >>-Returns,
}
use swapfloor.Js.Value.{Value, is_object, Items, nil, cons, arr, get}
use swapfloor.Swap.Constants.{
  Kind, svc_announce, rfq, quote, quote_accept, swap_invite, accept, cancel, status, ln_invoice,
  sol_escrow_created, sol_claimed, sol_refunded,
}
use swapfloor.Swap.Schema.{
  validate_swap_envelope, validate_swap_envelope_shape, validate_swap_body, validate_kind,
  validate_known, kind_of_value,
}
use swapfloor.Swap.Schema.Negotiation.{
  validate_offers, validate_offer_array, validate_svc_announce, validate_rfq, validate_quote,
  validate_quote_accept, validate_swap_invite, fee_ceiling, refund_window, validate_invite,
}
use swapfloor.Swap.Schema.Settlement.{
  validate_terms, validate_fees, validate_accept, validate_ln_invoice, validate_sol_escrow_created,
  validate_ln_paid, validate_outcome, validate_cancel, validate_status,
}

validate_offers-Returns : (offers : Items) → Returns (validate_offers offers)
unfolding validate_offers
validate_offers-Returns nil = tt
validate_offers-Returns (cons x xs) = search (returns, validate_offers-Returns xs) depth 12

validate_offer_array-Returns : (v : Value) → Returns (validate_offer_array v)
unfolding validate_offer_array
validate_offer_array-Returns (arr xs) = validate_offers-Returns xs
validate_offer_array-Returns _ = tt

fee_ceiling-Returns : (v : Value) (n : ℕ) (a b : String) → Returns (fee_ceiling v n a b)
unfolding fee_ceiling
fee_ceiling-Returns v n a b = search returns depth 12

refund_window-Returns : (v : Value) (a b c : String) → Returns (refund_window v a b c)
unfolding refund_window
refund_window-Returns v a b c = search returns depth 12

validate_invite-Returns : (v : Value) → Returns (validate_invite v)
unfolding validate_invite
validate_invite-Returns v = search returns depth 12

validate_svc_announce-Returns : (v : Value) → Returns (validate_svc_announce v)
unfolding validate_svc_announce
validate_svc_announce-Returns v = search (returns, validate_offer_array-Returns) depth 40

fee_ceiling->>-Returns :
    (v : Value) (n : ℕ) (a b : String) (k : Result (Unit {0}))
    → Returns k
    → Returns (fee_ceiling v n a b >> k)
fee_ceiling->>-Returns v n a b k h = >>-Returns _ k (fee_ceiling-Returns v n a b) h

refund_window->>-Returns :
    (v : Value) (a b c : String) (k : Result (Unit {0}))
    → Returns k
    → Returns (refund_window v a b c >> k)
refund_window->>-Returns v a b c k h = >>-Returns _ k (refund_window-Returns v a b c) h

validate_invite->>-Returns :
    (v : Value) (k : Result (Unit {0})) → Returns k → Returns (validate_invite v >> k)
validate_invite->>-Returns v k h = >>-Returns _ k (validate_invite-Returns v) h

ruleset steps = (
  guard-Returns, guard->>-Returns, fee_ceiling->>-Returns, refund_window->>-Returns,
  validate_invite->>-Returns,
)

validate_rfq-Returns : (v : Value) → Returns (validate_rfq v)
unfolding validate_rfq
validate_rfq-Returns v = search steps depth 40

validate_quote-Returns : (v : Value) → Returns (validate_quote v)
unfolding validate_quote
validate_quote-Returns v = search steps depth 40

validate_quote_accept-Returns : (v : Value) → Returns (validate_quote_accept v)
unfolding validate_quote_accept
validate_quote_accept-Returns v = search steps depth 40

validate_swap_invite-Returns : (v : Value) → Returns (validate_swap_invite v)
unfolding validate_swap_invite
validate_swap_invite-Returns v = search steps depth 40

validate_fees-Returns : (v : Value) → Returns (validate_fees v)
unfolding validate_fees
validate_fees-Returns v = search steps depth 40

validate_fees->>-Returns :
    (v : Value) (k : Result (Unit {0})) → Returns k → Returns (validate_fees v >> k)
validate_fees->>-Returns v k h = >>-Returns _ k (validate_fees-Returns v) h

validate_terms-Returns : (v : Value) → Returns (validate_terms v)
unfolding validate_terms
validate_terms-Returns v = search (steps, validate_fees->>-Returns) depth 40

validate_ln_invoice-Returns : (v : Value) → Returns (validate_ln_invoice v)
unfolding validate_ln_invoice
validate_ln_invoice-Returns v = search steps depth 40

validate_sol_escrow_created-Returns : (v : Value) → Returns (validate_sol_escrow_created v)
unfolding validate_sol_escrow_created
validate_sol_escrow_created-Returns v = search steps depth 40

validate_ln_paid-Returns : (v : Value) → Returns (validate_ln_paid v)
unfolding validate_ln_paid
validate_ln_paid-Returns v = search steps depth 40

validate_outcome-Returns : (label : String) (v : Value) → Returns (validate_outcome label v)
unfolding validate_outcome
validate_outcome-Returns label v = search steps depth 40

validate_status-Returns : (v : Value) → Returns (validate_status v)
unfolding validate_status
validate_status-Returns v = search steps depth 40

validate_kind-Returns : (k : Kind) (v : Value) → Returns (validate_kind k v)
unfolding validate_kind validate_accept validate_cancel
validate_kind-Returns svc_announce v = validate_svc_announce-Returns v
validate_kind-Returns rfq v = validate_rfq-Returns v
validate_kind-Returns quote v = validate_quote-Returns v
validate_kind-Returns quote_accept v = validate_quote_accept-Returns v
validate_kind-Returns swap_invite v = validate_swap_invite-Returns v
validate_kind-Returns Kind.terms v = validate_terms-Returns v
validate_kind-Returns accept v = guard-Returns _ _
validate_kind-Returns cancel v = guard-Returns _ _
validate_kind-Returns status v = validate_status-Returns v
validate_kind-Returns ln_invoice v = validate_ln_invoice-Returns v
validate_kind-Returns sol_escrow_created v = validate_sol_escrow_created-Returns v
validate_kind-Returns Kind.ln_paid v = validate_ln_paid-Returns v
validate_kind-Returns sol_claimed v = validate_outcome-Returns "sol_claimed" v
validate_kind-Returns sol_refunded v = validate_outcome-Returns "sol_refunded" v

validate_known-Returns : (k : Option Kind) (v : Value) → Returns (validate_known k v)
unfolding validate_known
validate_known-Returns none v = tt
validate_known-Returns (some k) v = validate_kind-Returns k v

pub validate_swap_envelope-Returns : (e : Value) → Returns (validate_swap_envelope e)
unfolding validate_swap_envelope validate_swap_envelope_shape validate_swap_body
validate_swap_envelope-Returns e =
    >>-Returns (validate_swap_envelope_shape e) (validate_swap_body (get e "kind") (get e "body"))
      (search steps depth 40)
      (guard->>-Returns (is_object (get e "body")) "Body must be an object"
        (validate_known (kind_of_value (get e "kind")) (get e "body"))
        (validate_known-Returns (kind_of_value (get e "kind")) (get e "body")))
