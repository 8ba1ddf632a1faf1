-- ===== src/Swap/Schema.antt =====
-- src/swap/schema.js: which envelopes and bodies are accepted.
pub mod Field
pub mod Negotiation
pub mod Settlement
use swapfloor.Common.{
  String, Bool, true, false, Option, none, some, Result, ok, err, refused, guard, ◌>>◌,
}
use swapfloor.Js.Text.{Text}
use swapfloor.Js.Value.{nat, Value, num, str, obj, get, has_key, is_object, strict_eq}
use swapfloor.Swap.Constants.{
  Kind, svc_announce, rfq, quote, quote_accept, swap_invite, terms, accept, cancel, status,
  ln_invoice, sol_escrow_created, ln_paid, sol_claimed, sol_refunded, kind_of,
  swap_protocol_version,
}
use Field.{is_uint, is_nonempty_string}
use Negotiation.{
  validate_svc_announce, validate_rfq, validate_quote, validate_quote_accept, validate_swap_invite,
}
use Settlement.{
  validate_terms, validate_accept, validate_ln_invoice, validate_sol_escrow_created,
  validate_ln_paid, validate_outcome, validate_cancel, validate_status,
}

-- `'body' in envelope`
has_body : Value → Bool
has_body (obj fs) = has_key "body" fs
has_body _ = false

unfoldable pub validate_swap_envelope_shape : Value → Result (Unit {0})
unfolding has_body
validate_swap_envelope_shape envelope = do
  guard (is_object envelope) "Envelope must be an object"
  guard (is_uint (get envelope "v")) "Envelope.v must be an integer >= 0"
  guard (strict_eq (get envelope "v") (num (nat swap_protocol_version)))
      "Unsupported swap envelope version"
  guard (is_nonempty_string (get envelope "kind")) "Envelope.kind is required"
  guard (is_nonempty_string (get envelope "trade_id")) "Envelope.trade_id is required"
  guard (is_uint (get envelope "ts")) "Envelope.ts must be an integer unix ms timestamp"
  guard (is_nonempty_string (get envelope "nonce")) "Envelope.nonce is required"
  guard (has_body envelope) "Envelope.body is required"

-- The case of a known kind.
unfoldable pub validate_kind : Kind → Value → Result (Unit {0})
validate_kind svc_announce body = validate_svc_announce body
validate_kind rfq body = validate_rfq body
validate_kind quote body = validate_quote body
validate_kind quote_accept body = validate_quote_accept body
validate_kind swap_invite body = validate_swap_invite body
validate_kind Kind.terms body = validate_terms body
validate_kind accept body = validate_accept body
validate_kind cancel body = validate_cancel body
validate_kind status body = validate_status body
validate_kind ln_invoice body = validate_ln_invoice body
validate_kind sol_escrow_created body = validate_sol_escrow_created body
validate_kind Kind.ln_paid body = validate_ln_paid body
validate_kind sol_claimed body = validate_outcome "sol_claimed" body
validate_kind sol_refunded body = validate_outcome "sol_refunded" body

-- The kind that a value selects in a `switch`.
unfoldable pub kind_of_value : Value → Option Kind
kind_of_value (str t) = kind_of t
kind_of_value _ = none

unfoldable pub validate_known : Option Kind → Value → Result (Unit {0})
unfolding validate_kind
validate_known none body = err (refused "Unknown swap kind")
validate_known (some k) body = validate_kind k body

unfoldable pub validate_swap_body : Value → Value → Result (Unit {0})
unfolding validate_known
validate_swap_body kind body = do
  guard (is_object body) "Body must be an object"
  validate_known (kind_of_value kind) body

unfoldable pub validate_swap_envelope : Value → Result (Unit {0})
validate_swap_envelope envelope = do
  validate_swap_envelope_shape envelope
  validate_swap_body (get envelope "kind") (get envelope "body")
