-- ===== src/Swap/Machine/Negotiation.antt =====
-- The cases TERMS and ACCEPT of `applySwapEnvelope`.
use swapfloor.Common.{not, ◌&&◌, [], ◌∷◌, Result, ok, guard, when, ◌>>◌, if◌then◌else◌}
use swapfloor.Js.Text.{Text}
use swapfloor.Js.Value.{Value, null, str, get, truthy, is_present}
use swapfloor.Swap.Constants.{State}
use swapfloor.Swap.Envelope.{Crypto, hash_unsigned_envelope, strip_signature}
use swapfloor.Swap.Machine.Core.{
  in_state, Trade, state_eq, state_in, require_signer, same_hex, after, is_finite_time,
}

-- New terms drop the evidence gathered under the old ones.
abbrev pub replace_terms : Trade → Value → Text → Trade
replace_terms next body hash = record next {
  terms = body;
  terms_hash = str hash;
  state = State.terms;
  accepted_at = null;
  invoice = null;
  escrow = null;
  ln_paid = null;
  claimed = null;
  refunded = null;
}

-- After ACCEPT only a replay of the same terms is let through.
unfoldable pub terms_result : Trade → Value → Text → Result Trade
terms_result next body hash =
    if state_in next.state (State.init ∷ State.terms ∷ [])
    then ok (replace_terms next body hash)
    else (do
      guard (same_hex next.terms_hash (str hash)) (in_state "TERMS not allowed" next.state)
      ok next)

unfoldable pub on_terms : Crypto → Value → Trade → Result Trade
unfolding terms_result
on_terms crypto envelope next = do
  require_signer envelope (get (get envelope "body") "ln_receiver_peer") "terms"
  when (truthy next.terms) (require_signer envelope (get next.terms "ln_receiver_peer") "terms")
  terms_result next (get envelope "body") (hash_unsigned_envelope crypto (strip_signature envelope))

-- An ACCEPT that repeats an earlier one.
unfoldable pub accept_again : Value → Trade → Result Trade
accept_again envelope next = do
  guard (not (state_eq next.state State.canceled)) (in_state "ACCEPT not allowed" next.state)
  require_signer envelope (get next.terms "ln_payer_peer") "accept"
  guard (same_hex (get (get envelope "body") "terms_hash") next.terms_hash)
      "ACCEPT terms_hash mismatch"
  ok next

unfoldable pub check_terms_window : Value → Trade → Result (Unit {0})
check_terms_window envelope next = when (is_present (get next.terms "terms_valid_until_unix")) (do
  guard (is_finite_time (get next.terms "terms_valid_until_unix"))
      "ACCEPT invalid terms_valid_until_unix"
  guard (not (after envelope (get next.terms "terms_valid_until_unix")))
      "ACCEPT arrived after terms expiry")

unfoldable pub accept_first : Value → Trade → Result Trade
unfolding check_terms_window
accept_first envelope next = do
  check_terms_window envelope next
  require_signer envelope (get next.terms "ln_payer_peer") "accept"
  guard (same_hex (get (get envelope "body") "terms_hash") next.terms_hash)
      "ACCEPT terms_hash mismatch"
  ok (record next { state = State.accepted; accepted_at = get envelope "ts" })

unfoldable pub on_accept : Value → Trade → Result Trade
unfolding accept_again accept_first
on_accept envelope next = do
  guard (truthy next.terms && truthy next.terms_hash) "ACCEPT requires active terms"
  if state_eq next.state State.terms then accept_first envelope next else accept_again envelope next
