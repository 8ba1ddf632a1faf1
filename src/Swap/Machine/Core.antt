-- ===== src/Swap/Machine/Core.antt =====
-- The trade record of src/swap/stateMachine.js and the helpers that its cases share.
use Prim.Native.String
use swapfloor.Common.{
  ℕ, String, Bool, false, not, ◌&&◌, ◌||◌, List, [], ◌∷◌, Result, ok, err, thrown, guard, ◌==◌,
  if◌then◌else◌,
}
use swapfloor.Js.Text.{text_eq, is_empty}
use swapfloor.Js.Value.{Value, null, obj, end, field, get, number_lt, number_is_finite, to_text}
use swapfloor.Js.Convert.{normalize_hex, to_number, unix_sec_to_ms}
use swapfloor.Swap.Constants.{State, state_name}
use swapfloor.Swap.Schema.Field.{is_nonempty_string}

-- The evidence fields are `null` or the body of the envelope that supplied them.
pub record Trade : Type 0 where
  pub trade_id : Value
  pub state : State
  pub terms : Value
  pub terms_hash : Value
  pub invoice : Value
  pub escrow : Value
  pub ln_paid : Value
  pub claimed : Value
  pub refunded : Value
  pub last : Value
  pub accepted_at : Value
  pub canceled_reason : Value

initial : Value → Trade
initial id = record {
  trade_id = id;
  state = State.init;
  terms = null;
  terms_hash = null;
  invoice = null;
  escrow = null;
  ln_paid = null;
  claimed = null;
  refunded = null;
  last = null;
  accepted_at = null;
  canceled_reason = null;
}

unfoldable pub create_initial_trade : Value → Result Trade
unfolding initial
create_initial_trade id =
    if is_nonempty_string id then ok (initial id) else err (thrown "tradeId is required")

abbrev pub state_code : State → ℕ
state_code State.init = 0
state_code State.terms = 1
state_code State.accepted = 2
state_code State.invoice = 3
state_code State.escrow = 4
state_code State.ln_paid = 5
state_code State.claimed = 6
state_code State.refunded = 7
state_code State.canceled = 8

-- `===` on states, and `[…].includes(state)`.
abbrev pub state_eq : State → State → Bool
state_eq a b = state_code a == state_code b

abbrev pub state_in : State → List State → Bool
state_in s [] = false
state_in s (t ∷ ts) = state_eq s t || state_in s ts

-- `${label} in state=${state}`
abbrev pub in_state : String → State → String
in_state label s = String.◌++◌ label (String.◌++◌ " in state=" (state_name s))

-- The signer of the envelope is the expected peer, up to case and white space.
unfoldable pub signed_by : Value → Value → Bool
signed_by envelope expected =
    not (is_empty (normalize_hex (get envelope "signer")))
    && not (is_empty (normalize_hex expected))
    && text_eq (normalize_hex (get envelope "signer")) (normalize_hex expected)

unfoldable pub require_signer : Value → Value → String → Result (Unit {0})
require_signer envelope expected label =
    guard (signed_by envelope expected) (String.◌++◌ label ": wrong signer")

-- `normalizeHex(a) === normalizeHex(b)`
unfoldable pub same_hex : Value → Value → Bool
same_hex a b = text_eq (normalize_hex a) (normalize_hex b)

-- `String(a) === String(b)`
unfoldable pub same_text : Value → Value → Bool
same_text a b = text_eq (to_text a) (to_text b)

-- `envelope.ts > unixSecToMs(unix)`
unfoldable pub after : Value → Value → Bool
after envelope unix = number_lt (unix_sec_to_ms unix) (to_number (get envelope "ts"))

-- `envelope.ts < unixSecToMs(unix)`
unfoldable pub before : Value → Value → Bool
before envelope unix = number_lt (to_number (get envelope "ts")) (unix_sec_to_ms unix)

unfoldable pub is_finite_time : Value → Bool
is_finite_time unix = number_is_finite (unix_sec_to_ms unix)

-- `next.last = { kind, ts, signer }` on a copy of the trade.
abbrev pub with_last : Trade → Value → Trade
with_last trade envelope = record trade {
  last = obj (
      field "kind" (get envelope "kind")
        (field "ts" (get envelope "ts") (field "signer" (get envelope "signer") end)));
}
