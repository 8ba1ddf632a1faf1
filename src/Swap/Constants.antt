-- ===== src/Swap/Constants.antt =====
-- src/swap/constants.js
use swapfloor.Common.{String, ℕ, Option, none, some, List, [], ◌∷◌, if◌then◌else◌}
use swapfloor.Js.Text.{Text, codes, text_eq}

abbrev pub swap_protocol_version : ℕ
swap_protocol_version = 1

pub data Asset : Type 0 where
  btc_ln usdt_sol : Asset

abbrev pub asset_name : Asset → String
asset_name btc_ln = "BTC_LN"
asset_name usdt_sol = "USDT_SOL"

-- `PAIR.BTC_LN__USDT_SOL`
abbrev pub btc_ln_usdt_sol : String
btc_ln_usdt_sol = "BTC_LN/USDT_SOL"

pub data Kind : Type 0 where
  svc_announce rfq quote quote_accept swap_invite : Kind
  terms accept cancel status : Kind
  ln_invoice sol_escrow_created ln_paid sol_claimed sol_refunded : Kind

abbrev pub kind_name : Kind → String
kind_name svc_announce = "swap.svc_announce"
kind_name rfq = "swap.rfq"
kind_name quote = "swap.quote"
kind_name quote_accept = "swap.quote_accept"
kind_name swap_invite = "swap.swap_invite"
kind_name terms = "swap.terms"
kind_name accept = "swap.accept"
kind_name cancel = "swap.cancel"
kind_name status = "swap.status"
kind_name ln_invoice = "swap.ln_invoice"
kind_name sol_escrow_created = "swap.sol_escrow_created"
kind_name ln_paid = "swap.ln_paid"
kind_name sol_claimed = "swap.sol_claimed"
kind_name sol_refunded = "swap.sol_refunded"

pub data State : Type 0 where
  init terms accepted invoice escrow ln_paid claimed refunded canceled : State

abbrev pub state_name : State → String
state_name State.init = "init"
state_name State.terms = "terms"
state_name State.accepted = "accepted"
state_name State.invoice = "invoice"
state_name State.escrow = "escrow"
state_name State.ln_paid = "ln_paid"
state_name State.claimed = "claimed"
state_name State.refunded = "refunded"
state_name State.canceled = "canceled"

abbrev pub kinds : List Kind
kinds =
    svc_announce ∷ rfq ∷ quote ∷ quote_accept ∷ swap_invite ∷ Kind.terms ∷ accept ∷ cancel ∷ status
    ∷ ln_invoice ∷ sol_escrow_created ∷ Kind.ln_paid ∷ sol_claimed ∷ sol_refunded ∷ []

abbrev pub states : List State
states =
    State.init ∷ State.terms ∷ State.accepted ∷ State.invoice ∷ State.escrow ∷ State.ln_paid
    ∷ State.claimed ∷ State.refunded ∷ State.canceled ∷ []

find_kind : Text → List Kind → Option Kind
find_kind t [] = none
find_kind t (k ∷ ks) =
    let rest = find_kind t ks in if text_eq t (codes (kind_name k)) then some k else rest

-- The case of a `switch` on a kind that the text selects.
unfoldable pub kind_of : Text → Option Kind
unfolding find_kind text_eq
kind_of t = find_kind t kinds
