-- ===== src/Swap/Payer/Secured.antt =====
-- What holds on the chain, against the terms, when `verifySwapPrePayOnchain` lets a payment through.
use swapfloor.Common.{ℕ, List, ◌+◌, ok, some, ◌≡◌}
use swapfloor.Js.Text.{trim}
use swapfloor.Js.Value.{Value, nat, str, get, to_text}
use swapfloor.Js.Convert.{big_int}
use swapfloor.Solana.Keys.{Web3}
use swapfloor.Solana.Accounts.{decode_escrow_state}
use swapfloor.Solana.OnChain.{Chain, TokenAccount, Verified}

-- The escrow account is active and pays the recipient of the terms, and its vault holds the amount
-- of the terms together with the fees.
pub record Secured (web3 : Web3) (chain : Chain) (terms : Value) (v : Verified) : Type 0 where
  pub account : List ℕ
  pub found : chain.get_account_info v.escrow_pda ≡ ok (some account)
  pub decoded : decode_escrow_state account ≡ ok v.state
  pub active : v.state.status ≡ 0
  pub recipient : web3.to_base58 v.state.recipient ≡ trim (to_text (get terms "sol_recipient"))
  pub refund : web3.to_base58 v.state.refund ≡ trim (to_text (get terms "sol_refund"))
  pub mint : web3.to_base58 v.state.mint ≡ trim (to_text (get terms "sol_mint"))
  pub amount : big_int (str (to_text (get terms "usdt_amount"))) ≡ ok (nat v.state.net_amount)
  pub vault : TokenAccount
  pub loaded : chain.get_account v.vault_ata ≡ ok vault
  pub owner : vault.owner ≡ v.escrow_pda
  pub balance : vault.amount ≡ v.state.net_amount + v.state.fee_amount
