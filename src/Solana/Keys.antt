-- ===== src/Solana/Keys.antt =====
-- src/solana/lnUsdtEscrowClient.js: the addresses that belong to a swap.
use swapfloor.Common.{
  ℕ, Option, none, some, List, [], ◌∷◌, length, Result, ok, err, thrown, ◌>>=◌, if◌then◌else◌, ◌==◌,
}
use swapfloor.Js.Text.{Text, codes}
use swapfloor.Js.Value.{Value}
use swapfloor.Solana.Bytes.{Bytes, hex_to_bytes}

-- A `PublicKey` by its bytes.
abbrev pub Key : Type 0
Key = Bytes

-- The libraries `@solana/web3.js` and `@solana/spl-token`. An address is derived from seeds and a
-- program, with its bump, or there is none; an associated token account from a mint and an owner.
pub record Web3 : Type 0 where
  pub to_base58 : Key → Text
  pub of_base58 : Text → Option Key
  pub find_program_address : List Bytes → Key → Option (Key × ℕ)
  pub associated_token_address : Key → Key → Key

abbrev pub escrow_seed : Bytes
escrow_seed = codes "escrow"

abbrev pub config_seed : Bytes
config_seed = codes "config"

abbrev pub trade_config_seed : Bytes
trade_config_seed = codes "trade_config"

module _ (web3 : Web3) where
  program_address : Option (Key × ℕ) → Result (Key × ℕ)
  program_address none = err (thrown "Unable to find a viable program address nonce")
  program_address (some found) = ok found

  unfoldable pub derive_escrow_pda : Value → Key → Result (Key × ℕ)
  unfolding program_address
  derive_escrow_pda payment_hash program = do
    hash ← hex_to_bytes payment_hash
    if length hash == 32
        then program_address (web3.find_program_address (escrow_seed ∷ hash ∷ []) program)
        else err (thrown "paymentHash must be 32 bytes")

  unfoldable pub derive_config_pda : Key → Result (Key × ℕ)
  unfolding program_address
  derive_config_pda program = program_address (web3.find_program_address (config_seed ∷ []) program)

  unfoldable pub derive_trade_config_pda : Key → Key → Result (Key × ℕ)
  unfolding program_address
  derive_trade_config_pda collector program =
      program_address (web3.find_program_address (trade_config_seed ∷ collector ∷ []) program)

  abbrev pub derive_vault_ata : Key → Key → Key
  derive_vault_ata escrow mint = web3.associated_token_address mint escrow

  abbrev pub derive_fee_vault_ata : Key → Key → Key
  derive_fee_vault_ata config mint = web3.associated_token_address mint config

  abbrev pub derive_trade_fee_vault_ata : Key → Key → Key
  derive_trade_fee_vault_ata config mint = web3.associated_token_address mint config
