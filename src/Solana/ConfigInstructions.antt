-- ===== src/Solana/ConfigInstructions.antt =====
-- src/solana/lnUsdtEscrowClient.js: the instructions on fee configurations and fee vaults.
use swapfloor.Common.{ℕ, List, [], ◌∷◌, ◌++◌, Result, ok, ◌>>=◌, if◌then◌else◌}
use swapfloor.Js.Value.{Value, num, nat, is_present}
use swapfloor.Solana.Bytes.{Bytes, u64_le, u16_le}
use swapfloor.Solana.Keys.{
  Key, Web3, derive_config_pda, derive_trade_config_pda, derive_fee_vault_ata,
  derive_trade_fee_vault_ata,
}
use swapfloor.Solana.Instructions.{
  AccountMeta, Instruction, Programs, signer, writable_signer, writable, readonly,
}

module _ (web3 : Web3) (programs : Programs) (program : Key) where
  -- The fee collector and the basis points behind a tag.
  fee_payload : ℕ → Key → Value → Result Bytes
  fee_payload tag collector bps = do fee ← u16_le bps; ok ((tag ∷ []) ++ (collector ++ fee))

  unfoldable pub init_config_instruction : Key → Key → Value → Result Instruction
  unfolding fee_payload
  init_config_instruction payer collector bps = do
    (config, bump) ← derive_config_pda web3 program
    payload ← fee_payload 3 collector bps
    ok (record {
      program_id = program;
      keys =
          writable_signer payer
          ∷ writable config
          ∷ readonly programs.system
          ∷ readonly programs.rent
          ∷ [];
      payload = payload;
    })

  unfoldable pub set_config_instruction : Key → Key → Value → Result Instruction
  unfolding fee_payload
  set_config_instruction authority collector bps = do
    (config, bump) ← derive_config_pda web3 program
    payload ← fee_payload 4 collector bps
    ok (record {
      program_id = program;
      keys = signer authority ∷ writable config ∷ [];
      payload = payload;
    })

  -- `u64Le(amount ?? 0)` behind a tag.
  amount_payload : ℕ → Value → Result Bytes
  amount_payload tag amount = do
    bytes ← u64_le (if is_present amount then amount else num (nat 0))
    ok (tag ∷ bytes)

  withdraw_keys : Key → Key → Key → Key → List AccountMeta
  withdraw_keys collector config vault account =
      signer collector
      ∷ readonly config
      ∷ writable vault
      ∷ writable account
      ∷ readonly programs.token
      ∷ []

  unfoldable pub withdraw_fees_instruction : Key → Key → Key → Value → Result Instruction
  unfolding amount_payload withdraw_keys
  withdraw_fees_instruction collector account mint amount = do
    (config, bump) ← derive_config_pda web3 program
    payload ← amount_payload 5 amount
    ok (record {
      program_id = program;
      keys = withdraw_keys collector config (derive_fee_vault_ata web3 config mint) account;
      payload = payload;
    })

  unfoldable pub init_trade_config_instruction : Key → Key → Value → Result Instruction
  unfolding fee_payload
  init_trade_config_instruction payer collector bps = do
    (config, bump) ← derive_trade_config_pda web3 collector program
    payload ← fee_payload 6 collector bps
    ok (record {
      program_id = program;
      keys =
          writable_signer payer
          ∷ writable config
          ∷ readonly programs.system
          ∷ readonly programs.rent
          ∷ [];
      payload = payload;
    })

  unfoldable pub set_trade_config_instruction : Key → Key → Value → Result Instruction
  unfolding fee_payload
  set_trade_config_instruction authority collector bps = do
    (config, bump) ← derive_trade_config_pda web3 collector program
    payload ← fee_payload 7 collector bps
    ok (record {
      program_id = program;
      keys = signer authority ∷ writable config ∷ [];
      payload = payload;
    })

  unfoldable pub withdraw_trade_fees_instruction : Key → Key → Key → Value → Result Instruction
  unfolding amount_payload withdraw_keys
  withdraw_trade_fees_instruction collector account mint amount = do
    (config, bump) ← derive_trade_config_pda web3 collector program
    payload ← amount_payload 8 amount
    ok (record {
      program_id = program;
      keys = withdraw_keys collector config (derive_trade_fee_vault_ata web3 config mint) account;
      payload = payload;
    })
