-- ===== src/Solana/Instructions.antt =====
-- src/solana/lnUsdtEscrowClient.js: the instructions of the escrow program.
use swapfloor.Common.{
  Bool, true, false, List, [], ◌∷◌, ◌++◌, length, Result, ok, err, thrown, ◌>>=◌, if◌then◌else◌,
  ◌==◌,
}
use swapfloor.Js.Text.{text_eq}
use swapfloor.Js.Value.{Value}
use swapfloor.Solana.Bytes.{Bytes, hex_to_bytes, u64_le, i64_le, u16_le}
use swapfloor.Solana.Keys.{Key, Web3, derive_escrow_pda, derive_config_pda, derive_trade_config_pda}

pub record AccountMeta : Type 0 where
  pub pubkey : Key
  pub is_signer : Bool
  pub is_writable : Bool

pub record Instruction : Type 0 where
  pub program_id : Key
  pub keys : List AccountMeta
  pub payload : Bytes

-- The addresses of the programs and system variables that the Solana libraries export.
pub record Programs : Type 0 where
  pub system : Key
  pub token : Key
  pub associated_token : Key
  pub rent : Key
  pub clock : Key

abbrev pub signer : Key → AccountMeta
signer k = record { pubkey = k; is_signer = true; is_writable = false }

abbrev pub writable_signer : Key → AccountMeta
writable_signer k = record { pubkey = k; is_signer = true; is_writable = true }

abbrev pub writable : Key → AccountMeta
writable k = record { pubkey = k; is_signer = false; is_writable = true }

abbrev pub readonly : Key → AccountMeta
readonly k = record { pubkey = k; is_signer = false; is_writable = false }

-- The arguments of `buildInitInstruction`.
pub record Init : Type 0 where
  pub payment_hash_hex : Value
  pub recipient : Key
  pub refund : Key
  pub refund_after_unix : Value
  pub amount : Value
  pub expected_platform_fee_bps : Value
  pub expected_trade_fee_bps : Value
  pub trade_fee_collector : Key
  pub payer : Key
  pub payer_token_account : Key
  pub mint : Key
  pub vault : Key
  pub platform_fee_vault_ata : Key
  pub trade_config_pda : Key
  pub trade_fee_vault_ata : Key

unfoldable pub init_payload : Init → Result Bytes
init_payload a = do
  payment_hash ← hex_to_bytes a.payment_hash_hex
  time ← i64_le a.refund_after_unix
  amount ← u64_le a.amount
  platform_bps ← u16_le a.expected_platform_fee_bps
  trade_bps ← u16_le a.expected_trade_fee_bps
  ok (
      (0 ∷ [])
      ++ (payment_hash
          ++ (a.recipient
              ++ (a.refund
                  ++ (time
                      ++ (amount
                          ++ (platform_bps ++ (trade_bps ++ (a.trade_fee_collector ++ [])))))))))

module _ (web3 : Web3) (programs : Programs) (program : Key) where
  init_keys : Init → Key → Key → List AccountMeta
  init_keys a escrow config =
      writable_signer a.payer
      ∷ writable a.payer_token_account
      ∷ writable escrow
      ∷ writable a.vault
      ∷ readonly a.mint
      ∷ readonly programs.system
      ∷ readonly programs.token
      ∷ readonly programs.associated_token
      ∷ readonly programs.rent
      ∷ readonly config
      ∷ writable a.platform_fee_vault_ata
      ∷ readonly a.trade_config_pda
      ∷ writable a.trade_fee_vault_ata
      ∷ []

  unfoldable pub build_init_instruction : Init → Result Instruction
  unfolding init_keys
  build_init_instruction a = do
    (escrow, escrow_bump) ← derive_escrow_pda web3 a.payment_hash_hex program
    (config, config_bump) ← derive_config_pda web3 program
    (trade_config, trade_config_bump) ← derive_trade_config_pda web3 a.trade_fee_collector program
    if text_eq trade_config a.trade_config_pda
        then (do
          payload ← init_payload a
          ok (record { program_id = program; keys = init_keys a escrow config; payload = payload }))
        else err (thrown "tradeConfigPda mismatch (derived vs provided)")

  -- The instruction that the factory gives for a vault.
  unfoldable pub build_claim_instruction :
      Value → Value → Key → Key → Key → Key → Key → Result Instruction
  build_claim_instruction preimage_hex payment_hash recipient account platform_vault trade_vault
        vault =
      do
        (escrow, bump) ← derive_escrow_pda web3 payment_hash program
        preimage ← hex_to_bytes preimage_hex
        if length preimage == 32
            then ok (record {
              program_id = program;
              keys =
                  signer recipient
                  ∷ writable escrow
                  ∷ writable vault
                  ∷ writable account
                  ∷ writable platform_vault
                  ∷ writable trade_vault
                  ∷ readonly programs.token
                  ∷ [];
              payload = 1 ∷ preimage;
            })
            else err (thrown "preimage must be 32 bytes")

  unfoldable pub build_refund_instruction : Value → Key → Key → Key → Result Instruction
  build_refund_instruction payment_hash refund account vault = do
    (escrow, bump) ← derive_escrow_pda web3 payment_hash program
    ok (record {
      program_id = program;
      keys =
          signer refund
          ∷ writable escrow
          ∷ writable vault
          ∷ writable account
          ∷ readonly programs.token
          ∷ readonly programs.clock
          ∷ [];
      payload = 2 ∷ [];
    })
