-- ===== src/Swap/Tests/Chains.antt =====
-- The payer's checks on a toy chain that holds the escrow of the sample swap.
use swapfloor.Common.{
  ◌-◌, ◌≡◌, refl, some, none, [], ◌∷◌, ◌++◌, ok, err, thrown, length, if◌then◌else◌, ◌==◌,
}
use swapfloor.Js.Text.{Text, codes, text_eq}
use swapfloor.Solana.Bytes.{
  Bytes, le_bytes, read_le, signed64, bytes_of_hex, hex_of_bytes, hex_to_bytes,
}
use swapfloor.Solana.Keys.{Key, Web3, derive_escrow_pda}
use swapfloor.Solana.Accounts.{decode_v2, decode_escrow_state}
use swapfloor.Solana.OnChain.{
  Chain, TokenAccount, Verified, normalize_b58, to_pubkey, names_key, get_escrow_state,
  decode_found, found_state, loaded, check_state, check_numbers, check_vault, check_accounts,
  verify_ln_usdt_escrow_onchain,
}
use swapfloor.Swap.Payer.Secured.{Secured}
use swapfloor.Swap.Tests.Sample.{machine, at_escrow}
use swapfloor.Swap.Tests.Payments.{zeros}

-- A key is a name, filled up with zeros.
abbrev name_of : Key → Text
name_of [] = []
name_of (c ∷ s) = let rest = name_of s in if c == 0 then [] else c ∷ rest

abbrev key : Text → Key
key name = name ++ zeros (32 - length name)

abbrev web3 : Web3
web3 = record {
  to_base58 = name_of;
  of_base58 = λ t. some (key t);
  find_program_address = λ seeds program. some (key (codes "Pda"), 255);
  associated_token_address = λ mint owner. key (codes "Vau1t");
}

abbrev escrow_account : Bytes
unfolding le_bytes bytes_of_hex
escrow_account =
    (2 ∷ 0 ∷ [])
    ++ (bytes_of_hex (codes "cccccccccccccccccccccccccccccccccccccccccccccccccccccccccccccccc")
        ++ (key (codes "Recv")
            ++ (key (codes "Refund")
                ++ (le_bytes 8 9000
                    ++ (key (codes "Mint")
                        ++ (le_bytes 8 67
                            ++ (le_bytes 8 3
                                ++ (le_bytes 2 100
                                    ++ (key (codes "Fees")
                                        ++ (key (codes "Vau1t") ++ (255 ∷ [])))))))))))

abbrev vault : TokenAccount
vault = record { owner = key (codes "Pda"); mint = key (codes "Mint"); amount = 70 }

abbrev chain : Chain
chain = record {
  get_account_info =
      λ k. if text_eq k (key (codes "Pda")) then ok (some escrow_account) else ok none;
  get_account = λ k.
      if text_eq k (key (codes "Vau1t"))
      then ok vault
      else err (thrown "TokenAccountNotFoundError");
}

abbrev on_chain : Verified
unfolding decode_v2 read_le signed64 hex_of_bytes
on_chain = record {
  state = decode_v2 escrow_account;
  escrow_pda = key (codes "Pda");
  vault_ata = key (codes "Vau1t");
}

verified : verify_ln_usdt_escrow_onchain web3 chain at_escrow.escrow ≡ ok on_chain
unfolding machine le_bytes read_le signed64 bytes_of_hex hex_of_bytes hex_to_bytes derive_escrow_pda
    decode_v2 decode_escrow_state normalize_b58 to_pubkey names_key get_escrow_state decode_found
    found_state loaded check_state check_numbers check_vault check_accounts
    verify_ln_usdt_escrow_onchain
verified = refl
