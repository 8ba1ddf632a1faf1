-- ===== src/Solana/Funded.antt =====
-- What is on the chain when `verifyLnUsdtEscrowOnchain` accepts an escrow message.
use swapfloor.Common.{
  ℕ, ◌+◌, some, ok, ◌≡◌, subst, >>=-eq-ok, >>-eq-ok, guard->>, guard, ◌>>=◌, ◌>>◌,
}
use swapfloor.Js.Text.{Text}
use swapfloor.Js.Value.{Value, Number, nat, str, get, to_text, is_reference}
use swapfloor.Js.Convert.{big_int, normalize_hex}
use swapfloor.Solana.Bytes.{Bytes}
use swapfloor.Solana.Keys.{Key, Web3, derive_escrow_pda, derive_vault_ata}
use swapfloor.Solana.Accounts.{EscrowState, decode_escrow_state}
use swapfloor.Solana.OnChain.{
  Chain, TokenAccount, Verified, plus_nat, names_key, check_state, check_numbers, check_vault,
  check_accounts, get_escrow_state, found_state, loaded, verify_ln_usdt_escrow_onchain, to_pubkey,
  is_hash,
}
use swapfloor.Solana.Checked.{
  Names, get_state-found, check_state-StateOk, check_numbers-eq, check_vault-eq, loaded-ok,
  found_state-some,
}

module _ (web3 : Web3) (chain : Chain) (escrow : Value) where
  pub record Funded (v : Verified) : Type 0 where
    pub account : Bytes
    pub found : chain.get_account_info v.escrow_pda ≡ ok (some account)
    pub decoded : decode_escrow_state account ≡ ok v.state
    pub active : v.state.status ≡ 0
    pub recipient : Names web3 chain escrow "recipient" v.state.recipient
    pub refund : Names web3 chain escrow "refund" v.state.refund
    pub mint : Names web3 chain escrow "mint" v.state.mint
    pub amount : big_int (str (to_text (get escrow "amount"))) ≡ ok (nat v.state.net_amount)
    pub refund_after :
        big_int (str (to_text (get escrow "refund_after_unix"))) ≡ ok v.state.refund_after
    pub vault : TokenAccount
    pub loaded : chain.get_account v.vault_ata ≡ ok vault
    pub owner : vault.owner ≡ v.escrow_pda
    pub balance : vault.amount ≡ v.state.net_amount + v.state.fee_amount

  module _ (hash : Text) (program mint pda : Key) (bump : ℕ) (state : EscrowState)
      (vault : TokenAccount) where
    verified : Verified
    verified = record {
      state = state;
      escrow_pda = pda;
      vault_ata = derive_vault_ata web3 pda mint;
    }

    verified-Funded :
        (want : Number)
        → derive_escrow_pda web3 (str hash) program ≡ ok (pda, bump)
        → get_escrow_state web3 chain (str hash) program ≡ ok (some state)
        → check_state web3 chain escrow hash state ≡ ok tt
        → check_numbers web3 chain escrow state ≡ ok want
        → chain.get_account (derive_vault_ata web3 pda mint) ≡ ok vault
        → check_vault web3 chain pda mint (plus_nat want state.fee_amount) vault ≡ ok tt
        → Funded verified
    unfolding verified
    verified-Funded want d g s n l h =
        let (account, found, decoded) =
          get_state-found web3 chain escrow (str hash) program pda bump state d g in
        let checked = check_state-StateOk web3 chain escrow hash state s in
        let (net, amount, refund_after) = check_numbers-eq web3 chain escrow state want n in
        let held : check_vault web3 chain pda mint (nat (state.net_amount + state.fee_amount)) vault
            ≡ ok tt =
          rw net at h in
        let (owner, balance) =
          check_vault-eq web3 chain escrow pda mint (state.net_amount + state.fee_amount) vault
            held in
        record {
          account = account;
          found = found;
          decoded = decoded;
          active = checked.active;
          recipient = checked.recipient;
          refund = checked.refund;
          mint = checked.mint;
          amount = amount;
          refund_after = refund_after;
          vault = vault;
          loaded = l;
          owner = owner;
          balance = balance;
        }

  module _ (hash : Text) (program mint pda : Key) (bump : ℕ) (v : Verified) where
    -- The tests behind the state that was found.
    behind_state-Funded :
        (state : EscrowState)
        → derive_escrow_pda web3 (str hash) program ≡ ok (pda, bump)
        → get_escrow_state web3 chain (str hash) program ≡ ok (some state)
        → (check_state web3 chain escrow hash state
            >> (check_numbers web3 chain escrow state >>= λ want.
                loaded web3 chain (chain.get_account (derive_vault_ata web3 pda mint)) >>= λ vault.
                (check_vault web3 chain pda mint (plus_nat want state.fee_amount) vault
                  >> ok (verified hash program mint pda bump state vault))))
          ≡ ok v
        → Funded v
    behind_state-Funded state d g h =
        let (checked, r) = >>-eq-ok (check_state web3 chain escrow hash state) _ h in
        let (want, n, r2) = >>=-eq-ok (check_numbers web3 chain escrow state) _ r in
        let (vault, l, r3) =
          >>=-eq-ok (loaded web3 chain (chain.get_account (derive_vault_ata web3 pda mint))) _ r2 in
        let (held, r4) =
          >>-eq-ok (check_vault web3 chain pda mint (plus_nat want state.fee_amount) vault) _ r3 in
        let same : verified hash program mint pda bump state vault ≡ v = cc in
        subst Funded same (
          verified-Funded hash program mint pda bump state vault want d g checked n
            (loaded-ok web3 chain escrow (chain.get_account (derive_vault_ata web3 pda mint)) vault
              l)
            held)

    check_accounts-Funded :
        derive_escrow_pda web3 (str hash) program ≡ ok (pda, bump)
        → check_accounts web3 chain escrow hash program mint pda ≡ ok v
        → Funded v
    unfolding check_accounts found_state loaded verified
    check_accounts-Funded d h =
        let (found, p, r) = >>=-eq-ok (get_escrow_state web3 chain (str hash) program) _ h in
        let (state, f, r2) = >>=-eq-ok (found_state web3 chain found) _ r in
        let same : found ≡ some state = found_state-some web3 chain escrow found state f in
        behind_state-Funded state d (rw same at p) r2

  -- The tests behind the program and the mint.
  behind_keys-Funded :
      (v : Verified) (program mint : Key)
      → (derive_escrow_pda web3 (str (normalize_hex (get escrow "payment_hash_hex"))) program
          >>= λ derived.
              (guard
                  (names_key web3 chain (get escrow "escrow_pda") derived.0)
                  "escrow_pda mismatch (derived vs message)"
                >> (guard
                      (names_key web3 chain
                        (get escrow "vault_ata")
                        (derive_vault_ata web3 derived.0 mint))
                      "vault_ata mismatch (derived vs message)"
                    >> check_accounts web3 chain escrow
                        (normalize_hex (get escrow "payment_hash_hex"))
                        program
                        mint
                        derived.0)))
        ≡ ok v
      → Funded v
  behind_keys-Funded v program mint h =
      let ((pda, bump), d, r) =
        >>=-eq-ok
          (derive_escrow_pda web3 (str (normalize_hex (get escrow "payment_hash_hex"))) program) _
          h in
      let (c1, r1) = guard->> (names_key web3 chain (get escrow "escrow_pda") pda) _ _ r in
      let (c2, r2) =
        guard->> (names_key web3 chain (get escrow "vault_ata") (derive_vault_ata web3 pda mint)) _
          _ r1 in
      check_accounts-Funded (normalize_hex (get escrow "payment_hash_hex")) program mint pda bump v
        d r2

  pub verify_ln_usdt_escrow_onchain-Funded :
      (v : Verified) → verify_ln_usdt_escrow_onchain web3 chain escrow ≡ ok v → Funded v
  unfolding verify_ln_usdt_escrow_onchain
  verify_ln_usdt_escrow_onchain-Funded v h =
      let (c1, r1) = guard->> (is_reference escrow) _ _ h in
      let (c2, r2) =
        guard->> (is_hash web3 chain (normalize_hex (get escrow "payment_hash_hex"))) _ _ r1 in
      let (program, p, r3) =
        >>=-eq-ok (to_pubkey web3 chain (get escrow "program_id") "escrowBody.program_id") _ r2 in
      let (mint, m, r4) =
        >>=-eq-ok (to_pubkey web3 chain (get escrow "mint") "escrowBody.mint") _ r3 in
      behind_keys-Funded v program mint r4
