-- ===== src/Solana/OnChain.antt =====
-- src/solana/verifyLnUsdtEscrow.js: comparing an escrow message with the chain.
use Prim.Native.String
use swapfloor.Common.{
  ℕ, ◌+◌, ◌-◌, String, Bool, ◌&&◌, ◌||◌, Option, none, some, all, length, Result, ok, err, refused,
  thrown, guard, ◌>>=◌, ◌>>◌, if◌then◌else◌, ltb, ◌==◌,
}
use swapfloor.Js.Text.{Text, text_eq, trim, is_hex_digit}
use swapfloor.Js.Value.{Value, str, Number, nat, negsuc, nan, get, is_reference, to_text, number_eq}
use swapfloor.Js.Convert.{big_int, or_empty, normalize_hex}
use swapfloor.Solana.Bytes.{Bytes}
use swapfloor.Solana.Keys.{Key, Web3, derive_escrow_pda, derive_vault_ata}
use swapfloor.Solana.Accounts.{EscrowState, decode_escrow_state}

pub record TokenAccount : Type 0 where
  pub owner : Key
  pub mint : Key
  pub amount : ℕ

-- What the connection answers at the commitment of the call: the data of an account, if there is
-- one, and a token account, or an exception.
pub record Chain : Type 0 where
  pub get_account_info : Key → Result (Option Bytes)
  pub get_account : Key → Result TokenAccount

unfoldable pub normalize_b58 : Value → Text
normalize_b58 v = trim (to_text (or_empty v))

abbrev pub plus_nat : Number → ℕ → Number
plus_nat (nat a) k = nat (a + k)
plus_nat (negsuc a) k = if ltb a k then nat (k - a - 1) else negsuc (a - k)
plus_nat nan k = nan

pub record Verified : Type 0 where
  pub state : EscrowState
  pub escrow_pda : Key
  pub vault_ata : Key

module _ (web3 : Web3) (chain : Chain) where
  -- A message that is no key is refused.
  unfoldable pub key_or : String → Option Key → Result Key
  key_or label none = err (refused (String.◌++◌ label " must be base58"))
  key_or label (some key) = ok key

  unfoldable pub to_pubkey : Value → String → Result Key
  unfolding key_or
  to_pubkey v label = key_or label (web3.of_base58 (normalize_b58 v))

  -- `null` for no account.
  unfoldable pub decode_found : Option Bytes → Result (Option EscrowState)
  decode_found none = ok none
  decode_found (some bytes) = do state ← decode_escrow_state bytes; ok (some state)

  unfoldable pub get_escrow_state : Value → Key → Result (Option EscrowState)
  unfolding decode_found
  get_escrow_state payment_hash program = do
    (pda, bump) ← derive_escrow_pda web3 payment_hash program
    info ← chain.get_account_info pda
    decode_found info

  unfoldable pub found_state : Option EscrowState → Result EscrowState
  found_state none = err (refused "escrow account not found on chain")
  found_state (some state) = ok state

  unfoldable pub names_key : Value → Key → Bool
  names_key v key = text_eq (normalize_b58 v) (web3.to_base58 key)

  unfoldable pub check_state : Value → Text → EscrowState → Result (Unit {0})
  check_state escrow hash state = do
    guard (state.v == 2 || state.v == 3) "escrow state version unsupported"
    guard (state.status == 0) "escrow is not active"
    guard (text_eq (normalize_hex (str state.payment_hash_hex)) hash)
        "escrow payment_hash mismatch vs message"
    guard (names_key (get escrow "mint") state.mint) "escrow mint mismatch vs message"
    guard (names_key (get escrow "recipient") state.recipient)
        "escrow recipient mismatch vs message"
    guard (names_key (get escrow "refund") state.refund) "escrow refund mismatch vs message"
    guard (names_key (get escrow "vault_ata") state.vault) "escrow vault mismatch vs message"

  -- The amount without the fees, and the time of the refund.
  unfoldable pub check_numbers : Value → EscrowState → Result Number
  check_numbers escrow state = do
    want ← big_int (str (to_text (get escrow "amount")))
    guard (number_eq (nat state.net_amount) want) "escrow net amount mismatch vs message"
    want_refund_after ← big_int (str (to_text (get escrow "refund_after_unix")))
    guard (number_eq state.refund_after want_refund_after) "escrow refund_after mismatch vs message"
    ok want

  -- A failure to load the vault becomes a refusal.
  unfoldable pub loaded : Result TokenAccount → Result TokenAccount
  loaded (ok vault) = ok vault
  loaded (err (refused m)) = err (refused (String.◌++◌ "failed to load vault ATA: " m))
  loaded (err (thrown m)) = err (refused (String.◌++◌ "failed to load vault ATA: " m))

  unfoldable pub check_vault : Key → Key → Number → TokenAccount → Result (Unit {0})
  check_vault pda mint want vault = do
    guard (text_eq vault.owner pda) "vault ATA owner mismatch vs escrow PDA"
    guard (text_eq vault.mint mint) "vault ATA mint mismatch vs escrow mint"
    guard (number_eq (nat vault.amount) want) "vault ATA amount mismatch"

  -- The part behind the derived addresses.
  unfoldable pub check_accounts : Value → Text → Key → Key → Key → Result Verified
  unfolding found_state loaded
  check_accounts escrow hash program mint pda = do
    found ← get_escrow_state (str hash) program
    state ← found_state found
    check_state escrow hash state
    want ← check_numbers escrow state
    vault ← loaded (chain.get_account (derive_vault_ata web3 pda mint))
    check_vault pda mint (plus_nat want state.fee_amount) vault
    ok (record { state = state; escrow_pda = pda; vault_ata = derive_vault_ata web3 pda mint })

  abbrev pub is_hash : Text → Bool
  is_hash hash = all is_hex_digit hash && length hash == 64

  unfoldable pub verify_ln_usdt_escrow_onchain : Value → Result Verified
  verify_ln_usdt_escrow_onchain escrow = do
    guard (is_reference escrow) "escrowBody is required"
    let hash = normalize_hex (get escrow "payment_hash_hex")
    guard (is_hash hash) "escrowBody.payment_hash_hex must be 32-byte hex"
    program ← to_pubkey (get escrow "program_id") "escrowBody.program_id"
    mint ← to_pubkey (get escrow "mint") "escrowBody.mint"
    (pda, bump) ← derive_escrow_pda web3 (str hash) program
    guard (names_key (get escrow "escrow_pda") pda) "escrow_pda mismatch (derived vs message)"
    guard (names_key (get escrow "vault_ata") (derive_vault_ata web3 pda mint))
        "vault_ata mismatch (derived vs message)"
    check_accounts escrow hash program mint pda
