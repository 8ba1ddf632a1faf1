-- ===== src/Solana/Checked.antt =====
-- What each test of `verifyLnUsdtEscrowOnchain` has checked when it succeeds.
use swapfloor.Common.{
  ℕ, String, true, Option, none, some, Result, ok, err, refused, thrown, ◌≡◌, refl, sym, arith,
  >>=-eq-ok, guard->>, ◌>>=◌,
}
use swapfloor.Js.Text.{Text, text_eq, eq_of_text_eq}
use swapfloor.Js.Value.{Value, Number, nat, negsuc, str, get, to_text, number_eq}
use swapfloor.Js.Convert.{big_int}
use swapfloor.Solana.Bytes.{Bytes}
use swapfloor.Solana.Keys.{Key, Web3, derive_escrow_pda}
use swapfloor.Solana.Accounts.{EscrowState, decode_escrow_state}
use swapfloor.Solana.OnChain.{
  Chain, TokenAccount, normalize_b58, names_key, check_state, check_numbers, check_vault,
  get_escrow_state, decode_found, found_state, loaded,
}

number_eq-eq : (a b : Number) → number_eq a b ≡ true → b ≡ a
number_eq-eq (nat a) (nat b) h = ground arith
number_eq-eq (negsuc a) (negsuc b) h = ground arith
number_eq-eq _ _ h = cc

module _ (web3 : Web3) (chain : Chain) (escrow : Value) where
  -- The message names a key.
  abbrev pub Names : String → Key → Type 0
  Names field key = web3.to_base58 key ≡ normalize_b58 (get escrow field)

  pub record StateOk (state : EscrowState) : Type 0 where
    pub active : state.status ≡ 0
    pub recipient : Names "recipient" state.recipient
    pub refund : Names "refund" state.refund
    pub mint : Names "mint" state.mint

  names_key-Names :
      (field : String) (key : Key)
      → names_key web3 chain (get escrow field) key ≡ true
      → Names field key
  unfolding names_key
  names_key-Names field key h =
      sym (eq_of_text_eq (normalize_b58 (get escrow field)) (web3.to_base58 key) h)

  pub check_state-StateOk :
      (hash : Text) (state : EscrowState)
      → check_state web3 chain escrow hash state ≡ ok tt
      → StateOk state
  unfolding check_state
  check_state-StateOk hash state h = record {
    active = ground arith;
    recipient = names_key-Names "recipient" state.recipient (ground arith);
    refund = names_key-Names "refund" state.refund (ground arith);
    mint = names_key-Names "mint" state.mint (ground arith);
  }

  pub check_numbers-eq :
      (state : EscrowState) (want : Number)
      → check_numbers web3 chain escrow state ≡ ok want
      → (want ≡ nat state.net_amount)
        × (big_int (str (to_text (get escrow "amount"))) ≡ ok (nat state.net_amount))
        × (big_int (str (to_text (get escrow "refund_after_unix"))) ≡ ok state.refund_after)
  unfolding check_numbers
  check_numbers-eq state want h =
      let (a, p, r) = >>=-eq-ok (big_int (str (to_text (get escrow "amount")))) _ h in
      let (same, r2) = guard->> (number_eq (nat state.net_amount) a) _ _ r in
      let (b, q, r3) = >>=-eq-ok (big_int (str (to_text (get escrow "refund_after_unix")))) _ r2 in
      let (timed, r4) = guard->> (number_eq state.refund_after b) _ _ r3 in
      let e : a ≡ nat state.net_amount = number_eq-eq (nat state.net_amount) a same in
      let f : b ≡ state.refund_after = number_eq-eq state.refund_after b timed in
      (cc, rw e at p, rw f at q)

  pub check_vault-eq :
      (pda mint : Key) (n : ℕ) (vault : TokenAccount)
      → check_vault web3 chain pda mint (nat n) vault ≡ ok tt
      → (vault.owner ≡ pda) × (vault.amount ≡ n)
  unfolding check_vault
  check_vault-eq pda mint n vault h =
      let same : text_eq vault.owner pda ≡ true = ground arith in
      (eq_of_text_eq vault.owner pda same, ground arith)

  decode_found-some :
      (found : Option Bytes) (state : EscrowState)
      → decode_found web3 chain found ≡ ok (some state)
      → (account : Bytes) × (found ≡ some account) × (decode_escrow_state account ≡ ok state)
  unfolding decode_found
  decode_found-some none state h = cc
  decode_found-some (some bytes) state h =
      let (s, e, r) = >>=-eq-ok (decode_escrow_state bytes) _ h in
      let same : s ≡ state = cc in (bytes, refl, rw same at e)

  pub found_state-some :
      (found : Option EscrowState) (state : EscrowState)
      → found_state web3 chain found ≡ ok state
      → found ≡ some state
  unfolding found_state
  found_state-some none state h = cc
  found_state-some (some s) state h = cc

  pub loaded-ok :
      (r : Result TokenAccount) (vault : TokenAccount)
      → loaded web3 chain r ≡ ok vault
      → r ≡ ok vault
  unfolding loaded
  loaded-ok (ok v) vault h = h
  loaded-ok (err (refused m)) vault h = cc
  loaded-ok (err (thrown m)) vault h = cc

  -- The account at the derived address.
  pub get_state-found :
      (hash : Value) (program pda : Key) (bump : ℕ) (state : EscrowState)
      → derive_escrow_pda web3 hash program ≡ ok (pda, bump)
      → get_escrow_state web3 chain hash program ≡ ok (some state)
      → (account : Bytes) × (chain.get_account_info pda ≡ ok (some account))
        × (decode_escrow_state account ≡ ok state)
  unfolding get_escrow_state decode_found
  get_state-found hash program pda bump state d h =
      let at_pda : (chain.get_account_info pda >>= decode_found web3 chain) ≡ ok (some state) =
        rw d at h in
      let (found, q, r) = >>=-eq-ok (chain.get_account_info pda) (decode_found web3 chain) at_pda in
      let (account, same, decoded) = decode_found-some found state r in
      (account, rw same at q, decoded)
