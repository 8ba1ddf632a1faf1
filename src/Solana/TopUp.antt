-- ===== src/Solana/TopUp.antt =====
-- What the lamports guardrail asks of the payer.
use swapfloor.Common.{
  ℕ, ◌+◌, ◌*◌, ◌≤◌, Bool, true, false, ◌≡◌, ◌↔◌, refl, arith, String, List, [], ◌∷◌, length,
  length-append, if◌then◌else◌,
}
use swapfloor.Js.Value.{num, nat}
use swapfloor.Js.Convert.{to_number}
use swapfloor.Solana.Guardrail.{
  Costs, Guardrail, to_safe_lamports, add_missing, margin_of, requirement,
  compute_escrow_init_lamports_guardrail,
}

abbrev pub with_payer : Costs → ℕ → Costs
with_payer c n = record c { payer_lamports = num (nat n) }

abbrev pub guardrail : Costs → Guardrail
guardrail = compute_escrow_init_lamports_guardrail

-- The shortfall is the least amount that the payer has to add: with more lamports than now by some
-- extra, the guardrail holds exactly where the extra is no less than the shortfall.
pub guardrail_shortfall :
    (c : Costs) (extra : ℕ)
    → ((guardrail (with_payer c ((guardrail c).have_lamports + extra))).ok ≡ true)
      ↔ ((guardrail c).shortfall_lamports ≤ extra)
unfolding compute_escrow_init_lamports_guardrail to_safe_lamports requirement to_number
guardrail_shortfall c extra = (λ h. ground arith, λ h. ground arith)

-- 1 for an account that is missing.
abbrev pub missing : Bool → ℕ
missing has = if has then 0 else 1

add_missing-need :
    (has : Bool) (rent : ℕ) (name : String) (p : ℕ × List String)
    → (add_missing has rent name p).0 ≡ p.0 + missing has * rent
add_missing-need true rent name p = omega arith
add_missing-need false rent name p = omega arith

add_missing-names :
    (has : Bool) (rent : ℕ) (name : String) (p : ℕ × List String)
    → length (add_missing has rent name p).1 ≡ length p.1 + missing has
add_missing-names true rent name p = omega arith
add_missing-names false rent name p = omega (arith, length-append p.1 (name ∷ []))

-- The need is the fee, the margin, the rent of the escrow where it is missing, and the rent of a token
-- account for each of the three that are missing; as many accounts are named as are missing.
guardrail_need :
    (c : Costs)
    → ((guardrail c).need_lamports
        ≡ (guardrail c).fee_lamports
          + (guardrail c).margin_lamports
          + missing c.has_escrow_account * (guardrail c).escrow_rent_lamports
          + missing c.has_vault_account * (guardrail c).token_account_rent_lamports
          + missing c.has_platform_fee_vault_account * (guardrail c).token_account_rent_lamports
          + missing c.has_trade_fee_vault_account * (guardrail c).token_account_rent_lamports)
      × (length (guardrail c).missing_accounts
          ≡ missing c.has_escrow_account
            + missing c.has_vault_account
            + missing c.has_platform_fee_vault_account
            + missing c.has_trade_fee_vault_account)
unfolding compute_escrow_init_lamports_guardrail requirement
guardrail_need c =
    let token = to_safe_lamports c.token_account_rent_lamports in
    let p0 : ℕ × List String = (to_safe_lamports c.fee_lamports + margin_of c, []) in
    let p1 =
      add_missing c.has_escrow_account (to_safe_lamports c.escrow_rent_lamports) "escrow_pda" p0 in
    let p2 = add_missing c.has_vault_account token "vault_ata" p1 in
    let p3 = add_missing c.has_platform_fee_vault_account token "platform_fee_vault_ata" p2 in
    (
      rw
          (
            add_missing-need c.has_trade_fee_vault_account token "trade_fee_vault_ata" p3,
            add_missing-need c.has_platform_fee_vault_account token "platform_fee_vault_ata" p2,
            add_missing-need c.has_vault_account token "vault_ata" p1,
            add_missing-need c.has_escrow_account (to_safe_lamports c.escrow_rent_lamports)
                "escrow_pda" p0,
          )
          refl,
      rw
          (
            add_missing-names c.has_trade_fee_vault_account token "trade_fee_vault_ata" p3,
            add_missing-names c.has_platform_fee_vault_account token "platform_fee_vault_ata" p2,
            add_missing-names c.has_vault_account token "vault_ata" p1,
            add_missing-names c.has_escrow_account (to_safe_lamports c.escrow_rent_lamports)
                "escrow_pda" p0,
          )
          (omega arith),
    )
