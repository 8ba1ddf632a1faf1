-- ===== src/Solana/Guardrail.antt =====
-- src/prompt/solEscrowGuardrail.js: the lamports that the init instruction of an escrow needs.
use swapfloor.Common.{
  ℕ, ◌+◌, ◌-◌, Bool, Option, none, some, List, [], ◌∷◌, ◌++◌, leb, if◌then◌else◌, String,
}
use swapfloor.Js.Value.{Value, Number, nat, negsuc, nan, num, get, is_defined, is_reference}
use swapfloor.Js.Convert.{to_number}

-- Lamports are whole numbers; what is none, or is negative, counts as 0.
safe_number : Number → ℕ
safe_number (nat n) = n
safe_number (negsuc n) = 0
safe_number nan = 0

unfoldable pub to_safe_lamports : Value → ℕ
unfolding safe_number
to_safe_lamports v = safe_number (to_number v)

-- A number at one of the places of a fee answer.
number_or : Value → Option ℕ → Option ℕ
number_or (num n) rest = some (to_safe_lamports (num n))
number_or v rest = rest

unfoldable pub parse_fee_lamports : Value → Option ℕ
unfolding number_or
parse_fee_lamports fee = number_or fee (
    if is_reference fee
    then number_or (get fee "value") (
        if is_reference (get fee "value")
        then number_or (get (get (get fee "value") "feeCalculator") "lamportsPerSignature") none
        else none)
    else none)

-- The arguments of `computeEscrowInitLamportsGuardrail`.
pub record Costs : Type 0 where
  pub payer_lamports : Value
  pub fee_lamports : Value
  pub escrow_rent_lamports : Value
  pub token_account_rent_lamports : Value
  pub has_escrow_account : Bool
  pub has_vault_account : Bool
  pub has_platform_fee_vault_account : Bool
  pub has_trade_fee_vault_account : Bool
  pub margin_lamports : Value

pub record Guardrail : Type 0 where
  pub ok : Bool
  pub have_lamports : ℕ
  pub need_lamports : ℕ
  pub shortfall_lamports : ℕ
  pub fee_lamports : ℕ
  pub escrow_rent_lamports : ℕ
  pub token_account_rent_lamports : ℕ
  pub margin_lamports : ℕ
  pub missing_accounts : List String

abbrev pub sol_escrow_init_margin_lamports : ℕ
sol_escrow_init_margin_lamports = 25000

-- The margin, by default the constant.
abbrev pub margin_of : Costs → ℕ
margin_of c =
    if is_defined c.margin_lamports
    then to_safe_lamports c.margin_lamports
    else sol_escrow_init_margin_lamports

-- An account that is missing adds its rent and its name.
abbrev pub add_missing : Bool → ℕ → String → ℕ × List String → ℕ × List String
add_missing has rent name (required, missing) =
    if has then (required, missing) else (required + rent, missing ++ name ∷ [])

unfoldable pub requirement : Costs → ℕ × List String
requirement c =
    let token_rent = to_safe_lamports c.token_account_rent_lamports in
    add_missing c.has_trade_fee_vault_account token_rent "trade_fee_vault_ata" (
      add_missing c.has_platform_fee_vault_account token_rent "platform_fee_vault_ata" (
        add_missing c.has_vault_account token_rent "vault_ata" (
          add_missing c.has_escrow_account (to_safe_lamports c.escrow_rent_lamports) "escrow_pda"
            (to_safe_lamports c.fee_lamports + margin_of c, []))))

unfoldable pub compute_escrow_init_lamports_guardrail : Costs → Guardrail
compute_escrow_init_lamports_guardrail c =
    let have = to_safe_lamports c.payer_lamports in
    let required = (requirement c).0 in
    record {
      ok = leb required have;
      have_lamports = have;
      need_lamports = required;
      shortfall_lamports = required - have;
      fee_lamports = to_safe_lamports c.fee_lamports;
      escrow_rent_lamports = to_safe_lamports c.escrow_rent_lamports;
      token_account_rent_lamports = to_safe_lamports c.token_account_rent_lamports;
      margin_lamports = margin_of c;
      missing_accounts = (requirement c).1;
    }
