-- ===== src/Solana/Tests.antt =====
-- Accounts, instructions, endpoints and lamports at work, and the theorems at concrete data.
use Prim.Native.String
use swapfloor.Common.{
  ℕ, zero, suc, ◌≤◌, ◌≡◌, ◌↔◌, refl, true, false, some, [], ◌∷◌, ok, err, thrown, Result, arith,
  if◌then◌else◌,
}
use swapfloor.Js.Text.{
  Text, codes, text_eq, trim, to_lower_case, is_digit, is_hex_digit, digits_value,
}
use swapfloor.Js.Value.{nat, num, str, to_text}
use swapfloor.Js.Convert.{to_number, big_int, normalize_hex}
use swapfloor.Solana.Bytes.{
  Bytes, le_bytes, read_le, signed64, write_i64, write_u64, u64_le, i64_le, u16_le, hex_to_bytes,
  bytes_of_hex,
}
use swapfloor.Solana.Keys.{Key, Web3, derive_escrow_pda, derive_config_pda, derive_trade_config_pda}
use swapfloor.Solana.Accounts.{decode_escrow_state}
use swapfloor.Solana.Written.{Written, Fits, written, described}
use swapfloor.Solana.Escrows.{decode_escrow_state-written}
use swapfloor.Solana.Instructions.{
  Init, Instruction, Programs, init_payload, build_init_instruction,
}
use swapfloor.Solana.Payload.{Holds, build_init_instruction-Holds}
use swapfloor.Solana.Pool.{SolanaRpcPool, split_csv, create_pool, call, try_from}
use swapfloor.Solana.Endpoints.{call-fails}
use swapfloor.Solana.Guardrail.{
  Costs, to_safe_lamports, requirement, compute_escrow_init_lamports_guardrail,
}
use swapfloor.Solana.TopUp.{guardrail, with_payer, guardrail_shortfall}

abbrev bytes_of : ℕ → ℕ → Bytes
bytes_of zero b = []
bytes_of (suc n) b = b ∷ bytes_of n b

abbrev key : ℕ → Key
key b = bytes_of 32 b

abbrev account : Written
account = record {
  status = 0;
  hash = key 204;
  recipient = key 1;
  refund = key 2;
  refund_after = nat 9000;
  time_bytes = 40 ∷ 35 ∷ bytes_of 6 0;
  mint = key 3;
  net_amount = 67000000;
  platform = record { amount = 70000; bps = 10; collector = key 4 };
  trade = record { amount = 140000; bps = 20; collector = key 5 };
  vault = key 6;
  bump = 254;
}

account-Fits : Fits account
unfolding write_i64 le_bytes
account-Fits = record {
  hash = refl;
  recipient = refl;
  refund = refl;
  mint = refl;
  platform_collector = refl;
  trade_collector = refl;
  vault = refl;
  time = refl;
  net_amount = omega arith;
  platform_amount = omega arith;
  trade_amount = omega arith;
  platform_bps = omega arith;
  trade_bps = omega arith;
}

decode_escrow_state-written_example : decode_escrow_state (written account) ≡ ok (described account)
decode_escrow_state-written_example = decode_escrow_state-written account account-Fits

abbrev web3 : Web3
web3 = record {
  to_base58 = λ k. k;
  of_base58 = λ t. some t;
  find_program_address = λ seeds program. some (key 9, 255);
  associated_token_address = λ mint owner. key 8;
}

abbrev programs : Programs
programs = record {
  system = key 0;
  token = key 10;
  associated_token = key 11;
  rent = key 12;
  clock = key 13;
}

abbrev init : Init
init = record {
  payment_hash_hex = str (codes "cccccccccccccccccccccccccccccccccccccccccccccccccccccccccccccccc");
  recipient = key 1;
  refund = key 2;
  refund_after_unix = num (nat 9000);
  amount = str (codes "67000000");
  expected_platform_fee_bps = num (nat 10);
  expected_trade_fee_bps = num (nat 20);
  trade_fee_collector = key 5;
  payer = key 2;
  payer_token_account = key 7;
  mint = key 3;
  vault = key 8;
  platform_fee_vault_ata = key 8;
  trade_config_pda = key 9;
  trade_fee_vault_ata = key 8;
}

-- Opens the building of instructions.
unfoldable opened : Unit {0}
unfolding trim to_lower_case is_digit is_hex_digit digits_value text_eq to_text to_number big_int
    normalize_hex le_bytes read_le signed64 write_i64 write_u64 u64_le i64_le u16_le hex_to_bytes
    bytes_of_hex derive_escrow_pda derive_config_pda derive_trade_config_pda init_payload
    build_init_instruction
opened = tt

built : Instruction
unfolding opened
built = elim (build_init_instruction web3 programs (key 14) init) [
  | ok ix ↦ ix
  | err e ↦ record { program_id = []; keys = []; payload = [] }
]

is_built : build_init_instruction web3 programs (key 14) init ≡ ok built
unfolding opened built
is_built = refl

build_init_instruction-Holds_example : Holds init built.payload × (built.program_id ≡ key 14)
build_init_instruction-Holds_example =
    build_init_instruction-Holds web3 programs (key 14) init built refl refl is_built

abbrev two_urls : SolanaRpcPool
two_urls = record { urls = codes "http://a" ∷ codes "http://b" ∷ []; preferred_index = 1 }

two_urls_made :
    create_pool (str (codes " http://a, ,http://b ")) ≡ ok (record two_urls { preferred_index = 0 })
unfolding create_pool split_csv trim to_text
two_urls_made = refl

abbrev only_a : Text → Result ℕ
only_a url = if text_eq url (codes "http://a") then ok 7 else err (thrown "down")

goes_around : call only_a "slot" two_urls ≡ (ok 7, record two_urls { preferred_index = 0 })
unfolding call try_from text_eq
goes_around = refl

abbrev none_up : Text → Result ℕ
none_up url = err (thrown "down")

call-fails_example :
    call none_up "slot" two_urls ≡ (err (thrown (String.◌++◌ "slot" " failed")), two_urls)
call-fails_example =
    call-fails none_up "slot" two_urls (omega arith) (λ j url listed. (thrown "down", refl))

abbrev costs : Costs
costs = record {
  payer_lamports = num (nat 1000000);
  fee_lamports = num (nat 5000);
  escrow_rent_lamports = num (nat 2700000);
  token_account_rent_lamports = num (nat 2039280);
  has_escrow_account = false;
  has_vault_account = false;
  has_platform_fee_vault_account = true;
  has_trade_fee_vault_account = true;
  margin_lamports = num (nat 25000);
}

guardrail_shortfall_example :
    ((guardrail (with_payer costs 4769280)).ok ≡ true) ↔ (3769280 ≤ 3769280)
unfolding compute_escrow_init_lamports_guardrail to_safe_lamports requirement to_number
guardrail_shortfall_example = guardrail_shortfall costs 3769280
