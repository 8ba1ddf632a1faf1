-- ===== src/Solana/Accounts.antt =====
-- src/solana/lnUsdtEscrowClient.js: decoding the accounts of the escrow program.
use swapfloor.Common.{
  ℕ, ◌+◌, Option, none, some, [], ◌∷◌, length, Result, ok, err, thrown, if◌then◌else◌, ltb, ◌==◌,
}
use swapfloor.Js.Text.{Text}
use swapfloor.Js.Value.{Number}
use swapfloor.Solana.Bytes.{Bytes, subarray, read_u8, read_u16, read_u64, read_i64, hex_of_bytes}
use swapfloor.Solana.Keys.{Key}

pub record Fee : Type 0 where
  pub amount : ℕ
  pub bps : ℕ
  pub collector : Key

-- `platform_fee` and `trade_fee` hold the three fields of each, `undefined` before version 3.
pub record EscrowState : Type 0 where
  pub v : ℕ
  pub status : ℕ
  pub payment_hash_hex : Text
  pub recipient : Key
  pub refund : Key
  pub refund_after : Number
  pub mint : Key
  pub amount : ℕ
  pub net_amount : ℕ
  pub fee_amount : ℕ
  pub fee_bps : ℕ
  pub fee_collector : Option Key
  pub platform_fee : Option Fee
  pub trade_fee : Option Fee
  pub vault : Key
  pub bump : ℕ

unfoldable pub decode_v1 : Bytes → EscrowState
decode_v1 buf = record {
  v = 1;
  status = read_u8 buf 1;
  payment_hash_hex = hex_of_bytes (subarray buf 2 34);
  recipient = subarray buf 34 66;
  refund = subarray buf 66 98;
  refund_after = read_i64 buf 98;
  mint = subarray buf 106 138;
  amount = read_u64 buf 138;
  net_amount = read_u64 buf 138;
  fee_amount = 0;
  fee_bps = 0;
  fee_collector = none;
  platform_fee = none;
  trade_fee = none;
  vault = subarray buf 146 178;
  bump = read_u8 buf 178;
}

unfoldable pub decode_v2 : Bytes → EscrowState
decode_v2 buf = record {
  v = 2;
  status = read_u8 buf 1;
  payment_hash_hex = hex_of_bytes (subarray buf 2 34);
  recipient = subarray buf 34 66;
  refund = subarray buf 66 98;
  refund_after = read_i64 buf 98;
  mint = subarray buf 106 138;
  amount = read_u64 buf 138;
  net_amount = read_u64 buf 138;
  fee_amount = read_u64 buf 146;
  fee_bps = read_u16 buf 154;
  fee_collector = some (subarray buf 156 188);
  platform_fee = none;
  trade_fee = none;
  vault = subarray buf 188 220;
  bump = read_u8 buf 220;
}

unfoldable pub decode_v3 : Bytes → EscrowState
decode_v3 buf = record {
  v = 3;
  status = read_u8 buf 1;
  payment_hash_hex = hex_of_bytes (subarray buf 2 34);
  recipient = subarray buf 34 66;
  refund = subarray buf 66 98;
  refund_after = read_i64 buf 98;
  mint = subarray buf 106 138;
  amount = read_u64 buf 138;
  net_amount = read_u64 buf 138;
  fee_amount = read_u64 buf 146 + read_u64 buf 188;
  fee_bps = read_u16 buf 154 + read_u16 buf 196;
  fee_collector = some (subarray buf 156 188);
  platform_fee = some (record {
    amount = read_u64 buf 146;
    bps = read_u16 buf 154;
    collector = subarray buf 156 188;
  });
  trade_fee = some (record {
    amount = read_u64 buf 188;
    bps = read_u16 buf 196;
    collector = subarray buf 198 230;
  });
  vault = subarray buf 230 262;
  bump = read_u8 buf 262;
}

-- By the first byte; reading that of an empty account throws.
unfoldable pub decode_escrow_state : Bytes → Result EscrowState
decode_escrow_state [] = err (thrown "RangeError")
decode_escrow_state (v ∷ rest) =
    let buf : Bytes = v ∷ rest in
    if v == 1
    then if ltb (length buf) 179
      then err (thrown "Escrow account too small (v1)")
      else ok (decode_v1 buf)
    else if v == 2
    then if ltb (length buf) 221
      then err (thrown "Escrow account too small (v2)")
      else ok (decode_v2 buf)
    else if v == 3
    then if ltb (length buf) 263
      then err (thrown "Escrow account too small (v3)")
      else ok (decode_v3 buf)
    else err (thrown "Unsupported escrow version")

pub record ConfigState : Type 0 where
  pub v : ℕ
  pub authority : Key
  pub fee_collector : Key
  pub fee_bps : ℕ
  pub bump : ℕ

abbrev pub config_fields : Bytes → ConfigState
config_fields buf = record {
  v = read_u8 buf 0;
  authority = subarray buf 1 33;
  fee_collector = subarray buf 33 65;
  fee_bps = read_u16 buf 65;
  bump = read_u8 buf 67;
}

unfoldable pub decode_config_state : Bytes → Result ConfigState
decode_config_state buf =
    if ltb (length buf) 68
    then err (thrown "Config account too small")
    else if read_u8 buf 0 == 1
    then ok (config_fields buf)
    else err (thrown "Unsupported config version")

unfoldable pub decode_trade_config_state : Bytes → Result ConfigState
decode_trade_config_state buf =
    if ltb (length buf) 68
    then err (thrown "TradeConfig account too small")
    else if read_u8 buf 0 == 1
    then ok (config_fields buf)
    else err (thrown "Unsupported trade config version")
