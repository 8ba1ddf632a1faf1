-- ===== src/Solana/Written.antt =====
-- The layout of an escrow account of version 3, and the state that its fields describe.
use Prim.Native.Nat.{◌^◌}
use swapfloor.Common.{ℕ, ◌+◌, ◌<◌, some, ok, ◌≡◌, List, [], ◌∷◌, length}
use swapfloor.Js.Value.{Number}
use swapfloor.Solana.Bytes.{Bytes, le_bytes, write_i64, hex_of_bytes}
use swapfloor.Solana.Keys.{Key}
use swapfloor.Solana.Accounts.{Fee, EscrowState}
use swapfloor.Solana.Layout.{concat}

-- The fields of an account of version 3; the time in the eight bytes that hold it.
pub record Written : Type 0 where
  pub status : ℕ
  pub hash : Bytes
  pub recipient : Key
  pub refund : Key
  pub refund_after : Number
  pub time_bytes : Bytes
  pub mint : Key
  pub net_amount : ℕ
  pub platform : Fee
  pub trade : Fee
  pub vault : Key
  pub bump : ℕ

abbrev pub pieces : Written → List Bytes
pieces f =
    (3 ∷ [])
    ∷ (f.status ∷ [])
    ∷ f.hash
    ∷ f.recipient
    ∷ f.refund
    ∷ f.time_bytes
    ∷ f.mint
    ∷ le_bytes 8 f.net_amount
    ∷ le_bytes 8 f.platform.amount
    ∷ le_bytes 2 f.platform.bps
    ∷ f.platform.collector
    ∷ le_bytes 8 f.trade.amount
    ∷ le_bytes 2 f.trade.bps
    ∷ f.trade.collector
    ∷ f.vault
    ∷ (f.bump ∷ [])
    ∷ []

abbrev pub written : Written → Bytes
written f = concat (pieces f)

-- Hash and keys are 32 bytes, and the numbers fit their widths.
pub record Fits (f : Written) : Type 0 where
  pub hash : length f.hash ≡ 32
  pub recipient : length f.recipient ≡ 32
  pub refund : length f.refund ≡ 32
  pub mint : length f.mint ≡ 32
  pub platform_collector : length f.platform.collector ≡ 32
  pub trade_collector : length f.trade.collector ≡ 32
  pub vault : length f.vault ≡ 32
  pub time : write_i64 f.refund_after ≡ ok f.time_bytes
  pub net_amount : f.net_amount < 2 ^ 64
  pub platform_amount : f.platform.amount < 2 ^ 64
  pub trade_amount : f.trade.amount < 2 ^ 64
  pub platform_bps : f.platform.bps < 2 ^ 16
  pub trade_bps : f.trade.bps < 2 ^ 16

-- The state that the fields describe.
abbrev pub described : Written → EscrowState
described f = record {
  v = 3;
  status = f.status;
  payment_hash_hex = hex_of_bytes f.hash;
  recipient = f.recipient;
  refund = f.refund;
  refund_after = f.refund_after;
  mint = f.mint;
  amount = f.net_amount;
  net_amount = f.net_amount;
  fee_amount = f.platform.amount + f.trade.amount;
  fee_bps = f.platform.bps + f.trade.bps;
  fee_collector = some f.platform.collector;
  platform_fee = some f.platform;
  trade_fee = some f.trade;
  vault = f.vault;
  bump = f.bump;
}
