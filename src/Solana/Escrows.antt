-- ===== src/Solana/Escrows.antt =====
-- Decoding an escrow account that is written as its layout says.
use swapfloor.Common.{ℕ, some, ok, ◌≡◌, refl, ap, ◌∙◌, arith, [], ◌∷◌, length, get_elem?}
use swapfloor.Solana.Bytes.{Bytes, le_bytes, read_le, signed64, subarray, hex_of_bytes}
use swapfloor.Solana.Accounts.{decode_v3, decode_escrow_state}
use swapfloor.Solana.Layout.{
  offset, subarray-concat, length-concat, read_le-le_bytes, length-le_bytes, write_i64_lem,
}
use swapfloor.Solana.Written.{Written, Fits, pieces, written, described}

read_one : (b : ℕ) → read_le (b ∷ []) ≡ b
unfolding read_le
read_one b = omega arith

-- What each read at a fixed place of the buffer gives.
record Reads (buf : Bytes) (f : Written) : Type 0 where
  pub status : read_le (subarray buf 1 2) ≡ f.status
  pub hash : hex_of_bytes (subarray buf 2 34) ≡ hex_of_bytes f.hash
  pub recipient : subarray buf 34 66 ≡ f.recipient
  pub refund : subarray buf 66 98 ≡ f.refund
  pub refund_after : signed64 (read_le (subarray buf 98 106)) ≡ f.refund_after
  pub mint : subarray buf 106 138 ≡ f.mint
  pub net_amount : read_le (subarray buf 138 146) ≡ f.net_amount
  pub platform_amount : read_le (subarray buf 146 154) ≡ f.platform.amount
  pub platform_bps : read_le (subarray buf 154 156) ≡ f.platform.bps
  pub platform_collector : subarray buf 156 188 ≡ f.platform.collector
  pub trade_amount : read_le (subarray buf 188 196) ≡ f.trade.amount
  pub trade_bps : read_le (subarray buf 196 198) ≡ f.trade.bps
  pub trade_collector : subarray buf 198 230 ≡ f.trade.collector
  pub vault : subarray buf 230 262 ≡ f.vault
  pub bump : read_le (subarray buf 262 263) ≡ f.bump

decode_fields : (buf : Bytes) (f : Written) → Reads buf f → decode_v3 buf ≡ described f
unfolding decode_v3
decode_fields buf f r =
    rw
      (
        r.status, r.hash, r.recipient, r.refund, r.refund_after, r.mint, r.net_amount,
        r.platform_amount, r.platform_bps, r.platform_collector, r.trade_amount, r.trade_bps,
        r.trade_collector, r.vault, r.bump,
      )
      refl

decode_3 :
    (buf : Bytes)
    → length buf ≡ 263
    → get_elem? buf 0 ≡ some 3
    → decode_escrow_state buf ≡ ok (decode_v3 buf)
unfolding decode_escrow_state
decode_3 [] h v = cc
decode_3 (x ∷ rest) h v =
    let version : x ≡ 3 = ground arith in
    let behind : length rest ≡ 262 = omega arith in rw (version, behind) refl

module _ (f : Written) (fits : Fits f) where
  time_length : length f.time_bytes ≡ 8
  time_length = (write_i64_lem f.refund_after f.time_bytes fits.time).0

  offset_5 : offset 5 (pieces f) ≡ 98
  offset_5 = omega (arith, fits.hash, fits.recipient, fits.refund)

  offset_8 : offset 8 (pieces f) ≡ 146
  offset_8 = omega (arith, offset_5, time_length, fits.mint, length-le_bytes 8 f.net_amount)

  offset_10 : offset 10 (pieces f) ≡ 156
  offset_10 =
      omega (arith, offset_8, length-le_bytes 8 f.platform.amount, length-le_bytes 2 f.platform.bps)

  offset_13 : offset 13 (pieces f) ≡ 198
  offset_13 = omega (
    arith,
    offset_10,
    fits.platform_collector,
    length-le_bytes 8 f.trade.amount,
    length-le_bytes 2 f.trade.bps,
  )

  offset_15 : offset 15 (pieces f) ≡ 262
  offset_15 = omega (arith, offset_13, fits.trade_collector, fits.vault)

  hash_at : subarray (written f) 2 34 ≡ f.hash
  hash_at =
      subarray-concat 2 (pieces f) (f.hash) 2 34 refl (omega (arith, fits.hash))
        (omega (arith, fits.hash))

  recipient_at : subarray (written f) 34 66 ≡ f.recipient
  recipient_at =
      subarray-concat 3 (pieces f) (f.recipient) 34 66 refl (omega (arith, fits.hash))
        (omega (arith, fits.recipient))

  refund_at : subarray (written f) 66 98 ≡ f.refund
  refund_at =
      subarray-concat 4 (pieces f) (f.refund) 66 98 refl (omega (arith, fits.hash, fits.recipient))
        (omega (arith, fits.refund))

  time_bytes_at : subarray (written f) 98 106 ≡ f.time_bytes
  time_bytes_at =
      subarray-concat 5 (pieces f) (f.time_bytes) 98 106 refl (omega (arith, offset_5))
        (omega (arith, time_length))

  mint_at : subarray (written f) 106 138 ≡ f.mint
  mint_at =
      subarray-concat 6 (pieces f) (f.mint) 106 138 refl (omega (arith, offset_5, time_length))
        (omega (arith, fits.mint))

  net_bytes_at : subarray (written f) 138 146 ≡ le_bytes 8 f.net_amount
  net_bytes_at =
      subarray-concat 7 (pieces f) (le_bytes 8 f.net_amount) 138 146 refl
        (omega (arith, offset_5, time_length, fits.mint))
        (omega (arith, length-le_bytes 8 f.net_amount))

  platform_bytes_at : subarray (written f) 146 154 ≡ le_bytes 8 f.platform.amount
  platform_bytes_at =
      subarray-concat 8 (pieces f) (le_bytes 8 f.platform.amount) 146 154 refl
        (omega (arith, offset_8)) (omega (arith, length-le_bytes 8 f.platform.amount))

  platform_bps_bytes_at : subarray (written f) 154 156 ≡ le_bytes 2 f.platform.bps
  platform_bps_bytes_at =
      subarray-concat 9 (pieces f) (le_bytes 2 f.platform.bps) 154 156 refl
        (omega (arith, offset_8, length-le_bytes 8 f.platform.amount))
        (omega (arith, length-le_bytes 2 f.platform.bps))

  platform_collector_at : subarray (written f) 156 188 ≡ f.platform.collector
  platform_collector_at =
      subarray-concat 10 (pieces f) (f.platform.collector) 156 188 refl (omega (arith, offset_10))
        (omega (arith, fits.platform_collector))

  trade_bytes_at : subarray (written f) 188 196 ≡ le_bytes 8 f.trade.amount
  trade_bytes_at =
      subarray-concat 11 (pieces f) (le_bytes 8 f.trade.amount) 188 196 refl
        (omega (arith, offset_10, fits.platform_collector))
        (omega (arith, length-le_bytes 8 f.trade.amount))

  trade_bps_bytes_at : subarray (written f) 196 198 ≡ le_bytes 2 f.trade.bps
  trade_bps_bytes_at =
      subarray-concat 12 (pieces f) (le_bytes 2 f.trade.bps) 196 198 refl
        (omega (arith, offset_10, fits.platform_collector, length-le_bytes 8 f.trade.amount))
        (omega (arith, length-le_bytes 2 f.trade.bps))

  trade_collector_at : subarray (written f) 198 230 ≡ f.trade.collector
  trade_collector_at =
      subarray-concat 13 (pieces f) (f.trade.collector) 198 230 refl (omega (arith, offset_13))
        (omega (arith, fits.trade_collector))

  vault_at : subarray (written f) 230 262 ≡ f.vault
  vault_at =
      subarray-concat 14 (pieces f) (f.vault) 230 262 refl
        (omega (arith, offset_13, fits.trade_collector)) (omega (arith, fits.vault))

  bump_byte_at : subarray (written f) 262 263 ≡ f.bump ∷ []
  bump_byte_at =
      subarray-concat 15 (pieces f) (f.bump ∷ []) 262 263 refl (omega (arith, offset_15)) (refl)

  decode_written : decode_v3 (written f) ≡ described f
  decode_written = decode_fields (written f) f (record {
    status = read_one f.status;
    hash = ap hex_of_bytes hash_at;
    recipient = recipient_at;
    refund = refund_at;
    refund_after =
        ap (λ b. signed64 (read_le b)) time_bytes_at
        ∙ (write_i64_lem f.refund_after f.time_bytes fits.time).1;
    mint = mint_at;
    net_amount = ap read_le net_bytes_at ∙ read_le-le_bytes 8 f.net_amount fits.net_amount;
    platform_amount =
        ap read_le platform_bytes_at ∙ read_le-le_bytes 8 f.platform.amount fits.platform_amount;
    platform_bps =
        ap read_le platform_bps_bytes_at ∙ read_le-le_bytes 2 f.platform.bps fits.platform_bps;
    platform_collector = platform_collector_at;
    trade_amount = ap read_le trade_bytes_at ∙ read_le-le_bytes 8 f.trade.amount fits.trade_amount;
    trade_bps = ap read_le trade_bps_bytes_at ∙ read_le-le_bytes 2 f.trade.bps fits.trade_bps;
    trade_collector = trade_collector_at;
    vault = vault_at;
    bump = ap read_le bump_byte_at ∙ read_one f.bump;
  })

  length-written : length (written f) ≡ 263
  length-written = omega (arith, length-concat (pieces f), offset_15)

  -- An account whose bytes are the layout of version 3, with a hash and keys of 32 bytes and numbers
  -- that fit their widths, decodes to the state that its fields describe.
  pub decode_escrow_state-written : decode_escrow_state (written f) ≡ ok (described f)
  decode_escrow_state-written = decode_3 (written f) length-written refl ∙ ap ok decode_written
