-- ===== src/Solana/Payload.antt =====
-- The bytes of an init instruction hold the arguments it was built from.
use swapfloor.Common.{
  ℕ, ◌+◌, true, ok, ◌≡◌, subst, refl, sym, ap, ◌∙◌, arith, List, [], ◌∷◌, length, get_elem?,
  >>=-eq-ok, some,
}
use swapfloor.Js.Value.{Value, nat}
use swapfloor.Js.Convert.{big_int}
use swapfloor.Solana.Bytes.{
  Bytes, read_le, signed64, subarray, write_i64, write_u64, u64_le, i64_le, u16_le, hex_to_bytes,
}
use swapfloor.Solana.Layout.{concat, offset, subarray-concat, write_i64_lem, write_u64_lem}
use swapfloor.Js.Text.{text_eq}
use swapfloor.Solana.Keys.{Key, Web3, derive_escrow_pda, derive_config_pda, derive_trade_config_pda}
use swapfloor.Solana.Instructions.{
  Init, Instruction, Programs, init_payload, build_init_instruction,
}

i64_le_lem :
    (v : Value) (bytes : Bytes)
    → i64_le v ≡ ok bytes
    → (length bytes ≡ 8) × (big_int v ≡ ok (signed64 (read_le bytes)))
unfolding i64_le
i64_le_lem v bytes h =
    let (x, p, r) = >>=-eq-ok (big_int v) write_i64 h in
    let (n, e) = write_i64_lem x bytes r in (n, rw e p)

u64_le_lem :
    (v : Value) (bytes : Bytes)
    → u64_le v ≡ ok bytes
    → (length bytes ≡ 8) × (big_int v ≡ ok (nat (read_le bytes)))
unfolding u64_le
u64_le_lem v bytes h =
    let (x, p, r) = >>=-eq-ok (big_int v) write_u64 h in
    let (n, e) = write_u64_lem x bytes r in (n, rw e p)

ok_injective {ℓ} : {A : Type ℓ} {x y : A} → ok x ≡ ok y → x ≡ y
ok_injective h = cc

module _ (a : Init) (payload : Bytes) where
  -- What stands where.
  pub record Holds : Type 0 where
    pub payment_hash : hex_to_bytes a.payment_hash_hex ≡ ok (subarray payload 1 33)
    pub recipient : subarray payload 33 65 ≡ a.recipient
    pub refund : subarray payload 65 97 ≡ a.refund
    pub refund_after :
        big_int a.refund_after_unix ≡ ok (signed64 (read_le (subarray payload 97 105)))
    pub amount : big_int a.amount ≡ ok (nat (read_le (subarray payload 105 113)))

  pieces : Bytes → Bytes → Bytes → Bytes → Bytes → List Bytes
  pieces hash time amount platform trade =
      (0 ∷ [])
      ∷ hash
      ∷ a.recipient
      ∷ a.refund
      ∷ time
      ∷ amount
      ∷ platform
      ∷ trade
      ∷ a.trade_fee_collector
      ∷ []

  holds_pieces :
      (hash time amount platform trade : Bytes)
      → length hash ≡ 32
      → length a.recipient ≡ 32
      → length a.refund ≡ 32
      → hex_to_bytes a.payment_hash_hex ≡ ok hash
      → i64_le a.refund_after_unix ≡ ok time
      → u64_le a.amount ≡ ok amount
      → concat (pieces hash time amount platform trade) ≡ payload
      → Holds
  unfolding pieces
  holds_pieces hash time amount platform trade lh lr lf h t n same =
      let (lt, et) = i64_le_lem a.refund_after_unix time t in
      let (ln, en) = u64_le_lem a.amount amount n in
      let ps = pieces hash time amount platform trade in
      let at =
        λ (k : ℕ) (piece : Bytes) (from to : ℕ) (f : get_elem? ps k ≡ some piece)
            (o : offset k ps ≡ from) (e : from + length piece ≡ to).
          subst (λ buf. subarray buf from to ≡ piece) same
            (subarray-concat k ps piece from to f o e) in
      record {
        payment_hash = rw (at 1 hash 1 33 refl refl (omega (arith, lh))) h;
        recipient = at 2 a.recipient 33 65 refl (omega (arith, lh)) (omega (arith, lr));
        refund = at 3 a.refund 65 97 refl (omega (arith, lh, lr)) (omega (arith, lf));
        refund_after =
            rw (at 4 time 97 105 refl (omega (arith, lh, lr, lf)) (omega (arith, lt))) et;
        amount =
            rw (at 5 amount 105 113 refl (omega (arith, lh, lr, lf, lt)) (omega (arith, ln))) en;
      }

  init_payload-Holds :
      (hash : Bytes)
      → hex_to_bytes a.payment_hash_hex ≡ ok hash
      → length hash ≡ 32
      → length a.recipient ≡ 32
      → length a.refund ≡ 32
      → init_payload a ≡ ok payload
      → Holds
  unfolding init_payload pieces
  init_payload-Holds hash known lh lr lf h =
      let (hash2, p, r) = >>=-eq-ok (hex_to_bytes a.payment_hash_hex) _ h in
      let same_hash : hash2 ≡ hash = cc in
      let (time, t, r2) = >>=-eq-ok (i64_le a.refund_after_unix) _ r in
      let (amount, n, r3) = >>=-eq-ok (u64_le a.amount) _ r2 in
      let (platform, pb, r4) = >>=-eq-ok (u16_le a.expected_platform_fee_bps) _ r3 in
      let (trade, tb, r5) = >>=-eq-ok (u16_le a.expected_trade_fee_bps) _ r4 in
      holds_pieces hash2 time amount platform trade (ap length same_hash ∙ lh) lr lf p t n
        (ok_injective r5)

derive_escrow_pda-hash :
    (web3 : Web3) (v : Value) (program : Key) (found : Key × ℕ)
    → derive_escrow_pda web3 v program ≡ ok found
    → (hash : Bytes) × (hex_to_bytes v ≡ ok hash) × (length hash ≡ 32)
unfolding derive_escrow_pda
derive_escrow_pda-hash web3 v program found h =
    let (hash, p, r) = >>=-eq-ok (hex_to_bytes v) _ h in
    let n : length hash ≡ 32 = ground arith in (hash, p, n)

-- An init instruction that is built, for a recipient and a refund address of 32 bytes, holds the
-- payment hash, the recipient, the refund address, the refund time as a signed and the amount as an
-- unsigned 64-bit number, each at its place, and reading them back gives the arguments; its program is
-- the given one.
pub build_init_instruction-Holds :
    (web3 : Web3) (programs : Programs) (program : Key) (a : Init) (ix : Instruction)
    → length a.recipient ≡ 32
    → length a.refund ≡ 32
    → build_init_instruction web3 programs program a ≡ ok ix
    → Holds a ix.payload × (ix.program_id ≡ program)
unfolding build_init_instruction
build_init_instruction-Holds web3 programs program a ix lr lf h =
    let ((escrow, b), d, r) = >>=-eq-ok (derive_escrow_pda web3 a.payment_hash_hex program) _ h in
    let (hash, known, lh) = derive_escrow_pda-hash web3 a.payment_hash_hex program (escrow, b) d in
    let ((config, b2), c, r2) = >>=-eq-ok (derive_config_pda web3 program) _ r in
    let ((trade, b3), t, r3) =
      >>=-eq-ok (derive_trade_config_pda web3 a.trade_fee_collector program) _ r2 in
    let chosen : text_eq trade a.trade_config_pda ≡ true = ground arith in
    let (payload, p, r4) = >>=-eq-ok (init_payload a) _ (rw chosen at r3) in
    let built = ok_injective r4 in
    (
      subst (Holds a) (ap Instruction.payload built)
          (init_payload-Holds a payload hash known lh lr lf p),
      sym (ap Instruction.program_id built),
    )
