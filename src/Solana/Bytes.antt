-- ===== src/Solana/Bytes.antt =====
-- src/solana/lnUsdtEscrowClient.js: numbers and hexadecimal text as bytes, with the `Buffer` reads
-- and writes that it uses.
use Prim.Native.Nat.{◌^◌}
use swapfloor.Common.{
  ℕ, zero, suc, ◌+◌, ◌-◌, ◌*◌, ◌/◌, ◌%◌, not, ◌&&◌, List, [], ◌∷◌, all, length, take, drop, Result,
  ok, err, thrown, ◌>>=◌, if◌then◌else◌, ltb, ◌==◌,
}
use swapfloor.Js.Text.{Text, is_digit, is_hex_digit, is_empty}
use swapfloor.Js.Value.{Value, Number, nat, negsuc, nan}
use swapfloor.Js.Convert.{to_number, big_int, normalize_hex}

abbrev pub Bytes : Type 0
Bytes = List ℕ

-- The `k` low bytes of a number, the lowest first.
unfoldable pub le_bytes : ℕ → ℕ → Bytes
le_bytes zero n = []
le_bytes (suc k) n = n % 256 ∷ le_bytes k (n / 256)

unfoldable pub read_le : Bytes → ℕ
read_le [] = 0
read_le (b ∷ bs) = b + 256 * read_le bs

-- `buf.subarray(from, to)`
abbrev pub subarray : Bytes → ℕ → ℕ → Bytes
subarray buf from to = take (to - from) (drop from buf)

-- `readUInt8`, `readUInt16LE`, `readBigUInt64LE` at an offset within the buffer.
abbrev pub read_u8 : Bytes → ℕ → ℕ
read_u8 buf i = read_le (subarray buf i (i + 1))

abbrev pub read_u16 : Bytes → ℕ → ℕ
read_u16 buf i = read_le (subarray buf i (i + 2))

abbrev pub read_u64 : Bytes → ℕ → ℕ
read_u64 buf i = read_le (subarray buf i (i + 8))

-- Two's complement in 64 bits.
unfoldable pub signed64 : ℕ → Number
signed64 u = if ltb u (2 ^ 63) then nat u else negsuc (2 ^ 64 - u - 1)

-- `readBigInt64LE`
abbrev pub read_i64 : Bytes → ℕ → Number
read_i64 buf i = signed64 (read_u64 buf i)

-- `writeBigUInt64LE`, which throws out of its range.
unfoldable pub write_u64 : Number → Result Bytes
write_u64 (nat n) = if ltb n (2 ^ 64) then ok (le_bytes 8 n) else err (thrown "RangeError")
write_u64 _ = err (thrown "RangeError")

-- `writeBigInt64LE`
unfoldable pub write_i64 : Number → Result Bytes
write_i64 (nat n) = if ltb n (2 ^ 63) then ok (le_bytes 8 n) else err (thrown "RangeError")
write_i64 (negsuc n) =
    if ltb n (2 ^ 63) then ok (le_bytes 8 (2 ^ 64 - n - 1)) else err (thrown "RangeError")
write_i64 nan = err (thrown "RangeError")

unfoldable pub u64_le : Value → Result Bytes
u64_le v = do x ← big_int v; write_u64 x

unfoldable pub i64_le : Value → Result Bytes
i64_le v = do x ← big_int v; write_i64 x

u16_bytes : Number → Result Bytes
u16_bytes (nat n) = if ltb 0xffff n then err (thrown "Invalid u16") else ok (le_bytes 2 n)
u16_bytes _ = err (thrown "Invalid u16")

unfoldable pub u16_le : Value → Result Bytes
unfolding u16_bytes
u16_le v = u16_bytes (to_number v)

abbrev pub hex_value : ℕ → ℕ
hex_value c = if is_digit c then c - b'0' else c - b'a' + 10

-- `Buffer.from(h, 'hex')` of hexadecimal digits.
unfoldable pub bytes_of_hex : Text → Bytes
bytes_of_hex (a ∷ b ∷ s) = (hex_value a * 16 + hex_value b) ∷ bytes_of_hex s
bytes_of_hex _ = []

abbrev pub hex_digit : ℕ → ℕ
hex_digit n = if ltb n 10 then b'0' + n else b'a' + (n - 10)

-- `buf.toString('hex')`
unfoldable pub hex_of_bytes : Bytes → Text
hex_of_bytes [] = []
hex_of_bytes (b ∷ bs) = hex_digit (b / 16) ∷ hex_digit (b % 16) ∷ hex_of_bytes bs

unfoldable pub hex_to_bytes : Value → Result Bytes
hex_to_bytes hex =
    let h = normalize_hex hex in
    if not (is_empty h) && all is_hex_digit h && length h % 2 == 0
    then ok (bytes_of_hex h)
    else err (thrown "Invalid hex")
