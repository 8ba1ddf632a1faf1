-- ===== src/Solana/Layout.antt =====
-- Reading back the numbers and the pieces that a buffer is written from.
use Prim.Native.Nat.{◌^◌}
use swapfloor.Common.{
  ℕ, zero, suc, ◌+◌, ◌-◌, ◌*◌, ◌/◌, ◌<◌, ok, ◌≡◌, refl, sym, ap, ◌∙◌, arith, List, [], ◌∷◌, ◌++◌,
  length, drop, get_elem?, some, take-append_length, drop-append_add, length-append,
}
use swapfloor.Js.Value.{Number, nat, negsuc, nan}
use swapfloor.Solana.Bytes.{Bytes, le_bytes, read_le, signed64, write_u64, write_i64, subarray}

-- 256 ^ k
abbrev pub size : ℕ → ℕ
size zero = 1
size (suc k) = 256 * size k

pub read_le-le_bytes : (k n : ℕ) → n < size k → read_le (le_bytes k n) ≡ n
unfolding read_le le_bytes
read_le-le_bytes zero n h = omega arith
read_le-le_bytes (suc k) n h = omega (arith, read_le-le_bytes k (n / 256) (omega arith))

pub length-le_bytes : (k n : ℕ) → length (le_bytes k n) ≡ k
unfolding le_bytes
length-le_bytes zero n = refl
length-le_bytes (suc k) n = omega (arith, length-le_bytes k (n / 256))

-- What `writeBigUInt64LE` writes is 8 bytes, which read back as the number.
pub write_u64_lem :
    (x : Number) (bytes : Bytes)
    → write_u64 x ≡ ok bytes
    → (length bytes ≡ 8) × (nat (read_le bytes) ≡ x)
unfolding write_u64
write_u64_lem (nat n) bytes h =
    let same : le_bytes 8 n ≡ bytes = ground arith in
    rw (sym same) (length-le_bytes 8 n, ap nat (read_le-le_bytes 8 n (ground arith)))
write_u64_lem (negsuc n) bytes h = cc
write_u64_lem nan bytes h = cc

-- The same for `writeBigInt64LE`, in two's complement.
pub write_i64_lem :
    (x : Number) (bytes : Bytes)
    → write_i64 x ≡ ok bytes
    → (length bytes ≡ 8) × (signed64 (read_le bytes) ≡ x)
unfolding write_i64 signed64
write_i64_lem (nat n) bytes h =
    let same : le_bytes 8 n ≡ bytes = ground arith in
    let read = read_le-le_bytes 8 n (ground arith) in
    rw (sym same) (length-le_bytes 8 n, rw read (ground arith))
write_i64_lem (negsuc n) bytes h =
    let same : le_bytes 8 (2 ^ 64 - n - 1) ≡ bytes = ground arith in
    let read = read_le-le_bytes 8 (2 ^ 64 - n - 1) (ground arith) in
    rw (sym same) (length-le_bytes 8 (2 ^ 64 - n - 1), rw read (ground arith))
write_i64_lem nan bytes h = cc

-- A buffer in pieces, and where each begins.
abbrev pub concat : List Bytes → Bytes
concat [] = []
concat (p ∷ ps) = p ++ concat ps

abbrev pub offset : ℕ → List Bytes → ℕ
offset zero ps = 0
offset (suc k) [] = 0
offset (suc k) (p ∷ ps) = length p + offset k ps

drop-concat : (k : ℕ) (ps : List Bytes) → drop (offset k ps) (concat ps) ≡ concat (drop k ps)
drop-concat zero ps = refl
drop-concat (suc k) [] = refl
drop-concat (suc k) (p ∷ ps) = drop-append_add p (concat ps) (offset k ps) ∙ drop-concat k ps

pub length-concat : (ps : List Bytes) → length (concat ps) ≡ offset (length ps) ps
length-concat [] = refl
length-concat (p ∷ ps) = omega (arith, length-append p (concat ps), length-concat ps)

get_elem-drop :
    (k : ℕ) (ps : List Bytes) (piece : Bytes)
    → get_elem? ps k ≡ some piece
    → drop k ps ≡ piece ∷ drop (suc k) ps
get_elem-drop zero (p ∷ ps) piece h = ground arith
get_elem-drop (suc k) (p ∷ ps) piece h = get_elem-drop k ps piece h
get_elem-drop zero [] piece h = cc
get_elem-drop (suc k) [] piece h = cc

-- The piece at an offset.
pub subarray-concat :
    (k : ℕ) (ps : List Bytes) (piece : Bytes) (from to : ℕ)
    → get_elem? ps k ≡ some piece
    → offset k ps ≡ from
    → from + length piece ≡ to
    → subarray (concat ps) from to ≡ piece
subarray-concat k ps piece from to found at_from ends =
    let n : to - from ≡ length piece = omega arith in
    rw (n, sym at_from, drop-concat k ps, get_elem-drop k ps piece found)
      (take-append_length piece (concat (drop (suc k) ps)))
