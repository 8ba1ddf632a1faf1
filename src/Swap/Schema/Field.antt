-- ===== src/Swap/Schema/Field.antt =====
-- The field tests of src/swap/schema.js.
use swapfloor.Common.{
  ℕ, ◌*◌, Bool, true, false, not, ◌&&◌, Option, none, some, ltb, ◌==◌, length, all,
}
use swapfloor.Js.Text.{Text, trim, to_lower_case, is_hex_digit, is_base58_unit, is_digit, is_empty}
use swapfloor.Js.Value.{nat, Value, num, str}

hex_text : Text → Option ℕ → Bool
hex_text hex none = not (is_empty hex) && all is_hex_digit hex
hex_text hex (some bytes) = length hex == bytes * 2 && all is_hex_digit hex

-- `isHex(value, bytes)`; without `bytes` the length is free.
unfoldable pub is_hex : Value → Option ℕ → Bool
unfolding hex_text
is_hex (str s) bytes = hex_text (to_lower_case (trim s)) bytes
is_hex _ _ = false

unfoldable pub is_base58 : Value → Bool
is_base58 (str s) = let t = trim s in not (is_empty t) && all is_base58_unit t
is_base58 _ = false

unfoldable pub is_uint : Value → Bool
is_uint (num (nat n)) = true
is_uint _ = false

unfoldable pub is_pos_int : Value → Bool
is_pos_int (num (nat n)) = ltb 0 n
is_pos_int _ = false

unfoldable pub is_amount_string : Value → Bool
is_amount_string (str s) = let t = trim s in all is_digit t && not (is_empty t)
is_amount_string _ = false

-- `typeof v === 'string' && v.trim().length > 0`
unfoldable pub is_filled_string : Value → Bool
is_filled_string (str s) = not (is_empty (trim s))
is_filled_string _ = false

-- `typeof v === 'string' && v.length > 0`
unfoldable pub is_nonempty_string : Value → Bool
is_nonempty_string (str s) = not (is_empty s)
is_nonempty_string _ = false
