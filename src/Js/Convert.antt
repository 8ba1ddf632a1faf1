-- ===== src/Js/Convert.antt =====
-- Conversions between values: `Number(v)`, `BigInt(v)`, and the small helpers that the modules of
-- the program declare over them.
use swapfloor.Common.{◌+◌, ◌*◌, true, false, [], all, if◌then◌else◌, Result, ok, err, thrown}
use swapfloor.Js.Text.{Text, trim, is_digit, is_empty, digits_value, to_lower_case}
use swapfloor.Js.Value.{
  Number, nat, negsuc, nan, Value, undefined, null, bool, num, str, arr, obj, truthy, to_text,
}

-- `Number(s)`: decimal digits; every other text but the empty one is taken for `NaN`.
text_to_number : Text → Number
text_to_number s =
    let t = trim s in
    if is_empty t then nat 0 else if all is_digit t then nat (digits_value 0 t) else nan

-- `Number(v)`
unfoldable pub to_number : Value → Number
unfolding text_to_number to_text
to_number undefined = nan
to_number null = nat 0
to_number (bool true) = nat 1
to_number (bool false) = nat 0
to_number (num n) = n
to_number (str s) = text_to_number s
to_number (arr xs) = text_to_number (to_text (arr xs))
to_number (obj fs) = nan

-- `BigInt(s)`, for the decimal digits that the amounts of the program are written in.
big_int_text : Text → Result Number
big_int_text s =
    let t = trim s in
    if all is_digit t
    then ok (nat (digits_value 0 t))
    else err (thrown "SyntaxError: Cannot convert to a BigInt")

-- `BigInt(v)`; a fraction and the like throw, as what is no number, text or Boolean does.
unfoldable pub big_int : Value → Result Number
unfolding big_int_text
big_int (num nan) = err (thrown "RangeError: The number cannot be converted to a BigInt")
big_int (num n) = ok n
big_int (str s) = big_int_text s
big_int (bool true) = ok (nat 1)
big_int (bool false) = ok (nat 0)
big_int _ = err (thrown "TypeError: Cannot convert to a BigInt")

abbrev pub times_1000 : Number → Number
times_1000 (nat n) = nat (n * 1000)
times_1000 (negsuc n) = negsuc (n * 1000 + 999)
times_1000 nan = nan

-- `v || ''`
abbrev pub or_empty : Value → Value
or_empty v = if truthy v then v else str []

-- `String(value || '').trim().toLowerCase()`
unfoldable pub normalize_hex : Value → Text
unfolding to_text
normalize_hex v = to_lower_case (trim (to_text (or_empty v)))

-- `Math.trunc(Number(unixSec) * 1000)`, `NaN` for what is no number.
unfoldable pub unix_sec_to_ms : Value → Number
unfolding to_number
unix_sec_to_ms v = times_1000 (to_number v)
