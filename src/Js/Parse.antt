-- ===== src/Js/Parse.antt =====
-- `Number.parseInt(s, 10)`: the sign and the digits at the head of a text.
use swapfloor.Common.{ℕ, zero, suc, Option, none, some, [], ◌∷◌, if◌then◌else◌, ◌==◌}
use swapfloor.Js.Text.{Text, trim, is_digit, digits_value}
use swapfloor.Js.Value.{Number, nat, negsuc}

digit_prefix : Text → Text
digit_prefix [] = []
digit_prefix (c ∷ s) = let rest = digit_prefix s in if is_digit c then c ∷ rest else []

digits : Text → Option ℕ
digits [] = none
digits (c ∷ s) = some (digits_value 0 (c ∷ s))

below : Option ℕ → Option Number
below none = none
below (some zero) = some (nat 0)
below (some (suc n)) = some (negsuc n)

above : Option ℕ → Option Number
above none = none
above (some n) = some (nat n)

signed_digits : Text → Option Number
unfolding digit_prefix digits below above
signed_digits [] = none
signed_digits (c ∷ s) =
    if c == b'-'
    then below (digits (digit_prefix s))
    else if c == b'+'
    then above (digits (digit_prefix s))
    else above (digits (digit_prefix (c ∷ s)))

-- `Number.parseInt(s, 10)`; `none` where it is `NaN`.
unfoldable pub parse_int : Text → Option Number
unfolding signed_digits
parse_int s = signed_digits (trim s)
