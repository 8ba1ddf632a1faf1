-- ===== src/Ln/Bolt11/Amount.antt =====
-- The amount in the human-readable part of an invoice.
use swapfloor.Common.{
  ℕ, ◌*◌, ◌/◌, ◌%◌, Option, none, some, [], ◌∷◌, Result, ok, err, thrown, if◌then◌else◌, ◌==◌,
}
use swapfloor.Js.Text.{Text, is_digit, is_empty, digits_value}

-- What stands before the first digit, and the rest.
unfoldable pub before_digit : Text → Text
before_digit [] = []
before_digit (c ∷ s) = let rest = before_digit s in if is_digit c then [] else c ∷ rest

unfoldable pub from_digit : Text → Text
from_digit [] = []
from_digit (c ∷ s) = let rest = from_digit s in if is_digit c then c ∷ s else rest

-- The leading digits, and the rest.
unfoldable pub digits_of : Text → Text
digits_of [] = []
digits_of (c ∷ s) = let rest = digits_of s in if is_digit c then c ∷ rest else []

unfoldable pub after_digits : Text → Text
after_digits [] = []
after_digits (c ∷ s) = let rest = after_digits s in if is_digit c then rest else c ∷ s

-- The multiplier behind the digits, by its unit in millisatoshi.
unfoldable pub scaled : ℕ → Text → Result ℕ
scaled digits [] = ok (digits * 100000000000)
scaled digits (c ∷ []) =
    if c == b'm'
    then ok (digits * 100000000)
    else if c == b'u'
    then ok (digits * 100000)
    else if c == b'n'
    then ok (digits * 100)
    else if c == b'p'
    then if digits % 10 == 0
      then ok (digits / 10)
      else err (thrown "Invalid pico amount (not a whole millisat)")
    else err (thrown "Invalid amount in HRP")
scaled digits _ = err (thrown "Invalid amount in HRP")

unfoldable pub with_currency : Text → Result ℕ → Result (Text × Option ℕ)
with_currency currency (ok msat) = ok (currency, some msat)
with_currency currency (err e) = err e

unfoldable pub amount_of : Text → Text → Result (Text × Option ℕ)
amount_of currency part =
    if is_empty part
    then ok (currency, none)
    else with_currency currency (scaled (digits_value 0 (digits_of part)) (after_digits part))

unfoldable pub parse_behind : Text → Result (Text × Option ℕ)
parse_behind s = amount_of (before_digit s) (from_digit s)

-- The human-readable part is `ln`, the currency and the amount.
unfoldable pub parse_hrp_amount_msat : Text → Result (Text × Option ℕ)
unfolding parse_behind amount_of with_currency
parse_hrp_amount_msat (l ∷ n ∷ s) =
    if l == b'l'
    then (if n == b'n' then parse_behind s else err (thrown "Invalid HRP"))
    else err (thrown "Invalid HRP")
parse_hrp_amount_msat _ = err (thrown "Invalid HRP")
