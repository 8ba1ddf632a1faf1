-- ===== src/Ln/Invoices/Amounts.antt =====
-- The amount that the human-readable part of an invoice states.
use swapfloor.Common.{ℕ, Bool, true, not, [], ◌∷◌, all, ◌==◌, if◌then◌else◌}
use swapfloor.Js.Text.{Text, is_digit}

-- A part of the text that holds no digit, and a text that does not begin with one.
abbrev pub no_digit : Text → Bool
no_digit s = all (λ c. not (is_digit c)) s

abbrev pub starts_plain : Text → Bool
starts_plain [] = true
starts_plain (c ∷ s) = not (is_digit c)

-- A unit is 1, a thousandth, a millionth, … of a bitcoin.
abbrev pub divisor : Text → ℕ
divisor [] = 1
divisor (c ∷ _) =
    if c == b'm'
    then 1000
    else if c == b'u'
    then 1000000
    else if c == b'n'
    then 1000000000
    else 1000000000000
