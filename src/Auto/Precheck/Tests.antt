-- ===== src/Auto/Precheck/Tests.antt =====
-- src/prompt/tradeAuto.js: tests of the status of the route.
use swapfloor.Common.{ℕ, String, ◌≡◌, refl, []}
use swapfloor.Js.Text.{codes, text_eq, trim, to_lower_case, starts_with}
use swapfloor.Js.Value.{
  Value, undefined, nat, num, str, arr, obj, nil, cons, end, field, get, to_text,
}
use swapfloor.Js.Convert.{to_number, normalize_hex}
use swapfloor.Swap.Listings.{trimmed}
use swapfloor.Auto.Events.{normalize_peer_hex}
use swapfloor.Auto.Precheck.{parse_ln_route_precheck_status, add_rows, add_word, word_of, no_word}

abbrev row : ℕ → String → Value
row ts note = obj (
    field "ts" (num (nat ts)) (
      field "message"
        (obj (
          field "body"
            (obj (field "state" (str (codes "Accepted")) (field "note" (str (codes note)) end)))
            end))
        end))

-- A failure does not take back what passed; the last of a kind stands.
last_words :
    parse_ln_route_precheck_status 90 undefined (
      arr (
        cons (row 5 "LN_ROUTE_PRECHECK_OK") (
          cons
            (row 7 "ln_route_precheck_fail: no route")
            (cons (row 3 "ln_route_precheck_ok") nil))))
    ≡ record {
      passed = record { ts = 5; note = codes "LN_ROUTE_PRECHECK_OK"; signer = [] };
      failed = record { ts = 7; note = codes "ln_route_precheck_fail: no route"; signer = [] };
    }
unfolding parse_ln_route_precheck_status add_rows add_word word_of no_word normalize_peer_hex
    normalize_hex trimmed trim to_text to_lower_case to_number text_eq starts_with get
last_words = refl
