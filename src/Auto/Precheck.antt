-- ===== src/Auto/Precheck.antt =====
-- src/prompt/tradeAuto.js: `parseLnRoutePrecheckStatus`, what a trade's status rows say of the route.
mod Tests
use swapfloor.Common.{
  ℕ, suc, Bool, true, false, not, ◌&&◌, ◌||◌, Option, none, some, [], ltb, leb, if◌then◌else◌,
}
use swapfloor.Js.Text.{Text, codes, text_eq, to_lower_case, is_empty, starts_with}
use swapfloor.Js.Value.{
  Number, nat, Value, num, str, arr, obj, Items, nil, cons, end, get, is_object,
}
use swapfloor.Js.Convert.{to_number}
use swapfloor.Swap.Listings.{trimmed}
use swapfloor.Auto.Events.{or_else, normalize_peer_hex}

-- The last word of a kind: its time, which is 0 before the first, its note and its signer.
pub record Word : Type 0 where
  pub ts : ℕ
  pub note : Text
  pub signer : Text

pub record Precheck : Type 0 where
  pub passed : Word
  pub failed : Word

-- A row that counts: it is of the wanted signer or of none, and states an accepted trade with a note.
unfoldable pub word_of : ℕ → Text → Value → Option Word
word_of now want row =
    if is_object msg
      && (is_empty want || is_empty signer || text_eq signer want)
      && text_eq (to_lower_case (trimmed (get body "state"))) (codes "accepted")
      && not (is_empty (trimmed (get body "note")))
    then some (record {
      ts = time_of (to_number (or_else (get row "ts") (or_else (get msg "ts") (num (nat 0)))));
      note = trimmed (get body "note");
      signer = signer;
    })
    else none
  where
    msg : Value
    msg = get row "message"

    signer : Text
    signer = normalize_peer_hex (or_else (get row "signer") (or_else (get msg "signer") (str [])))

    body : Value
    body = if is_object (get msg "body") then get msg "body" else obj end

    time_of : Number → ℕ
    time_of (nat (suc n)) = suc n
    time_of _ = now

-- The later of two words, the second where they come at once.
later_word : Word → Word → Word
later_word old new = if leb old.ts new.ts then new else old

says : Text → Word → Bool
says prefix w = starts_with prefix (to_lower_case w.note)

unfoldable pub add_word : Option Word → Precheck → Precheck
unfolding later_word says
add_word none p = p
add_word (some w) p =
    if says (codes "ln_route_precheck_ok") w
    then record p { passed = later_word p.passed w }
    else if says (codes "ln_route_precheck_fail") w
    then record p { failed = later_word p.failed w }
    else p

unfoldable pub add_rows : ℕ → Text → Items → Precheck → Precheck
add_rows now want nil p = p
add_rows now want (cons row rows) p = add_rows now want rows (add_word (word_of now want row) p)

unfoldable pub no_word : Word
no_word = record { ts = 0; note = []; signer = [] }

unfoldable pub parse_ln_route_precheck_status : ℕ → Value → Value → Precheck
unfolding no_word
parse_ln_route_precheck_status now payer_peer status_rows =
    add_rows now (normalize_peer_hex payer_peer) (rows_of status_rows)
      (record { passed = no_word; failed = no_word })
  where
    rows_of : Value → Items
    rows_of (arr vs) = vs
    rows_of _ = nil
