-- ===== src/Audit/Tests.antt =====
-- src/prompt/redact.js and src/prompt/audit.js: tests.
use swapfloor.Common.{String, ◌≡◌, refl, true, [], ◌∷◌, ◌++◌}
use swapfloor.Js.Text.{codes, text_eq, to_lower_case, starts_with, has_part, decimal}
use swapfloor.Js.Value.{Value, str, arr, obj, nil, cons, end, field}
use swapfloor.Audit.{should_redact_key, truncate_string, redact_sensitive}
use swapfloor.Audit.Hidden.{
  same, alike_arr, alike_obj, none, item, shown, secret, no_field, Entry, write_all,
  write_all-AlikeEntries,
}

abbrev payload : String → Value
payload preimage = obj (
    field "trade_id" (str (codes "t1")) (
      field "steps" (arr (cons (obj (field "ln_Preimage_hex" (str (codes preimage)) end)) nil))
        end))

abbrev entry : String → Entry
entry preimage = record { now = 1000; event = codes "tool"; payload = payload preimage }

hides : redact_sensitive 4 (payload "00ff") ≡ payload "<redacted>"
unfolding redact_sensitive should_redact_key has_part starts_with to_lower_case text_eq
    truncate_string decimal
hides = refl

-- A key of the policy of invites is shown.
shows :
    redact_sensitive 4 (obj (field "invite_required" (str (codes "abcdef")) end))
    ≡ obj (field "invite_required" (str (codes "abcd" ++ 0x2026 ∷ codes "<truncated 2 chars>")) end)
unfolding redact_sensitive should_redact_key has_part starts_with to_lower_case text_eq
    truncate_string decimal
shows = refl

preimage_key : should_redact_key (codes "ln_Preimage_hex") ≡ true
unfolding should_redact_key has_part starts_with to_lower_case text_eq
preimage_key = refl

write_all-AlikeEntries_example : write_all (entry "00ff" ∷ []) [] ≡ write_all (entry "a1" ∷ []) []
write_all-AlikeEntries_example = write_all-AlikeEntries (entry "00ff" ∷ []) (entry "a1" ∷ []) [] (
  refl,
  refl,
  alike_obj (
      shown "trade_id" (same (str (codes "t1"))) (
        shown "steps"
          (alike_arr (
            item
              (alike_obj (
                secret "ln_Preimage_hex" (str (codes "00ff")) (str (codes "a1")) preimage_key
                  no_field))
              none))
          no_field)),
  tt,
)
