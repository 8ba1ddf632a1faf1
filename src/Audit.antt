-- ===== src/Audit.antt =====
-- src/prompt/redact.js and src/prompt/audit.js: the audit log, and what it shows of a value.
pub mod Hidden
mod Tests
use swapfloor.Common.{
  ℕ, ◌-◌, String, Bool, true, false, ◌||◌, List, [], ◌∷◌, ◌++◌, length, take, reverse, leb,
  if◌then◌else◌,
}
use swapfloor.Js.Text.{Text, codes, text_eq, to_lower_case, starts_with, has_part, decimal}
use swapfloor.Js.Value.{
  Value, nat, undefined, null, bool, num, str, arr, obj, Items, nil, cons, Fields, end, field,
}
use swapfloor.Js.Stringify.{stable_stringify}

-- `s.endsWith(p)`
ends_with : Text → Text → Bool
ends_with p s = starts_with (reverse p) (reverse s)

-- Access tokens and keys.
is_credential : Text → Bool
is_credential k =
    has_part (codes "token") k
    || has_part (codes "api_key") k
    || has_part (codes "apikey") k
    || has_part (codes "authorization") k
    || text_eq k (codes "auth")
    || has_part (codes "macaroon") k
    || has_part (codes "seed") k
    || has_part (codes "password") k

-- The payload of an invite or a welcome, and not the fields of their policy.
is_payload : Text → Bool
unfolding ends_with
is_payload k =
    text_eq k (codes "invite")
    || text_eq k (codes "invite_b64")
    || ends_with (codes "_invite_b64") k
    || text_eq k (codes "welcome")
    || text_eq k (codes "welcome_b64")
    || ends_with (codes "_welcome_b64") k

unfoldable pub should_redact_key : Text → Bool
unfolding is_credential is_payload
should_redact_key key =
    let k = to_lower_case key in is_credential k || has_part (codes "preimage") k || is_payload k

unfoldable pub truncate_string : ℕ → Text → Text
truncate_string max s =
    if leb (length s) max
    then s
    else take max s ++ 0x2026 ∷ codes "<truncated " ++ decimal (length s - max) ++ codes " chars>"

unfoldable mutual
  pub redact_sensitive : ℕ → Value → Value
  redact_sensitive max undefined = undefined
  redact_sensitive max null = null
  redact_sensitive max (bool b) = bool b
  redact_sensitive max (num n) = num n
  redact_sensitive max (str s) = str (truncate_string max s)
  redact_sensitive max (arr vs) = arr (redact_items max vs)
  redact_sensitive max (obj fs) = obj (redact_fields max fs)

  pub redact_items : ℕ → Items → Items
  redact_items max nil = nil
  redact_items max (cons v vs) = cons (redact_sensitive max v) (redact_items max vs)

  pub redact_fields : ℕ → Fields → Fields
  redact_fields max end = end
  redact_fields max (field k v fs) =
      let shown = redact_sensitive max v in
      let rest = redact_fields max fs in
      field k (if should_redact_key (codes k) then str (codes "<redacted>") else shown) rest

-- The text that is appended to the file of the log.
entry_line : ℕ → Text → Value → Text
entry_line now event payload =
    stable_stringify (
      obj (
        field "ts" (num (nat now))
          (field "event" (str event) (field "payload" (redact_sensitive 2000 payload) end))))
    ++ 10 ∷ []

-- `AuditLog.write`, on the text of the file.
unfoldable pub write : ℕ → Text → Value → Text → Text
unfolding entry_line
write now event payload file = file ++ entry_line now event payload
