-- ===== src/Auto/Events.antt =====
-- src/prompt/tradeAuto.js: what the automation reads from the events of the sidechannel.
use swapfloor.Common.{
  ℕ, suc, ◌+◌, ◌*◌, Bool, false, not, ◌&&◌, ◌||◌, Option, none, some, [], ◌∷◌, ◌++◌, length, all,
  ltb, leb, ◌==◌, if◌then◌else◌,
}
use swapfloor.Js.Text.{Text, codes, text_eq, trim, is_empty, is_hex_digit}
use swapfloor.Js.Value.{
  Number, nat, nan, Value, undefined, null, num, obj, end, get, truthy, is_object, is_reference,
  is_present, number_lt, to_text,
}
use swapfloor.Js.Convert.{to_number, normalize_hex}
use swapfloor.Js.Parse.{parse_int}
use swapfloor.Swap.Listings.{trimmed}

parsed_int : Option Number → Number
parsed_int none = nan
parsed_int (some n) = n

-- `toIntOrNull`; `nan` stands for `null`.
unfoldable pub to_int_or_null : Value → Number
unfolding parsed_int
to_int_or_null undefined = nan
to_int_or_null null = nan
to_int_or_null (num n) = n
to_int_or_null v = parsed_int (parse_int (trim (to_text v)))

-- `a || b`
abbrev pub or_else : Value → Value → Value
or_else a b = if truthy a then a else b

message : Value → Value
message evt = get evt "message"

unfoldable pub envelope_kind : Value → Text
unfolding message
envelope_kind evt = trimmed (or_else (get evt "kind") (get (message evt) "kind"))

unfoldable pub envelope_trade_id : Value → Text
unfolding message
envelope_trade_id evt = trimmed (or_else (get evt "trade_id") (get (message evt) "trade_id"))

-- A hexadecimal text of a length, or nothing.
abbrev pub hex_or_empty : ℕ → Text → Text
hex_or_empty n s = if all is_hex_digit s && length s == n then s else []

unfoldable pub envelope_signer : Value → Text
unfolding message
envelope_signer evt =
    hex_or_empty 64 (normalize_hex (or_else (get (message evt) "signer") (get evt "signer")))

unfoldable pub envelope_sig : Value → Text
unfolding message
envelope_sig evt = hex_or_empty 128 (normalize_hex (get (message evt) "sig"))

unfoldable pub normalize_peer_hex : Value → Text
normalize_peer_hex v = hex_or_empty 64 (normalize_hex v)

-- `s || t`
abbrev pub text_or : Text → Text → Text
text_or s t = if is_empty s then t else s

peer_of : Value → Text
peer_of v =
    text_or (normalize_peer_hex (get v "peer"))
      (text_or (normalize_peer_hex (get v "peerPubkey")) (normalize_peer_hex (get v "peer_pubkey")))

unfoldable pub local_peer_from_sc_info : Value → Text
unfolding peer_of
local_peer_from_sc_info raw =
    if is_reference raw
    then text_or (peer_of raw) (if is_object (get raw "info") then peer_of (get raw "info") else [])
    else []

-- A number of an event, or 0.
abbrev pub number_or_zero : Value → Number
number_or_zero (num nan) = nat 0
number_or_zero (num n) = n
number_or_zero _ = nat 0

colon : Text → Text → Text
colon s t = s ++ b':' ∷ t

event_names : Value → Text
unfolding colon
event_names evt =
    colon (trimmed (get evt "channel")) (colon (envelope_kind evt) (envelope_trade_id evt))

is_nameless : Value → Bool
is_nameless evt =
    is_empty (trimmed (get evt "channel"))
    && is_empty (envelope_kind evt)
    && is_empty (envelope_trade_id evt)

-- Without a signature, an event goes by its sequence number, and else by its time.
unsigned_key : Value → Text
unfolding colon is_nameless event_names
unsigned_key evt =
    let seq = number_or_zero (get evt "seq") in
    let ts = number_or_zero (get evt "ts") in
    if number_lt (nat 0) seq
    then codes "seq:" ++ to_text (num seq)
    else if is_nameless evt
    then []
    else codes "evt:" ++ colon (event_names evt) (to_text (num ts))

unfoldable pub event_dedup_key : Value → Text
unfolding unsigned_key event_names colon
event_dedup_key evt =
    if not (is_reference evt)
    then []
    else if is_empty (envelope_sig evt)
    then unsigned_key evt
    else codes "sig:" ++ colon (event_names evt) (colon (envelope_signer evt) (envelope_sig evt))

-- The time of an event, by default that of the call.
unfoldable pub event_ts : ℕ → Value → ℕ
event_ts now evt = positive_or now (number_or_zero (get evt "ts"))
  where
    positive_or : ℕ → Number → ℕ
    positive_or d (nat (suc n)) = suc n
    positive_or d _ = d

-- `Date.now() - ts > maxAgeMs`
unfoldable pub is_event_stale : ℕ → ℕ → Value → Bool
is_event_stale now max_age_ms evt = ltb (event_ts now evt + max_age_ms) now

unfoldable pub is_local_event : Value → Bool
is_local_event evt =
    truthy (get evt "local")
    || text_eq (normalize_hex (get evt "dir")) (codes "out")
    || text_eq (normalize_hex (get evt "origin")) (codes "local")

-- A time in seconds or milliseconds, in milliseconds; 0 where it is no positive number.
milliseconds : Number → ℕ
milliseconds (nat n) = if ltb 1000000000000 n then n else n * 1000
milliseconds _ = 0

unfoldable pub epoch_to_ms : Value → ℕ
unfolding milliseconds
epoch_to_ms v = if is_present v then milliseconds (to_number v) else 0

-- The end of validity of the message of an event, where it is a positive number.
unfoldable pub envelope_valid_until_unix : Value → Option ℕ
unfolding message
envelope_valid_until_unix evt = positive (to_int_or_null (get body "valid_until_unix"))
  where
    body : Value
    body = if is_object (get (message evt) "body") then get (message evt) "body" else obj end

    positive : Number → Option ℕ
    positive (nat (suc n)) = some (suc n)
    positive _ = none

unfoldable pub is_envelope_expired : ℕ → Value → Bool
is_envelope_expired now_sec evt = past (envelope_valid_until_unix evt)
  where
    past : Option ℕ → Bool
    past none = false
    past (some t) = leb t now_sec
