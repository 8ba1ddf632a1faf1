-- ===== src/Receipts/Columns.antt =====
-- src/receipts/store.js: the columns of the tables, what each column makes of a value, and the
-- patch of a row.
pub mod Settled
use swapfloor.Common.{
  String, ◌&&◌, List, [], ◌∷◌, length, all, ◌==◌, if◌then◌else◌, Result, ok, err, thrown, ◌>>=◌,
}
use swapfloor.Js.Text.{Text, codes, trim, is_hex_digit, to_lower_case, text_eq}
use swapfloor.Js.Value.{
  Number, Value, undefined, null, num, str, obj, Fields, end, field, lookup, is_defined, to_text,
  number_is_finite,
}
use swapfloor.Js.Convert.{to_number, normalize_hex}
use swapfloor.Js.Stringify.{stable_stringify}
use swapfloor.Swap.Envelope.{put}

-- `undefined` and `null` are kept as they are.
abbrev pub if_present : (Value → Result Value) → Value → Result Value
if_present f undefined = ok undefined
if_present f null = ok null
if_present f v = f v

text_column : Value → Result Value
text_column v = ok (str (to_text v))

unfoldable pub coerce_text : Value → Result Value
unfolding text_column
coerce_text v = if_present text_column v

finite_int : Number → Result Value
finite_int n = if number_is_finite n then ok (num n) else err (thrown "Invalid int")

int_column : Value → Result Value
unfolding finite_int
int_column v = finite_int (to_number v)

unfoldable pub coerce_int : Value → Result Value
unfolding int_column
coerce_int v = if_present int_column v

hex32_text : Text → Result Value
hex32_text s =
    if all is_hex_digit s && length s == 64 then ok (str s) else err (thrown "must be 32-byte hex")

hex32_column : Value → Result Value
unfolding hex32_text
hex32_column v = hex32_text (to_lower_case (trim (to_text v)))

unfoldable pub coerce_hex32 : Value → Result Value
unfolding hex32_column
coerce_hex32 v = if_present hex32_column v

json_column : Value → Result Value
json_column (str s) = ok (str s)
json_column v = ok (str (stable_stringify v))

unfoldable pub coerce_json : Value → Result Value
unfolding json_column
coerce_json v = if_present json_column v

abbrev pub in_flight : Text
in_flight = codes "in_flight"

abbrev pub filled : Text
filled = codes "filled"

known_state : Text → Result Value
known_state s =
    if text_eq s in_flight
    then ok (str s)
    else if text_eq s filled
    then ok (str s)
    else err (thrown "listing lock state must be in_flight or filled")

-- The state of a lock in a patched row.
unfoldable pub lock_state : Value → Result Value
unfolding known_state
lock_state v = known_state (normalize_hex v)

pub data ColumnKind : Type 0 where
  as_text as_int as_hex32 as_json as_state : ColumnKind

-- What a column of a kind stores for a value.
abbrev pub coerce : ColumnKind → Value → Result Value
coerce as_text = coerce_text
coerce as_int = coerce_int
coerce as_hex32 = coerce_hex32
coerce as_json = coerce_json
coerce as_state = lock_state

pub record Column : Type 0 where
  pub name : String
  pub kind : ColumnKind

abbrev col : String → ColumnKind → Column
col n k = record { name = n; kind = k }

-- The columns behind the primary key `trade_id`, in the order of `mapRow` and of the `INSERT`.
unfoldable pub trade_columns : List Column
trade_columns =
    col "role" as_text
    ∷ col "rfq_channel" as_text
    ∷ col "swap_channel" as_text
    ∷ col "maker_peer" as_text
    ∷ col "taker_peer" as_text
    ∷ col "btc_sats" as_int
    ∷ col "usdt_amount" as_text
    ∷ col "sol_mint" as_text
    ∷ col "sol_program_id" as_text
    ∷ col "sol_recipient" as_text
    ∷ col "sol_refund" as_text
    ∷ col "sol_escrow_pda" as_text
    ∷ col "sol_vault_ata" as_text
    ∷ col "sol_refund_after_unix" as_int
    ∷ col "ln_invoice_bolt11" as_text
    ∷ col "ln_payment_hash_hex" as_hex32
    ∷ col "ln_preimage_hex" as_hex32
    ∷ col "state" as_text
    ∷ col "created_at" as_int
    ∷ col "updated_at" as_int
    ∷ col "last_error" as_text
    ∷ []

-- The columns behind the primary key `listing_key`.
unfoldable pub lock_columns : List Column
lock_columns =
    col "listing_type" as_text
    ∷ col "listing_id" as_text
    ∷ col "trade_id" as_text
    ∷ col "state" as_state
    ∷ col "note" as_text
    ∷ col "meta_json" as_json
    ∷ col "created_at" as_int
    ∷ col "updated_at" as_int
    ∷ []

-- `if (row[k] === undefined) row[k] = null`
abbrev pub or_null : Value → Value
or_null undefined = null
or_null v = v

-- The row that is written: each column from the patched object, missing ones as `NULL`.
unfoldable pub coerce_columns : List Column → Fields → Result Fields
coerce_columns [] next = ok end
coerce_columns (c ∷ cs) next = do
  v ← coerce c.kind (lookup c.name next)
  rest ← coerce_columns cs next
  ok (field c.name (or_null v) rest)

-- `Object.entries(patch || {})`, without the numbered entries of lists and texts, which no column
-- is named after.
abbrev pub entries : Value → Fields
entries (obj fs) = fs
entries _ = end

-- `undefined` means no change.
abbrev pub patched : String → Value → Fields → Fields
patched k v next = if is_defined v then put k v next else next

unfoldable pub apply_patch : Fields → Fields → Fields
apply_patch end next = next
apply_patch (field k v rest) next = apply_patch rest (patched k v next)
