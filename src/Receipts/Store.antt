-- ===== src/Receipts/Store.antt =====
-- src/receipts/store.js: `TradeReceiptsStore`. An operation is a function of the store; `now` is
-- the time of the call, `created` that of its first look at the clock.
use swapfloor.Common.{
  ℕ, String, Bool, false, not, ◌&&◌, List, [], ◌∷◌, ◌++◌, ltb, if◌then◌else◌, Result, ok, err,
  thrown, ◌>>=◌,
}
use swapfloor.Js.Text.{Text, codes, is_empty, trim}
use swapfloor.Js.Value.{
  nat, negsuc, Value, undefined, null, num, str, obj, Fields, end, field, lookup, is_present,
  number_lt,
}
use swapfloor.Swap.Envelope.{put}
use swapfloor.Swap.Listings.{trimmed}
use swapfloor.Receipts.Columns.{
  coerce_int, coerce_hex32, coerce_json, lock_state, trade_columns, lock_columns, coerce_columns,
  entries, apply_patch,
}
use swapfloor.Receipts.Table.{
  Row, Table, find, upsert, delete, delete_where, holds, select, newest_first, page, map_row,
  map_found, map_rows,
}

-- A row of `events`; its `id` is its place.
pub record Event : Type 0 where
  pub trade_id : Text
  pub ts : Value
  pub kind : Text
  pub payload_json : Value

pub record Store : Type 0 where
  pub trades : Table
  pub events : List Event
  pub listing_locks : Table

-- `String(v || '').trim()`, refused where it is empty.
unfoldable pub required : String → Value → Result Text
required message v = if is_empty (trimmed v) then err (thrown message) else ok (trimmed v)

unfoldable pub get_trade : Store → Value → Result Value
get_trade store trade_id = do
  id ← required "tradeId is required" trade_id
  ok (map_found "trade_id" (find id store.trades))

first_row : Table → Value
first_row [] = null
first_row (r ∷ _) = map_row "trade_id" r

-- `NULL` is the hash of no row.
trade_of_hash : Store → Value → Result Value
unfolding first_row
trade_of_hash store (str hex) =
    ok (first_row (select (holds "ln_payment_hash_hex" hex) store.trades))
trade_of_hash store null = ok null
trade_of_hash store _ = err (thrown "ERR_INVALID_ARG_TYPE")

unfoldable pub get_trade_by_payment_hash : Store → Value → Result Value
unfolding trade_of_hash
get_trade_by_payment_hash store payment_hash_hex = do
  hex ← coerce_hex32 payment_hash_hex
  trade_of_hash store hex

-- `Math.max(low, Math.min(high, n))`
abbrev pub between : ℕ → ℕ → ℕ → ℕ
between low high n = if ltb n low then low else if ltb high n then high else n

-- The limit of a list: the default where it is left out or no number.
unfoldable pub limit_of : ℕ → ℕ → Value → ℕ
limit_of high default (num (nat n)) = between 1 high n
limit_of high default (num (negsuc _)) = 1
limit_of high default _ = default

unfoldable pub offset_of : Value → ℕ
offset_of (num (nat n)) = n
offset_of _ = 0

unfoldable pub list_trades : Store → Value → List Value
list_trades store limit =
    map_rows "trade_id" (page (limit_of 1000 50 limit) 0 (newest_first store.trades))

unfoldable pub list_trades_paged : Store → Value → Value → List Value
list_trades_paged store limit offset =
    map_rows "trade_id"
      (page (limit_of 1000 50 limit) (offset_of offset) (newest_first store.trades))

-- `String(state || '').trim() || default`, where an argument that is left out is the default.
state_or : Text → Value → Text
state_or default undefined = default
state_or default v = if is_empty (trimmed v) then default else trimmed v

is_claim : Text → Row → Bool
is_claim st r = holds "state" st r && is_present (lookup "ln_preimage_hex" r.columns)

unfoldable pub list_open_claims : Store → Value → Value → Value → List Value
unfolding is_claim state_or
list_open_claims store limit offset state = map_rows "trade_id" (
    page (limit_of 1000 50 limit) (offset_of offset)
      (newest_first (select (is_claim (state_or (codes "ln_paid") state)) store.trades)))

-- `sol_refund_after_unix <= ?`; `NULL` compares to nothing.
due : Value → Value → Bool
due (num now) (num after) = not (number_lt now after)
due _ _ = false

is_refund : Text → Value → Row → Bool
unfolding due
is_refund st now r = holds "state" st r && due now (lookup "sol_refund_after_unix" r.columns)

-- `Math.floor(Date.now() / 1000)` where no time is given.
time_or : ℕ → Value → Result Value
time_or now_sec v = if is_present v then coerce_int v else ok (num (nat now_sec))

unfoldable pub list_open_refunds : ℕ → Store → Value → Value → Value → Value → Result (List Value)
unfolding is_refund state_or time_or
list_open_refunds now_sec store now_unix limit offset state = do
  now ← time_or now_sec now_unix
  ok (
      map_rows "trade_id" (
        page (limit_of 1000 50 limit) (offset_of offset)
          (newest_first (select (is_refund (state_or (codes "escrow") state) now) store.trades))))

-- `existing || { <key>: id, created_at: nowMs(), updated_at: nowMs() }`
unfoldable pub base_of : String → ℕ → Text → Value → Fields
base_of key_name created id (obj fs) = fs
base_of key_name created id _ =
    field key_name (str id)
      (field "created_at" (num (nat created)) (field "updated_at" (num (nat created)) end))

-- The patched object.
unfoldable pub next_of : String → ℕ → ℕ → Text → Value → Value → Fields
next_of key_name created now id existing patch =
    apply_patch (entries patch)
      (put "updated_at" (num (nat now)) (base_of key_name created id existing))

-- The constraints `created_at … NOT NULL` and `updated_at … NOT NULL`.
unfoldable pub not_null : Fields → Result Fields
not_null columns =
    if is_present (lookup "created_at" columns) && is_present (lookup "updated_at" columns)
    then ok columns
    else err (thrown "NOT NULL constraint failed")

abbrev pub with_trade : Store → Text → Fields → Store
with_trade store id columns = record store {
  trades = upsert (record { key = id; columns = columns }) store.trades;
}

-- The store after the call, and the row that the call returns.
unfoldable pub upsert_trade : ℕ → ℕ → Store → Value → Value → Result (Store × Value)
upsert_trade created now store trade_id patch = do
  id ← required "tradeId is required" trade_id
  existing ← get_trade store (str id)
  row ← coerce_columns trade_columns (next_of "trade_id" created now id existing patch)
  columns ← not_null row
  returned ← get_trade (with_trade store id columns) (str id)
  ok (with_trade store id columns, returned)

unfoldable pub append_event : ℕ → Store → Value → Value → Value → Value → Result Store
append_event now store trade_id kind payload ts = do
  id ← required "tradeId is required" trade_id
  k ← required "event kind is required" kind
  t ← if is_present ts then coerce_int ts else ok (num (nat now))
  payload_json ← if is_present payload then coerce_json payload else ok null
  ok (record store {
    events =
        store.events
        ++ record { trade_id = id; ts = t; kind = k; payload_json = payload_json } ∷ [];
  })

unfoldable pub get_listing_lock : Store → Value → Result Value
get_listing_lock store listing_key = do
  key ← required "listingKey is required" listing_key
  ok (map_found "listing_key" (find key store.listing_locks))

unfoldable pub list_listing_locks_by_trade : Store → Value → Value → Result (List Value)
list_listing_locks_by_trade store trade_id limit = do
  id ← required "tradeId is required" trade_id
  ok (
      map_rows "listing_key" (
        page (limit_of 2000 500 limit) 0
          (newest_first (select (holds "trade_id" id) store.listing_locks))))

-- `isNonEmptyString`
abbrev pub is_filled_text : Value → Bool
is_filled_text (str s) = not (is_empty (trim s))
is_filled_text _ = false

unfoldable pub named : Fields → Result Fields
named columns =
    if not (is_filled_text (lookup "listing_type" columns))
    then err (thrown "listing_type is required")
    else if not (is_filled_text (lookup "listing_id" columns))
    then err (thrown "listing_id is required")
    else ok columns

abbrev pub with_lock : Store → Text → Fields → Store
with_lock store key columns = record store {
  listing_locks = upsert (record { key = key; columns = columns }) store.listing_locks;
}

-- The row of a lock: the state is checked before the columns are coerced.
unfoldable pub lock_row : Fields → Result Fields
lock_row next = do
  _ ← lock_state (lookup "state" next)
  row ← coerce_columns lock_columns next
  named row

unfoldable pub upsert_listing_lock : ℕ → ℕ → Store → Value → Value → Result (Store × Value)
upsert_listing_lock created now store listing_key patch = do
  key ← required "listingKey is required" listing_key
  existing ← get_listing_lock store (str key)
  row ← lock_row (next_of "listing_key" created now key existing patch)
  columns ← not_null row
  returned ← get_listing_lock (with_lock store key columns) (str key)
  ok (with_lock store key columns, returned)

unfoldable pub delete_listing_lock : Store → Value → Result Store
delete_listing_lock store listing_key = do
  key ← required "listingKey is required" listing_key
  ok (record store { listing_locks = delete key store.listing_locks })

unfoldable pub delete_listing_locks_by_trade : Store → Value → Result Store
delete_listing_locks_by_trade store trade_id = do
  id ← required "tradeId is required" trade_id
  ok (record store { listing_locks = delete_where "trade_id" id store.listing_locks })
