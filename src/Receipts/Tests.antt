-- ===== src/Receipts/Tests.antt =====
-- A store at work, and the theorems at concrete data.
use swapfloor.Common.{true, false, ◌≡◌, refl, some, List, map, [], ◌∷◌, ok, err, thrown}
use swapfloor.Js.Text.{is_digit, digits_value, codes, text_eq, trim, to_lower_case}
use swapfloor.Js.Value.{
  Value, Fields, end, field, str, num, nat, obj, null, undefined, lookup, has_key, to_text,
}
use swapfloor.Js.Convert.{to_number, normalize_hex}
use swapfloor.Swap.Envelope.{put}
use swapfloor.Swap.Listings.{trimmed}
use swapfloor.Receipts.Columns.{
  coerce_text, coerce_int, coerce_hex32, coerce_json, lock_state, trade_columns, lock_columns,
  coerce_columns, apply_patch, as_int, entries,
}
use swapfloor.Receipts.Table.{Row, find, upsert, updated}
use swapfloor.Receipts.Store.{
  Store, required, get_trade, not_null, named, base_of, next_of, upsert_trade, upsert_listing_lock,
  get_listing_lock, lock_row,
}
use swapfloor.Receipts.Writing.{Write, to_trade, to_lock, run, run_all, empty_store}
use swapfloor.Receipts.Invariant.{
  IsConsistent, run-IsConsistent, run_all-IsConsistent, empty-IsConsistent,
}
use swapfloor.Receipts.Refines.{Does, book, run-Does}
use swapfloor.Receipts.Migration.{
  Schema, open_schema, migrate_schema, created_columns, rename_channel, read_schema_version,
  IsCurrent, open_schema-IsCurrent,
}
use swapfloor.Receipts.Patched.{IsPatched, upsert_trade-IsPatched}

abbrev trade : Value
trade = str (codes " t1 ")

abbrev opened : Value
opened = obj (field "role" (str (codes "maker")) (field "btc_sats" (num (nat 1000)) end))

abbrev funded : Value
funded = obj (field "state" (str (codes "escrow")) (field "role" undefined end))

abbrev locking : Value
locking = obj (
    field "state" (str (codes " FILLED "))
      (field "listing_type" (str (codes "rfq")) (field "listing_id" (str (codes "r1")) end)))

abbrev calls : List Write
calls =
    to_trade 5 6 trade opened
    ∷ to_lock 7 7 (str (codes "k")) locking
    ∷ to_trade 8 9 trade funded
    ∷ to_lock 9 9 (str (codes "k")) (obj (field "state" (str (codes "free")) end))
    ∷ []

-- The receipt after the first call.
abbrev maker : Fields
maker = field "role" (str (codes "maker")) (
    field "rfq_channel" null (
      field "swap_channel" null (
        field "maker_peer" null (
          field "taker_peer" null (
            field "btc_sats" (num (nat 1000)) (
              field "usdt_amount" null (
                field "sol_mint" null (
                  field "sol_program_id" null (
                    field "sol_recipient" null (
                      field "sol_refund" null (
                        field "sol_escrow_pda" null (
                          field "sol_vault_ata" null (
                            field "sol_refund_after_unix" null (
                              field "ln_invoice_bolt11" null (
                                field "ln_payment_hash_hex" null (
                                  field "ln_preimage_hex" null (
                                    field "state" null (
                                      field "created_at" (num (nat 5)) (
                                        field "updated_at" (num (nat 6))
                                          (field "last_error" null end))))))))))))))))))))

abbrev row : Row
row = record { key = codes "t1"; columns = maker }

abbrev one_trade : Store
one_trade = record { trades = row ∷ []; events = []; listing_locks = [] }

abbrev escrow_row : Fields
escrow_row = put "updated_at" (num (nat 9)) (put "state" (str (codes "escrow")) maker)

abbrev two_calls : Store
two_calls = record {
  trades = record { key = codes "t1"; columns = escrow_row } ∷ [];
  events = [];
  listing_locks = [];
}

abbrev with_one_lock : Store
with_one_lock = record one_trade {
  listing_locks =
      record {
        key = codes "k";
        columns = field "listing_type" (str (codes "rfq")) (
            field "listing_id" (str (codes "r1")) (
              field "trade_id" null (
                field "state" (str (codes "filled")) (
                  field "note" null (
                    field "meta_json" null (
                      field "created_at" (num (nat 7)) (field "updated_at" (num (nat 7)) end)))))));
      }
      ∷ [];
}

-- Opens the store in the declarations that name it.
unfoldable store_open : Unit {0}
unfolding run run_all empty_store upsert_trade upsert_listing_lock required trimmed to_text trim
    to_lower_case normalize_hex get_trade get_listing_lock find coerce_columns trade_columns
    lock_columns lock_row lock_state next_of base_of apply_patch put lookup has_key not_null named
    upsert updated coerce_text coerce_int coerce_hex32 coerce_json to_number text_eq
store_open = tt

opens : run (to_trade 5 6 trade opened) empty_store ≡ ok one_trade
unfolding store_open
opens = refl

funds :
    upsert_trade 8 9 one_trade trade funded
    ≡ ok (two_calls, obj (field "trade_id" (str (codes "t1")) escrow_row))
unfolding store_open
funds = refl

locks : run (to_lock 7 7 (str (codes "k")) locking) one_trade ≡ ok with_one_lock
unfolding store_open
locks = refl

-- A state that a lock cannot have.
free_lock :
    run (to_lock 9 9 (str (codes "k")) (obj (field "state" (str (codes "free")) end))) one_trade
    ≡ err (thrown "listing lock state must be in_flight or filled")
unfolding store_open
free_lock = refl

-- `created_at` of a new receipt cannot be `null`.
no_time :
    run (to_trade 5 6 (str (codes "t2")) (obj (field "created_at" null end))) one_trade
    ≡ err (thrown "NOT NULL constraint failed")
unfolding store_open
no_time = refl

locked : map (λ r. r.key) (run_all calls empty_store).listing_locks ≡ codes "k" ∷ []
unfolding store_open
locked = refl

run_all-IsConsistent_example : IsConsistent (run_all calls empty_store)
run_all-IsConsistent_example = run_all-IsConsistent calls empty_store empty-IsConsistent

one_trade-IsConsistent : IsConsistent one_trade
one_trade-IsConsistent =
    run-IsConsistent (to_trade 5 6 trade opened) empty_store one_trade empty-IsConsistent opens

run-Does_example :
    Does (to_lock 7 7 (str (codes "k")) locking) (book one_trade) (book with_one_lock)
run-Does_example =
    run-Does (to_lock 7 7 (str (codes "k")) locking) one_trade with_one_lock one_trade-IsConsistent
      locks

upsert_trade-IsPatched_example :
    (new : Fields) × (find (codes "t1") two_calls.trades
      ≡ some (record { key = codes "t1"; columns = new }))
    × (obj (field "trade_id" (str (codes "t1")) escrow_row)
        ≡ obj (field "trade_id" (str (codes "t1")) new))
    × IsPatched 9 (entries funded) maker (record { name = "btc_sats"; kind = as_int }) new
unfolding store_open
upsert_trade-IsPatched_example =
    upsert_trade-IsPatched 8 9 one_trade two_calls trade funded
      (obj (field "trade_id" (str (codes "t1")) escrow_row)) (codes "t1") row 5
      (record { name = "btc_sats"; kind = as_int }) one_trade-IsConsistent refl refl
      (refl, (refl, tt)) refl funds

-- A file of the first version.
abbrev legacy : Schema
legacy = record {
  version = some (codes "1");
  trades = "trade_id" ∷ "otc_channel" ∷ [];
  has_locks = false;
}

abbrev migrated : Schema
migrated = record {
  version = some (codes "3");
  trades = "trade_id" ∷ "rfq_channel" ∷ [];
  has_locks = true;
}

migrates : open_schema legacy ≡ ok migrated
unfolding store_open open_schema migrate_schema created_columns rename_channel read_schema_version
    is_digit digits_value
migrates = refl

open_schema-IsCurrent_example : IsCurrent migrated × (open_schema migrated ≡ ok migrated)
open_schema-IsCurrent_example = open_schema-IsCurrent legacy migrated migrates
