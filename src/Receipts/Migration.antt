-- ===== src/Receipts/Migration.antt =====
-- src/receipts/store.js: the schema of the database file, and what opening the store makes of an
-- older one.
use text.Mathlib.Text.{◌==◌ as str_eq}
use swapfloor.Common.{
  ℕ, ◌≡◌, refl, sym, ap, ◌∙◌, subst, inl, inr, Bool-cases, String, Bool, true, false, not, ◌&&◌,
  ◌||◌, Option, none, some, List, [], ◌∷◌, map, arith, if◌then◌else◌, Result, ok, err, thrown,
  eq_of_ok,
}
use swapfloor.Js.Text.{Text, codes, trim, is_digit, digits_value}
use swapfloor.Js.Value.{Number, nat, negsuc, nan, number_eq}
use swapfloor.Js.Parse.{parse_int}
use swapfloor.Receipts.Columns.{trade_columns}

-- The row of `meta` for the version, the columns of `trades`, and whether there is a table
-- `listing_locks`.
pub record Schema : Type 0 where
  pub version : Option Text
  pub trades : List String
  pub has_locks : Bool

parsed : Option Text → Option Number
unfolding parse_int
parsed none = none
parsed (some v) = parse_int v

unfoldable pub read_schema_version : Schema → Option Number
unfolding parsed
read_schema_version s = parsed s.version

abbrev legacy_channel_column : String
legacy_channel_column = "otc_channel"

has_column : String → List String → Bool
has_column n [] = false
has_column n (c ∷ cs) = str_eq c n || has_column n cs

renamed : String → String
renamed c = if str_eq c legacy_channel_column then "rfq_channel" else c

-- `ALTER TABLE trades RENAME COLUMN`, where the old name is there and the new one is not.
unfoldable pub rename_channel : List String → List String
unfolding has_column renamed
rename_channel cs =
    if has_column legacy_channel_column cs && not (has_column "rfq_channel" cs)
    then map renamed cs
    else cs

abbrev is_version : ℕ → Number → Bool
is_version n v = number_eq v (nat n)

from_version_1 : Number × Schema → Number × Schema
unfolding rename_channel
from_version_1 (v, s) =
    if is_version 1 v
    then (nat 2, record s { version = some (codes "2"); trades = rename_channel s.trades })
    else (v, s)

from_version_2 : Number × Schema → Number × Schema
from_version_2 (v, s) =
    if is_version 2 v
    then (nat 3, record s { version = some (codes "3"); has_locks = true })
    else (v, s)

current_version : Number × Schema → Result Schema
current_version (v, s) =
    if is_version 3 v
    then ok (record s { has_locks = true })
    else err (thrown "Unsupported receipts schema_version")

-- A file without a readable version is taken for one of the current version.
migrate_from : Option Number → Schema → Result Schema
unfolding from_version_1 from_version_2 current_version
migrate_from none s = ok (record s { version = some (codes "3") })
migrate_from (some v) s = current_version (from_version_2 (from_version_1 (v, s)))

unfoldable pub migrate_schema : Schema → Result Schema
unfolding migrate_from read_schema_version
migrate_schema s = migrate_from (read_schema_version s) s

unfoldable pub created_columns : List String → List String
created_columns [] = "trade_id" ∷ map (λ c. c.name) trade_columns
created_columns (c ∷ cs) = c ∷ cs

-- `CREATE TABLE IF NOT EXISTS` for the tables.
create_tables : Schema → Schema
unfolding created_columns
create_tables s = record s { trades = created_columns s.trades; has_locks = true }

-- `TradeReceiptsStore.open`
unfoldable pub open_schema : Schema → Result Schema
unfolding create_tables
open_schema s = migrate_schema (create_tables s)

-- Of the current version, with both tables.
unfoldable pub IsCurrent : Schema → Type 0
IsCurrent s =
    (created_columns s.trades ≡ s.trades)
    × (s.has_locks ≡ true)
    × (read_schema_version s ≡ some (nat 3))

open_current : (s : Schema) → IsCurrent s → open_schema s ≡ ok s
unfolding IsCurrent open_schema create_tables migrate_schema migrate_from from_version_1
    from_version_2 current_version
open_current s (full, locks, v) =
    ap migrate_schema (λ i. record s { trades = full i; has_locks = sym locks i })
    ∙ ap (λ o. migrate_from o s) v
    ∙ ap ok (λ i. record s { has_locks = sym locks i })

created_columns-rename_channel :
    (cs : List String)
    → created_columns (rename_channel (created_columns cs)) ≡ rename_channel (created_columns cs)
unfolding created_columns rename_channel trade_columns
created_columns-rename_channel [] = refl
created_columns-rename_channel (c ∷ cs) = ground arith

created_columns-created_columns :
    (cs : List String) → created_columns (created_columns cs) ≡ created_columns cs
unfolding created_columns
created_columns-created_columns [] = refl
created_columns-created_columns (c ∷ cs) = refl

version_of : (n : ℕ) (v : Number) → is_version n v ≡ true → v ≡ nat n
version_of n (nat m) h = ground arith
version_of n (negsuc m) h = cc
version_of n nan h = cc

unsupported :
    (v : Number) (s : Schema)
    → is_version 1 v ≡ false
    → is_version 2 v ≡ false
    → is_version 3 v ≡ false
    → migrate_from (some v) s ≡ err (thrown "Unsupported receipts schema_version")
unfolding migrate_from from_version_1 from_version_2 current_version
unsupported v s a b d =
    let one : from_version_1 (v, s) ≡ (v, s) = ground (arith, a) in
    let two : from_version_2 (v, s) ≡ (v, s) = ground (arith, b) in
    let last : current_version (v, s) ≡ err (thrown "Unsupported receipts schema_version") =
      ground (arith, d) in
    ap (λ p. current_version (from_version_2 p)) one ∙ ap current_version two ∙ last

migrate_from-IsCurrent :
    (o : Option Number) (s t : Schema)
    → read_schema_version s ≡ o
    → created_columns s.trades ≡ s.trades
    → created_columns (rename_channel s.trades) ≡ rename_channel s.trades
    → s.has_locks ≡ true
    → migrate_from o s ≡ ok t
    → IsCurrent t
unfolding IsCurrent migrate_from from_version_1 from_version_2 current_version read_schema_version
    parsed parse_int trim is_digit digits_value
migrate_from-IsCurrent none s t v c r l h = subst IsCurrent (eq_of_ok h) (c, l, refl)
migrate_from-IsCurrent (some v) s t read c r l h =
    let taken : (n : ℕ) → is_version n v ≡ true → migrate_from (some (nat n)) s ≡ ok t =
      λ n e. subst (λ x. migrate_from (some x) s ≡ ok t) (version_of n v e) h in
    elim (Bool-cases (is_version 1 v)) [
      | inl a ↦ subst IsCurrent (eq_of_ok (taken 1 a)) (r, refl, refl)
      | inr a ↦ elim (Bool-cases (is_version 2 v)) [
        | inl b ↦ subst IsCurrent (eq_of_ok (taken 2 b)) (c, refl, refl)
        | inr b ↦ elim (Bool-cases (is_version 3 v)) [
          | inl d ↦
              subst IsCurrent (eq_of_ok (taken 3 d)) (c, refl, read ∙ ap some (version_of 3 v d))
          | inr d ↦
              let fails : err (thrown "Unsupported receipts schema_version") ≡ ok t =
                sym (unsupported v s a b d) ∙ h in
              cc
        ]
      ]
    ]

-- Opening a database file ends with the current version and both tables, or fails; and opening it
-- again changes nothing.
pub open_schema-IsCurrent :
    (s t : Schema) → open_schema s ≡ ok t → IsCurrent t × (open_schema t ≡ ok t)
unfolding open_schema create_tables migrate_schema
open_schema-IsCurrent s t h =
    let current =
      migrate_from-IsCurrent (read_schema_version (create_tables s)) (create_tables s) t refl
        (created_columns-created_columns s.trades) (created_columns-rename_channel s.trades) refl
        h in
    (current, open_current t current)
