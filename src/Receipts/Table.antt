-- ===== src/Receipts/Table.antt =====
-- src/receipts/store.js: a table of SQLite as its rows, with the statements that the store
-- prepares on them.
use swapfloor.Common.{
  ℕ, String, Bool, Option, none, some, List, [], ◌∷◌, take, drop, map, if◌then◌else◌,
}
use swapfloor.Js.Text.{Text, text_eq}
use swapfloor.Js.Value.{
  Value, null, num, str, obj, Number, Fields, field, lookup, number_lt, strict_eq,
}
use swapfloor.Swap.Envelope.{put}

-- The primary key, and the other columns.
pub record Row : Type 0 where
  pub key : Text
  pub columns : Fields

abbrev pub Table : Type 0
Table = List Row

-- `SELECT * … WHERE <primary key> = ?`
unfoldable pub find : Text → Table → Option Row
find k [] = none
find k (r ∷ rows) = let later = find k rows in if text_eq r.key k then some r else later

-- `DO UPDATE SET` of every column but `created_at`, which stays.
unfoldable pub updated : Row → Row → Row
updated old new = record {
  key = old.key;
  columns = put "created_at" (lookup "created_at" old.columns) new.columns;
}

-- `INSERT … ON CONFLICT(<primary key>) DO UPDATE`
unfoldable pub upsert : Row → Table → Table
unfolding updated
upsert new [] = new ∷ []
upsert new (r ∷ rows) =
    let later = upsert new rows in if text_eq r.key new.key then updated r new ∷ rows else r ∷ later

-- `DELETE … WHERE <primary key> = ?`
unfoldable pub delete : Text → Table → Table
delete k [] = []
delete k (r ∷ rows) = let rest = delete k rows in if text_eq r.key k then rest else r ∷ rest

-- `WHERE <column> = ?`; `NULL` equals nothing.
abbrev pub holds : String → Text → Row → Bool
holds name v r = strict_eq (lookup name r.columns) (str v)

-- `DELETE … WHERE <column> = ?`
unfoldable pub delete_where : String → Text → Table → Table
delete_where name v [] = []
delete_where name v (r ∷ rows) =
    let rest = delete_where name v rows in if holds name v r then rest else r ∷ rest

-- `SELECT * … WHERE`
unfoldable pub select : (Row → Bool) → Table → Table
select p [] = []
select p (r ∷ rows) = let rest = select p rows in if p r then r ∷ rest else rest

number_of : Value → Number
number_of (num n) = n
number_of _ = Number.nan

-- `ORDER BY updated_at DESC`; rows of one time are in the order of the table.
abbrev pub newer : Row → Row → Bool
unfolding number_of
newer a b =
    number_lt (number_of (lookup "updated_at" b.columns))
      (number_of (lookup "updated_at" a.columns))

unfoldable pub insert_newest : Row → Table → Table
insert_newest r [] = r ∷ []
insert_newest r (x ∷ rows) =
    let later = insert_newest r rows in if newer x r then x ∷ later else r ∷ x ∷ rows

unfoldable pub newest_first : Table → Table
newest_first [] = []
newest_first (r ∷ rows) = insert_newest r (newest_first rows)

-- `LIMIT ? OFFSET ?`
abbrev pub page : ℕ → ℕ → Table → Table
page limit offset rows = take limit (drop offset rows)

-- `mapRow` and `mapListingLockRow`
abbrev pub map_row : String → Row → Value
map_row key_name r = obj (field key_name (str r.key) r.columns)

abbrev pub map_found : String → Option Row → Value
map_found key_name none = null
map_found key_name (some r) = map_row key_name r

abbrev pub map_rows : String → Table → List Value
map_rows key_name = map (map_row key_name)
