-- ===== src/Js/Value.antt =====
-- JavaScript values as the program meets them in envelopes and trades, with property reads, `===`,
-- `String(v)`, `Number(v)` and `BigInt(v)`.
use text.Mathlib.Text.{◌==◌ as str_eq}
use swapfloor.Common.{
  ℕ, ◌+◌, String, Bool, true, false, not, ◌||◌, [], ◌∷◌, ◌++◌, ltb, ◌==◌, if◌then◌else◌,
}
use swapfloor.Js.Text.{Text, codes, text_eq, is_empty, decimal}

-- `negsuc n` is -(n + 1); `nan` stands for every number that is no integer.
pub data Number : Type 0 where
  nat negsuc : ℕ → Number
  nan : Number

-- An object is its fields in insertion order, each key once.
mutual
  pub data Value : Type 0 where
    undefined null : Value
    bool : Bool → Value
    num : Number → Value
    str : Text → Value
    arr : Items → Value
    obj : Fields → Value

  pub data Fields : Type 0 where
    end : Fields
    field : String → Value → Fields → Fields

  pub data Items : Type 0 where
    nil : Items
    cons : Value → Items → Items

unfoldable pub lookup : String → Fields → Value
lookup k end = undefined
lookup k (field j v fs) = if str_eq j k then v else lookup k fs

-- `v.k`, `undefined` where `v` has no such property.
unfoldable pub get : Value → String → Value
unfolding lookup
get (obj fs) k = lookup k fs
get _ k = undefined

-- `k in v`
unfoldable pub has_key : String → Fields → Bool
has_key k end = false
has_key k (field j v fs) = str_eq j k || has_key k fs

abbrev pub truthy : Value → Bool
truthy undefined = false
truthy null = false
truthy (bool b) = b
truthy (num (nat n)) = not (n == 0)
truthy (num (negsuc _)) = true
truthy (num nan) = false
truthy (str s) = not (is_empty s)
truthy (arr _) = true
truthy (obj _) = true

abbrev pub is_object : Value → Bool
is_object (obj _) = true
is_object _ = false

-- `v && typeof v === 'object'`
abbrev pub is_reference : Value → Bool
is_reference (obj _) = true
is_reference (arr _) = true
is_reference _ = false

abbrev pub is_string : Value → Bool
is_string (str _) = true
is_string _ = false

-- `v !== undefined`
abbrev pub is_defined : Value → Bool
is_defined undefined = false
is_defined _ = true

-- `v !== undefined && v !== null`
abbrev pub is_present : Value → Bool
is_present undefined = false
is_present null = false
is_present _ = true

abbrev pub number_eq : Number → Number → Bool
number_eq (nat a) (nat b) = a == b
number_eq (negsuc a) (negsuc b) = a == b
number_eq _ _ = false

abbrev pub number_lt : Number → Number → Bool
number_lt (nat a) (nat b) = ltb a b
number_lt (negsuc a) (negsuc b) = ltb b a
number_lt (negsuc a) (nat b) = true
number_lt _ _ = false

abbrev pub number_is_finite : Number → Bool
number_is_finite nan = false
number_is_finite _ = true

-- `===`; the arrays and objects that the program compares are never one object.
unfoldable pub strict_eq : Value → Value → Bool
strict_eq undefined undefined = true
strict_eq null null = true
strict_eq (bool true) (bool b) = b
strict_eq (bool false) (bool b) = not b
strict_eq (num a) (num b) = number_eq a b
strict_eq (str a) (str b) = text_eq a b
strict_eq _ _ = false

number_text : Number → Text
number_text (nat n) = decimal n
number_text (negsuc n) = b'-' ∷ decimal (n + 1)
number_text nan = codes "NaN"

-- `String(v)`; an array joins its items by commas, where `undefined` and `null` are empty.
unfoldable mutual
  unfolding number_text decimal

  pub to_text : Value → Text
  to_text undefined = codes "undefined"
  to_text null = codes "null"
  to_text (bool true) = codes "true"
  to_text (bool false) = codes "false"
  to_text (num n) = number_text n
  to_text (str s) = s
  to_text (arr xs) = join_items xs
  to_text (obj fs) = codes "[object Object]"

  pub join_items : Items → Text
  join_items nil = []
  join_items (cons x nil) = item_text x
  join_items (cons x xs) = item_text x ++ b',' ∷ join_items xs

  pub item_text : Value → Text
  item_text undefined = []
  item_text null = []
  item_text (bool true) = codes "true"
  item_text (bool false) = codes "false"
  item_text (num n) = number_text n
  item_text (str s) = s
  item_text (arr xs) = join_items xs
  item_text (obj fs) = codes "[object Object]"
