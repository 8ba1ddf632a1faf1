-- ===== src/Js/Stringify.antt =====
-- src/util/stableStringify.js, with the quoting of `JSON.stringify`.
use swapfloor.Common.{
  ℕ, ◌+◌, ◌-◌, ◌/◌, ◌%◌, Bool, true, false, not, ◌&&◌, ◌||◌, List, [], ◌∷◌, ◌++◌, ltb, leb, ◌==◌,
  if◌then◌else◌,
}
use swapfloor.Js.Text.{Text, codes}
use swapfloor.Js.Value.{
  nan, Value, undefined, null, bool, num, str, arr, obj, Items, nil, cons, Fields, end, field,
  to_text,
}

hex_unit : ℕ → ℕ
hex_unit n = if ltb n 10 then b'0' + n else b'a' + (n - 10)

unicode_escape : ℕ → Text
unfolding hex_unit
unicode_escape c =
    b'\\'
    ∷ b'u'
    ∷ hex_unit (c / 4096 % 16)
    ∷ hex_unit (c / 256 % 16)
    ∷ hex_unit (c / 16 % 16)
    ∷ hex_unit (c % 16)
    ∷ []

-- A code unit between quotes; `pair` says that it is the first half of a surrogate pair.
quote_unit : Bool → ℕ → Text
unfolding unicode_escape
quote_unit pair c =
    if c == b'"'
    then b'\\' ∷ b'"' ∷ []
    else if c == b'\\'
    then b'\\' ∷ b'\\' ∷ []
    else if c == 8
    then b'\\' ∷ b'b' ∷ []
    else if c == 12
    then b'\\' ∷ b'f' ∷ []
    else if c == 10
    then b'\\' ∷ b'n' ∷ []
    else if c == 13
    then b'\\' ∷ b'r' ∷ []
    else if c == 9
    then b'\\' ∷ b't' ∷ []
    else if ltb c 32 || (not pair && leb 0xd800 c && leb c 0xdfff)
    then unicode_escape c
    else c ∷ []

starts_low : Text → Bool
starts_low [] = false
starts_low (c ∷ s) = leb 0xdc00 c && leb c 0xdfff

-- `second` says that the unit at the head ends a surrogate pair.
quote_units : Bool → Text → Text
quote_units second [] = []
quote_units second (c ∷ s) =
    let pair = not second && leb 0xd800 c && leb c 0xdbff && starts_low s in
    quote_unit (pair || second) c ++ quote_units pair s

unfoldable pub json_quote : Text → Text
unfolding quote_units quote_unit starts_low
json_quote s = b'"' ∷ quote_units false s ++ b'"' ∷ []

-- The order of `Array.prototype.sort` on keys.
unfoldable pub text_lt : Text → Text → Bool
text_lt [] [] = false
text_lt [] (_ ∷ _) = true
text_lt (_ ∷ _) [] = false
text_lt (a ∷ s) (b ∷ t) = ltb a b || (a == b && text_lt s t)

unfoldable pub insert_key : Text × Text → List (Text × Text) → List (Text × Text)
insert_key (k, v) [] = (k, v) ∷ []
insert_key (k, v) ((j, w) ∷ m) =
    let later = insert_key (k, v) m in if text_lt k j then (k, v) ∷ (j, w) ∷ m else (j, w) ∷ later

unfoldable pub sort_keys : List (Text × Text) → List (Text × Text)
sort_keys [] = []
sort_keys (p ∷ m) = insert_key p (sort_keys m)

member : Text × Text → Text
member (k, v) = json_quote k ++ b':' ∷ v

join_members : List (Text × Text) → Text
join_members [] = []
join_members (p ∷ []) = member p
join_members (p ∷ m) = member p ++ b',' ∷ join_members m

unfoldable pub braced : List (Text × Text) → Text
unfolding join_members member json_quote
braced m = b'{' ∷ join_members (sort_keys m) ++ b'}' ∷ []

-- The fields are turned to text before they are sorted, which the order does not notice.
unfoldable mutual
  unfolding json_quote to_text

  pub stable_stringify : Value → Text
  stable_stringify undefined = codes "null"
  stable_stringify null = codes "null"
  stable_stringify (bool true) = codes "true"
  stable_stringify (bool false) = codes "false"
  stable_stringify (num nan) = codes "null"
  stable_stringify (num n) = to_text (num n)
  stable_stringify (str s) = json_quote s
  stable_stringify (arr xs) = b'[' ∷ stringify_items xs ++ b']' ∷ []
  stable_stringify (obj fs) = braced (stringify_fields fs)

  pub stringify_items : Items → Text
  stringify_items nil = []
  stringify_items (cons x nil) = stable_stringify x
  stringify_items (cons x xs) = stable_stringify x ++ b',' ∷ stringify_items xs

  pub stringify_fields : Fields → List (Text × Text)
  stringify_fields end = []
  stringify_fields (field k v fs) = (codes k, stable_stringify v) ∷ stringify_fields fs
