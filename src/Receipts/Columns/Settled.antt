-- ===== src/Receipts/Columns/Settled.antt =====
-- A stored value is one that its column keeps.
use swapfloor.Js.Stringify.{stable_stringify}
use swapfloor.Common.{
  ℕ, Bool, false, subst, sym, true, ◌||◌, ◌≡◌, refl, ap, ◌∙◌, ◌&&◌, arith, length, all, ◌==◌,
  if◌then◌else◌, Bool-cases, Result, ok, err, thrown, inl, inr, and-left,
}
use swapfloor.Js.Text.{Text, trim, is_hex_digit, to_lower_case, text_eq, eq_of_text_eq}
use swapfloor.Js.Text.Trim.{trim_hex, to_lower_case_hex}
use swapfloor.Js.Value.{
  Number, nat, negsuc, nan, Value, undefined, null, bool, num, str, arr, obj, to_text,
}
use swapfloor.Js.Convert.{to_number, normalize_hex}
use swapfloor.Receipts.Columns.{
  coerce_text, text_column, int_column, hex32_column, json_column, if_present, finite_int,
  coerce_int, hex32_text, coerce_hex32, coerce_json, known_state, lock_state, ColumnKind, as_text,
  as_int, as_hex32, as_json, as_state, coerce, or_null, in_flight, filled,
}

abbrev pub Settled : ColumnKind → Value → Type 0
Settled k v = coerce k v ≡ ok v

settle :
    (k : ColumnKind) (v w : Value) → ok v ≡ ok w → Settled k (or_null v) → Settled k (or_null w)
settle k v w h s = let e : v ≡ w = cc in subst (λ u. Settled k (or_null u)) e s

finite_int-Settled : (n : Number) (w : Value) → finite_int n ≡ ok w → Settled as_int (or_null w)
unfolding finite_int coerce_int to_number
finite_int-Settled (nat n) w h = settle as_int (num (nat n)) w h refl
finite_int-Settled (negsuc n) w h = settle as_int (num (negsuc n)) w h refl
finite_int-Settled nan w h = cc

-- A text of 64 lower-case hexadecimal digits.
hex32_text_kept :
    (s : Text) → (all is_hex_digit s && length s == 64) ≡ true → Settled as_hex32 (str s)
unfolding hex32_text coerce_hex32 to_text
hex32_text_kept s h =
    let digits = and-left (all is_hex_digit s) (length s == 64) h in
    let same : to_lower_case (trim s) ≡ s =
      ap to_lower_case (trim_hex s digits) ∙ to_lower_case_hex s digits in
    ap hex32_text same ∙ ap (λ b. if b then ok (str s) else err (thrown "must be 32-byte hex")) h

hex32_text-Settled : (s : Text) (w : Value) → hex32_text s ≡ ok w → Settled as_hex32 (or_null w)
unfolding hex32_text
hex32_text-Settled s w h = elim (Bool-cases (all is_hex_digit s && length s == 64)) [
  | inl t ↦
      let taken : ok (str s) ≡ ok w = ground (arith, h, t) in
      settle as_hex32 (str s) w taken (hex32_text_kept s t)
  | inr f ↦ let refused : err (thrown "must be 32-byte hex") ≡ ok w = ground (arith, h, f) in cc
]

known_state_kept :
    (s : Text) → (text_eq s in_flight || text_eq s filled) ≡ true → Settled as_state (str s)
unfolding known_state lock_state normalize_hex to_text trim to_lower_case text_eq
known_state_kept s h = elim (Bool-cases (text_eq s in_flight)) [
  | inl t ↦ subst (λ x. Settled as_state (str x)) (sym (eq_of_text_eq s in_flight t)) refl
  | inr f ↦
      let other : text_eq s filled ≡ true = ground (arith, h, f) in
      subst (λ x. Settled as_state (str x)) (sym (eq_of_text_eq s filled other)) refl
]

known_state_taken :
    (s : Text) (w : Value)
    → known_state s ≡ ok w
    → ((text_eq s in_flight || text_eq s filled) ≡ true) × (ok (str s) ≡ ok w)
unfolding known_state
known_state_taken s w h = ground arith

known_state-Settled : (s : Text) (w : Value) → known_state s ≡ ok w → Settled as_state (or_null w)
known_state-Settled s w h =
    let (known, taken) = known_state_taken s w h in
    settle as_state (str s) w taken (known_state_kept s known)

-- A coercion that keeps `NULL`.
if_present-Settled :
    (k : ColumnKind) (f : Value → Result Value)
    → Settled k null
    → ((v w : Value) → f v ≡ ok w → Settled k (or_null w))
    → (v w : Value) → if_present f v ≡ ok w
    → Settled k (or_null w)
if_present-Settled k f none each undefined w h = settle k undefined w h none
if_present-Settled k f none each null w h = settle k null w h none
if_present-Settled k f none each (bool b) w h = each (bool b) w h
if_present-Settled k f none each (num n) w h = each (num n) w h
if_present-Settled k f none each (str s) w h = each (str s) w h
if_present-Settled k f none each (arr xs) w h = each (arr xs) w h
if_present-Settled k f none each (obj fs) w h = each (obj fs) w h

text_column-Settled : (v w : Value) → text_column v ≡ ok w → Settled as_text (or_null w)
unfolding text_column coerce_text to_text
text_column-Settled v w h = settle as_text (str (to_text v)) w h refl

json_column-Settled : (v w : Value) → json_column v ≡ ok w → Settled as_json (or_null w)
unfolding json_column coerce_json
json_column-Settled (str s) w h = settle as_json (str s) w h refl
json_column-Settled v w h = settle as_json (str (stable_stringify v)) w h refl

-- What a column stores for any value is settled.
pub coerce-Settled : (k : ColumnKind) (v w : Value) → coerce k v ≡ ok w → Settled k (or_null w)
unfolding lock_state coerce_text coerce_int int_column coerce_hex32 hex32_column coerce_json
coerce-Settled as_text v w h = if_present-Settled as_text text_column refl text_column-Settled v w h
coerce-Settled as_int v w h =
    if_present-Settled as_int int_column refl (λ v. finite_int-Settled (to_number v)) v w h
coerce-Settled as_hex32 v w h =
    if_present-Settled as_hex32 hex32_column refl
      (λ v. hex32_text-Settled (to_lower_case (trim (to_text v)))) v w h
coerce-Settled as_json v w h = if_present-Settled as_json json_column refl json_column-Settled v w h
coerce-Settled as_state v w h = known_state-Settled (normalize_hex v) w h

abbrev pub is_int : ColumnKind → Bool
is_int as_int = true
is_int _ = false

pub is_int-coerce :
    (k : ColumnKind) (n : ℕ) → is_int k ≡ true → coerce k (num (nat n)) ≡ ok (num (nat n))
unfolding coerce_int int_column finite_int to_number
is_int-coerce as_text n h = cc
is_int-coerce as_int n h = refl
is_int-coerce as_hex32 n h = cc
is_int-coerce as_json n h = cc
is_int-coerce as_state n h = cc
