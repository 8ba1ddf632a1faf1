-- ===== src/Receipts/Rows.antt =====
-- The columns of a row that is written: each from the patched object, and each settled.
use text.Mathlib.Text.{◌==◌ as str_eq}
use text.Mathlib.TextEquality.{eq_iff}
use text.Mathlib.TextPositions.{eq_refl}
use swapfloor.Common.{
  ◌≡◌, refl, sym, ap, ◌∙◌, subst, String, Bool, true, false, not, ◌&&◌, List, [], ◌∷◌, arith,
  and-left, and-right, Bool-cases, ok, >>=-eq-ok, inl, inr,
}
use swapfloor.Js.Value.{
  Value, undefined, null, bool, num, str, arr, obj, Fields, field, lookup, is_defined,
}
use swapfloor.Swap.Envelope.{put}
use swapfloor.Receipts.Columns.{
  ColumnKind, coerce, Column, coerce_columns, trade_columns, lock_columns, or_null,
}
use swapfloor.Receipts.Columns.Settled.{Settled, coerce-Settled}
use swapfloor.Receipts.Patch.{lookup-put}

-- A name of none of the columns.
abbrev pub fresh : String → List Column → Bool
fresh n [] = true
fresh n (c ∷ cs) = not (str_eq n c.name) && fresh n cs

abbrev pub distinct : List Column → Bool
distinct [] = true
distinct (c ∷ cs) = fresh c.name cs && distinct cs

pub trade_columns-distinct : distinct trade_columns ≡ true
unfolding trade_columns
trade_columns-distinct = refl

pub lock_columns-distinct : distinct lock_columns ≡ true
unfolding lock_columns
lock_columns-distinct = refl

-- What the column of a row holds comes from the object by its coercion.
abbrev pub Holds : Column → Fields → Fields → Type 0
Holds c next fs =
    (v : Value) × (coerce c.kind (lookup c.name next) ≡ ok v) × (lookup c.name fs ≡ or_null v)

abbrev pub Reads : List Column → Fields → Fields → Type 0
Reads [] next fs = Unit
Reads (c ∷ cs) next fs = Holds c next fs × Reads cs next fs

Reads-field :
    (n : String) (w : Value) (cs : List Column) (next fs : Fields)
    → fresh n cs ≡ true
    → Reads cs next fs
    → Reads cs next (field n w fs)
unfolding lookup
Reads-field n w [] next fs h r = tt
Reads-field n w (c ∷ cs) next fs h ((v, e, g), r) =
    let other : str_eq n c.name ≡ false = ground arith in
    let rest : fresh n cs ≡ true = ground arith in
    let same : lookup c.name (field n w fs) ≡ or_null v = ground (arith, other, g) in
    ((v, e, same), Reads-field n w cs next fs rest r)

pub coerce_columns-Reads :
    (cs : List Column) (next fs : Fields)
    → distinct cs ≡ true
    → coerce_columns cs next ≡ ok fs
    → Reads cs next fs
unfolding coerce_columns lookup
coerce_columns-Reads [] next fs d h = tt
coerce_columns-Reads (c ∷ cs) next fs d h =
    let (v, e, h₁) = >>=-eq-ok (coerce c.kind (lookup c.name next)) _ h in
    let (rest, g, h₂) = >>=-eq-ok (coerce_columns cs next) _ h₁ in
    let built : field c.name (or_null v) rest ≡ fs = cc in
    let more = coerce_columns-Reads cs next rest (and-right (fresh c.name cs) (distinct cs) d) g in
    let own : str_eq c.name c.name ≡ true = eq_refl c.name in
    let first : lookup c.name (field c.name (or_null v) rest) ≡ or_null v = ground (arith, own) in
    subst (λ x. Reads (c ∷ cs) next x) built
      (
        (v, e, first),
        Reads-field c.name (or_null v) cs next rest (and-left (fresh c.name cs) (distinct cs) d)
            more,
      )

-- A value that a column keeps, and no missing one.
abbrev pub Stored : ColumnKind → Value → Type 0
Stored k v = Settled k v × (is_defined v ≡ true)

or_null_defined : (v : Value) → is_defined (or_null v) ≡ true
or_null_defined undefined = refl
or_null_defined null = refl
or_null_defined (bool b) = refl
or_null_defined (num n) = refl
or_null_defined (str t) = refl
or_null_defined (arr xs) = refl
or_null_defined (obj fs) = refl

pub or_null_of_defined : (v : Value) → is_defined v ≡ true → or_null v ≡ v
or_null_of_defined undefined h = cc
or_null_of_defined null h = refl
or_null_of_defined (bool b) h = refl
or_null_of_defined (num n) h = refl
or_null_of_defined (str t) h = refl
or_null_of_defined (arr xs) h = refl
or_null_of_defined (obj fs) h = refl

-- Every column holds a value that it keeps.
abbrev pub AllStored : List Column → Fields → Type 0
AllStored [] fs = Unit
AllStored (c ∷ cs) fs = Stored c.kind (lookup c.name fs) × AllStored cs fs

pub Reads-AllStored : (cs : List Column) (next fs : Fields) → Reads cs next fs → AllStored cs fs
Reads-AllStored [] next fs r = tt
Reads-AllStored (c ∷ cs) next fs ((v, e, g), r) = (
  subst (λ x. Stored c.kind x) (sym g)
      (coerce-Settled c.kind (lookup c.name next) v e, or_null_defined v),
  Reads-AllStored cs next fs r,
)

settled_put :
    (c : Column) (n : String) (old new : Fields)
    → Stored c.kind (lookup c.name old)
    → Stored c.kind (lookup c.name new)
    → Stored c.kind (lookup c.name (put n (lookup n old) new))
settled_put c n old new a b =
    let e = lookup-put c.name n (lookup n old) new in
    elim (Bool-cases (str_eq n c.name)) [
      | inl t ↦
          let same : lookup c.name (put n (lookup n old) new) ≡ lookup n old =
            ground (arith, e, t) in
          let named : lookup n old ≡ lookup c.name old =
            ap (λ m. lookup m old) ((eq_iff n c.name).0 t) in
          subst (λ x. Stored c.kind x) (sym (same ∙ named)) a
      | inr f ↦
          let same : lookup c.name (put n (lookup n old) new) ≡ lookup c.name new =
            ground (arith, e, f) in
          subst (λ x. Stored c.kind x) (sym same) b
    ]

-- A column of one row put into another.
pub AllStored-put :
    (cs : List Column) (n : String) (old new : Fields)
    → AllStored cs old
    → AllStored cs new
    → AllStored cs (put n (lookup n old) new)
AllStored-put [] n old new a b = tt
AllStored-put (c ∷ cs) n old new (a, more) (b, rest) =
    (settled_put c n old new a b, AllStored-put cs n old new more rest)
