-- ===== src/Receipts/Keyed.antt =====
-- A table is a partial function of its primary key.
use swapfloor.Common.{
  ◌≡◌, refl, sym, ap, ◌∙◌, subst, String, true, false, Option, none, some, [], ◌∷◌, arith,
  if◌then◌else◌, Bool-cases, inl, inr,
}
use swapfloor.Js.Text.{Text, text_eq, text_eq_refl, eq_of_text_eq}
use swapfloor.Receipts.Table.{Row, Table, find, updated, upsert, delete, delete_where, holds}

text_key : (j k n : Text) → text_eq j k ≡ true → text_eq j n ≡ text_eq k n
text_key j k n h = ap (λ x. text_eq x n) (eq_of_text_eq j k h)

other_text : (j k n : Text) → text_eq j n ≡ true → text_eq k n ≡ true → text_eq j k ≡ true
other_text j k n h g =
    subst (λ x. text_eq j x ≡ true) (eq_of_text_eq j n h ∙ sym (eq_of_text_eq k n g))
      (text_eq_refl j)

-- The row of a key after the write of a new row: the old `created_at` stays.
abbrev pub written : Option Row → Row → Row
unfolding updated
written none new = new
written (some old) new = updated old new

pub find-upsert :
    (k : Text) (new : Row) (t : Table)
    → find k (upsert new t)
      ≡ (if text_eq new.key k then some (written (find new.key t) new) else find k t)
unfolding find upsert updated
find-upsert k new [] = refl
find-upsert k new (r ∷ rows) =
    ground (arith, find-upsert k new rows, text_key r.key new.key k, other_text r.key new.key k)

pub find-delete :
    (k d : Text) (t : Table) → find k (delete d t) ≡ (if text_eq d k then none else find k t)
unfolding find delete
find-delete k d [] = ground arith
find-delete k d (r ∷ rows) =
    ground (arith, find-delete k d rows, text_key r.key d k, other_text r.key d k)

pub find_key : (k : Text) (t : Table) (r : Row) → find k t ≡ some r → r.key ≡ k
unfolding find
find_key k [] r h = cc
find_key k (x ∷ rows) r h = elim (Bool-cases (text_eq x.key k)) [
  | inl t ↦
      let same : x ≡ r = ground (arith, h, t) in
      ap (λ y. y.key) (sym same) ∙ eq_of_text_eq x.key k t
  | inr f ↦ let later : find k rows ≡ some r = ground (arith, h, f) in find_key k rows r later
]

-- Each key once.
abbrev pub Unique : Table → Type 0
Unique [] = Unit
Unique (r ∷ rows) = (find r.key rows ≡ none) × Unique rows

-- The row of a key after the rows with a value in a column are gone.
abbrev pub spared : String → Text → Option Row → Option Row
spared name v none = none
spared name v (some r) = if holds name v r then none else some r

pub find-delete_where :
    (k : Text) (name : String) (v : Text) (t : Table)
    → Unique t
    → find k (delete_where name v t) ≡ spared name v (find k t)
unfolding find delete_where
find-delete_where k name v [] u = refl
find-delete_where k name v (r ∷ rows) (new, u) =
    let absent : text_eq r.key k ≡ true → find k rows ≡ none =
      λ h. ap (λ x. find x rows) (sym (eq_of_text_eq r.key k h)) ∙ new in
    ground (arith, find-delete_where k name v rows u, absent)

pub upsert-Unique : (new : Row) (t : Table) → Unique t → Unique (upsert new t)
unfolding upsert updated find
upsert-Unique new [] u = (refl, tt)
upsert-Unique new (r ∷ rows) (h, u) = ground (
  arith,
  upsert-Unique new rows u,
  find-upsert r.key new rows,
  h,
  other_text r.key new.key r.key,
  text_eq_refl r.key,
)

pub delete-Unique : (d : Text) (t : Table) → Unique t → Unique (delete d t)
unfolding delete
delete-Unique d [] u = tt
delete-Unique d (r ∷ rows) (h, u) =
    ground (arith, delete-Unique d rows u, find-delete r.key d rows, h)

pub delete_where-Unique :
    (name : String) (v : Text) (t : Table) → Unique t → Unique (delete_where name v t)
unfolding delete_where
delete_where-Unique name v [] u = tt
delete_where-Unique name v (r ∷ rows) (h, u) =
    ground (arith, delete_where-Unique name v rows u, find-delete_where r.key name v rows u, h)

module _ (P : Row → Type 0) where
  -- Every row has a property.
  abbrev pub Every : Table → Type 0
  Every [] = Unit
  Every (r ∷ rows) = P r × Every rows

  pub upsert-Every :
      (new : Row) (t : Table)
      → P new
      → ((old : Row) → P old → P (updated old new))
      → Every t
      → Every (upsert new t)
  unfolding upsert updated
  upsert-Every new [] p up e = (p, tt)
  upsert-Every new (r ∷ rows) p up (a, e) =
      elim (text_eq r.key new.key)
        as (λ b. Every (if b then updated r new ∷ rows else r ∷ upsert new rows)) [
          | true ↦ (up r a, e)
          | false ↦ (a, upsert-Every new rows p up e)
        ]

  pub delete-Every : (d : Text) (t : Table) → Every t → Every (delete d t)
  unfolding delete
  delete-Every d [] e = tt
  delete-Every d (r ∷ rows) (a, e) =
      elim (text_eq r.key d) as (λ b. Every (if b then delete d rows else r ∷ delete d rows)) [
        | true ↦ delete-Every d rows e
        | false ↦ (a, delete-Every d rows e)
      ]

  pub delete_where-Every :
      (name : String) (v : Text) (t : Table) → Every t → Every (delete_where name v t)
  unfolding delete_where
  delete_where-Every name v [] e = tt
  delete_where-Every name v (r ∷ rows) (a, e) =
      elim (holds name v r)
        as (λ b. Every (if b then delete_where name v rows else r ∷ delete_where name v rows)) [
          | true ↦ delete_where-Every name v rows e
          | false ↦ (a, delete_where-Every name v rows e)
        ]

  pub find-Every : (k : Text) (t : Table) (r : Row) → Every t → find k t ≡ some r → P r
  unfolding find
  find-Every k [] r e h = cc
  find-Every k (x ∷ rows) r (a, e) h = elim (Bool-cases (text_eq x.key k)) [
    | inl t ↦ let same : x ≡ r = ground (arith, h, t) in subst P same a
    | inr f ↦ let later : find k rows ≡ some r = ground (arith, h, f) in find-Every k rows r e later
  ]
