-- ===== src/Receipts/Patched.antt =====
-- What a patch of a trade does to each column of its row.
use text.Mathlib.Text.{◌==◌ as str_eq}
use text.Mathlib.TextEquality.{eq_iff}
use swapfloor.Common.{
  ◌||◌, all, all_at, ℕ, zero, suc, ◌≡◌, refl, sym, ap, ◌∙◌, subst, Bool, true, false, not, some,
  List, [], ◌∷◌, arith, ok, get_elem?, if◌then◌else◌, Bool-cases, inl, inr, eq_of_ok,
}
use swapfloor.Js.Text.{Text, text_eq, text_eq_refl}
use swapfloor.Js.Value.{Value, nat, num, str, obj, Fields, field, lookup, is_defined}
use swapfloor.Swap.Envelope.{put}
use swapfloor.Receipts.Columns.{coerce, Column, trade_columns, coerce_columns, or_null, entries}
use swapfloor.Receipts.Columns.Settled.{is_int, is_int-coerce}
use swapfloor.Receipts.Table.{Row, find, updated, map_found}
use swapfloor.Receipts.Store.{Store, base_of, next_of, required, upsert_trade}
use swapfloor.Receipts.Patch.{Once, lookup-put, lookup-apply_patch}
use swapfloor.Receipts.Rows.{
  or_null_of_defined, Holds, Reads, AllStored, Stored, coerce_columns-Reads, trade_columns-distinct,
}
use swapfloor.Receipts.Keyed.{written, find-upsert, find-Every, find_key}
use swapfloor.Receipts.Writes.{upsert_trade-WroteTrade}
use swapfloor.Receipts.Invariant.{IsConsistent, IsTrade}

Reads-get_elem :
    (next fs : Fields) (cs : List Column) (i : ℕ) (c : Column)
    → get_elem? cs i ≡ some c
    → Reads cs next fs
    → Holds c next fs
Reads-get_elem next fs [] i c h r = cc
Reads-get_elem next fs (d ∷ cs) zero c h (r, _) =
    let same : d ≡ c = cc in subst (λ x. Holds x next fs) same r
Reads-get_elem next fs (d ∷ cs) (suc i) c h (_, r) = Reads-get_elem next fs cs i c h r

AllStored-get_elem :
    (fs : Fields) (cs : List Column) (i : ℕ) (c : Column)
    → get_elem? cs i ≡ some c
    → AllStored cs fs
    → Stored c.kind (lookup c.name fs)
AllStored-get_elem fs [] i c h r = cc
AllStored-get_elem fs (d ∷ cs) zero c h (r, _) =
    let same : d ≡ c = cc in subst (λ x. Stored x.kind (lookup x.name fs)) same r
AllStored-get_elem fs (d ∷ cs) (suc i) c h (_, r) = AllStored-get_elem fs cs i c h r

-- The columns of the row before, and the time of the call.
module _ (now : ℕ) (patch old : Fields) where
  -- What a column holds before it is coerced, where the patch leaves it alone.
  abbrev pub left_alone : Column → Value
  left_alone c = if str_eq "updated_at" c.name then num (nat now) else lookup c.name old

  abbrev pub ByPatch : Bool → Column → Fields → Type 0
  ByPatch true c new =
      (v : Value) × (coerce c.kind (lookup c.name patch) ≡ ok v) × (lookup c.name new ≡ or_null v)
  ByPatch false c new = lookup c.name new ≡ left_alone c

  abbrev pub ByName : Bool → Column → Fields → Type 0
  ByName true c new = lookup c.name new ≡ lookup c.name old
  ByName false c new = ByPatch (is_defined (lookup c.name patch)) c new

  -- `created_at` stays; a column that the patch defines holds what it makes of this value; any
  -- other one stays, but for the time of the update.
  abbrev pub IsPatched : Column → Fields → Type 0
  IsPatched c new = ByName (str_eq "created_at" c.name) c new

ByPatch-same :
    (now : ℕ) (patch old : Fields) (b : Bool) (c : Column) (fs gs : Fields)
    → lookup c.name gs ≡ lookup c.name fs
    → ByPatch now patch old b c fs
    → ByPatch now patch old b c gs
ByPatch-same now patch old true c fs gs h (v, e, g) = (v, e, h ∙ g)
ByPatch-same now patch old false c fs gs h g = h ∙ g

not_trade_id : Column → Bool
not_trade_id c = not (str_eq "trade_id" c.name)

time_is_int : Column → Bool
time_is_int c = not (str_eq "updated_at" c.name) || is_int c.kind

no_trade_id : all not_trade_id trade_columns ≡ true
unfolding not_trade_id trade_columns
no_trade_id = refl

times_are_ints : all time_is_int trade_columns ≡ true
unfolding time_is_int trade_columns
times_are_ints = refl

module _ (created now : ℕ) (id : Text) (patch : Value) (old : Row) (i : ℕ) (c : Column)
    (at : get_elem? trade_columns i ≡ some c) where
  next : Fields
  next = next_of "trade_id" created now id (map_found "trade_id" (some old)) patch

  lookup-next :
      Once (entries patch)
      → lookup c.name next ≡ (
          if is_defined (lookup c.name (entries patch))
          then lookup c.name (entries patch)
          else left_alone now (entries patch) old.columns c)
  unfolding next next_of base_of not_trade_id lookup
  lookup-next once =
      let other = all_at not_trade_id trade_columns i c at no_trade_id in
      let base = field "trade_id" (str old.key) old.columns in
      let below : lookup c.name base ≡ lookup c.name old.columns = ground (arith, other) in
      lookup-apply_patch c.name (entries patch) (put "updated_at" (num (nat now)) base) once
      ∙ ap
          (λ x.
            if is_defined (lookup c.name (entries patch)) then lookup c.name (entries patch) else x)
          (lookup-put c.name "updated_at" (num (nat now)) base
            ∙ ap (λ x. if str_eq "updated_at" c.name then num (nat now) else x) below)

  -- Where the patch leaves a column alone, it is coerced to itself.
  coerce-left_alone :
      Stored c.kind (lookup c.name old.columns)
      → coerce c.kind (left_alone now (entries patch) old.columns c)
        ≡ ok (left_alone now (entries patch) old.columns c)
  unfolding time_is_int
  coerce-left_alone (kept, _) =
      let time = all_at time_is_int trade_columns i c at times_are_ints in
      elim (Bool-cases (str_eq "updated_at" c.name)) [
        | inl t ↦
            let int : is_int c.kind ≡ true = ground (arith, time, t) in
            subst
              (λ b.
                coerce c.kind (if b then num (nat now) else lookup c.name old.columns)
                ≡ ok (if b then num (nat now) else lookup c.name old.columns))
              (sym t) (is_int-coerce c.kind now int)
        | inr f ↦
            subst
              (λ b.
                coerce c.kind (if b then num (nat now) else lookup c.name old.columns)
                ≡ ok (if b then num (nat now) else lookup c.name old.columns))
              (sym f) kept
      ]

  left_alone_defined :
      Stored c.kind (lookup c.name old.columns)
      → or_null (left_alone now (entries patch) old.columns c)
        ≡ left_alone now (entries patch) old.columns c
  left_alone_defined (_, d) =
      or_null_of_defined (left_alone now (entries patch) old.columns c) (ground (arith, d))

  Holds-ByPatch :
      (fs : Fields)
      → Once (entries patch)
      → Stored c.kind (lookup c.name old.columns)
      → Holds c next fs
      → ByPatch now (entries patch) old.columns (is_defined (lookup c.name (entries patch))) c fs
  Holds-ByPatch fs once stored (v, e, g) =
      elim (Bool-cases (is_defined (lookup c.name (entries patch)))) [
        | inl t ↦
            let same : lookup c.name next ≡ lookup c.name (entries patch) =
              ground (arith, lookup-next once, t) in
            subst (λ b. ByPatch now (entries patch) old.columns b c fs) (sym t)
              (v, subst (λ x. coerce c.kind x ≡ ok v) same e, g)
        | inr f ↦
            let same : lookup c.name next ≡ left_alone now (entries patch) old.columns c =
              ground (arith, lookup-next once, f) in
            let kept : v ≡ left_alone now (entries patch) old.columns c =
              eq_of_ok
                (sym (subst (λ x. coerce c.kind x ≡ ok v) same e) ∙ coerce-left_alone stored) in
            subst (λ b. ByPatch now (entries patch) old.columns b c fs) (sym f)
              (g ∙ ap or_null kept ∙ left_alone_defined stored)
      ]

  -- The columns that the store has afterwards: `created_at` is the old one.
  put-IsPatched :
      (fs : Fields)
      → Once (entries patch)
      → Stored c.kind (lookup c.name old.columns)
      → Holds c next fs
      → IsPatched now
          (entries patch)
          old.columns
          c
          (put "created_at" (lookup "created_at" old.columns) fs)
  put-IsPatched fs once stored holds =
      let after = put "created_at" (lookup "created_at" old.columns) fs in
      let e = lookup-put c.name "created_at" (lookup "created_at" old.columns) fs in
      elim (Bool-cases (str_eq "created_at" c.name)) [
        | inl t ↦
            let old_time : lookup c.name after ≡ lookup "created_at" old.columns =
              ground (arith, e, t) in
            subst (λ b. ByName now (entries patch) old.columns b c after) (sym t)
              (old_time ∙ ap (λ n. lookup n old.columns) ((eq_iff "created_at" c.name).0 t))
        | inr f ↦
            let same : lookup c.name after ≡ lookup c.name fs = ground (arith, e, f) in
            subst (λ b. ByName now (entries patch) old.columns b c after) (sym f)
              (ByPatch-same now (entries patch) old.columns
                (is_defined (lookup c.name (entries patch))) c fs after same
                (Holds-ByPatch fs once stored holds))
      ]

-- A patch of a receipt in a consistent store, each of whose keys stands once, changes the row
-- column by column, and the call returns the row: `created_at` stays, a column that the patch
-- defines holds what it makes of the value, and every other one stays but for the time of the
-- update.
pub upsert_trade-IsPatched :
    (created now : ℕ) (s t : Store) (name patch out : Value) (id : Text) (old : Row) (i : ℕ)
    (c : Column)
    → IsConsistent s
    → required "tradeId is required" name ≡ ok id
    → find id s.trades ≡ some old
    → Once (entries patch)
    → get_elem? trade_columns i ≡ some c
    → upsert_trade created now s name patch ≡ ok (t, out)
    → (new : Fields) × (find id t.trades ≡ some (record { key = id; columns = new }))
      × (out ≡ obj (field "trade_id" (str id) new))
      × IsPatched now (entries patch) old.columns c new
unfolding updated next
upsert_trade-IsPatched created now s t name patch out id old i c (_, rows, _, _) named_by found once
      at h =
    let (key, fs, (named_too, _, read, _, after, returned)) =
      upsert_trade-WroteTrade created now s t name patch out h in
    let same : key ≡ id = eq_of_ok (sym named_too ∙ named_by) in
    let there : find key s.trades ≡ some old = ap (λ k. find k s.trades) same ∙ found in
    let (_, stored, _) = find-Every IsTrade id s.trades old rows found in
    let reads : coerce_columns trade_columns (next created now id patch old i c at) ≡ ok fs =
      subst
        (λ o.
          coerce_columns trade_columns
            (next_of "trade_id" created now id (map_found "trade_id" o) patch)
          ≡ ok fs)
        found
        (subst
          (λ k.
            coerce_columns trade_columns
              (next_of "trade_id" created now k (map_found "trade_id" (find k s.trades)) patch)
            ≡ ok fs)
          same read) in
    let holds = Reads-get_elem (next created now id patch old i c at) fs trade_columns i c at (
      coerce_columns-Reads trade_columns (next created now id patch old i c at) fs
        trade_columns-distinct reads) in
    let new = put "created_at" (lookup "created_at" old.columns) fs in
    let row : find id t.trades ≡ some (record { key = id; columns = new }) =
      let wrote : Row = record { key = key; columns = fs } in
      let hit : text_eq key id ≡ true = subst (λ k. text_eq key k ≡ true) same (text_eq_refl key) in
      ap (λ x. find id x.trades) after
      ∙ find-upsert id wrote s.trades
      ∙ ap (λ b. if b then some (written (find key s.trades) wrote) else find id s.trades) hit
      ∙ ap (λ o. some (written o wrote)) there
      ∙ ap (λ k. some (record { key = k; columns = new })) (find_key id s.trades old found) in
    (
      new,
      row,
      returned
          ∙ ap (λ k. map_found "trade_id" (find k t.trades)) same
          ∙ ap (map_found "trade_id") row,
      put-IsPatched created now id patch old i c at fs once
          (AllStored-get_elem old.columns trade_columns i c at stored) holds,
    )
