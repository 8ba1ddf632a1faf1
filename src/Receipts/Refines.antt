-- ===== src/Receipts/Refines.antt =====
-- The store as two partial functions and a log, and its calls as changes of them.
use mathlib.Core.Path.{fun_ext}
use swapfloor.Common.{
  ◌≡◌, refl, sym, ap, ◌∙◌, subst, String, Option, none, some, List, [], ◌∷◌, ◌++◌, arith, ok,
  >>=-eq-ok, eq_of_ok, if◌then◌else◌, Option-cases, inl, inr,
}
use swapfloor.Js.Text.{Text, text_eq}
use swapfloor.Js.Value.{Value, null, str, obj, Fields, field, lookup, strict_eq}
use swapfloor.Swap.Envelope.{put}
use swapfloor.Receipts.Columns.{coerce_columns, trade_columns, lock_columns}
use swapfloor.Receipts.Table.{Row, Table, find, updated, upsert, delete, delete_where, map_found}
use swapfloor.Receipts.Store.{
  Store, Event, required, next_of, not_null, named, upsert_trade, upsert_listing_lock,
}
use swapfloor.Receipts.Keyed.{
  find_key, find-upsert, find-delete, find-delete_where, spared, written, Unique,
}
use swapfloor.Receipts.Writes.{
  IsLogged, upsert_trade-WroteTrade, upsert_listing_lock-WroteLock, append_event-IsLogged,
  delete_listing_lock-removed, delete_listing_locks_by_trade-removed,
}
use swapfloor.Receipts.Writing.{Write, to_trade, to_lock, an_event, no_lock, no_locks_of, run}
use swapfloor.Receipts.Invariant.{IsConsistent}

-- The columns that stand under a key.
abbrev pub View : Type 0
View = Text → Option Fields

pub record Book : Type 0 where
  pub trade : View
  pub lock : View
  pub events : List Event

abbrev columns_of : Option Row → Option Fields
columns_of none = none
columns_of (some r) = some r.columns

abbrev pub view : Table → View
view t k = columns_of (find k t)

abbrev pub book : Store → Book
book s = record { trade = view s.trades; lock = view s.listing_locks; events = s.events }

-- New columns under a key; what stood there keeps its `created_at`.
abbrev pub keeping : Option Fields → Fields → Fields
keeping none new = new
keeping (some old) new = put "created_at" (lookup "created_at" old) new

abbrev pub put_at : Text → Fields → View → View
put_at id new m k = if text_eq id k then some (keeping (m id) new) else m k

abbrev pub remove_at : Text → View → View
remove_at d m k = if text_eq d k then none else m k

abbrev pub without_value : String → Text → Option Fields → Option Fields
without_value name v none = none
without_value name v (some fs) = if strict_eq (lookup name fs) (str v) then none else some fs

abbrev pub remove_where : String → Text → View → View
remove_where name v m k = without_value name v (m k)

-- What stands under a key, as the object that a caller gets.
abbrev pub object_at : String → Text → Option Fields → Value
object_at key_name k none = null
object_at key_name k (some fs) = obj (field key_name (str k) fs)

-- What each call does to the book.
abbrev pub Does : Write → Book → Book → Type 0
Does (to_trade created now name patch) b c =
    (id : Text) × (fs : Fields) × (required "tradeId is required" name ≡ ok id)
    × (coerce_columns trade_columns
          (next_of "trade_id" created now id (object_at "trade_id" id (b.trade id)) patch)
        ≡ ok fs)
    × (not_null fs ≡ ok fs)
    × (c ≡ record b { trade = put_at id fs b.trade })
Does (to_lock created now name patch) b c =
    (key : Text) × (fs : Fields) × (required "listingKey is required" name ≡ ok key)
    × (coerce_columns lock_columns
          (next_of "listing_key" created now key (object_at "listing_key" key (b.lock key)) patch)
        ≡ ok fs)
    × (named fs ≡ ok fs)
    × (not_null fs ≡ ok fs)
    × (c ≡ record b { lock = put_at key fs b.lock })
Does (an_event now trade_id kind payload ts) b c =
    (x : Event) × IsLogged now trade_id kind payload ts x
    × (c ≡ record b { events = b.events ++ x ∷ [] })
Does (no_lock key) b c =
    (k : Text) × (required "listingKey is required" key ≡ ok k)
    × (c ≡ record b { lock = remove_at k b.lock })
Does (no_locks_of trade_id) b c =
    (id : Text) × (required "tradeId is required" trade_id ≡ ok id)
    × (c ≡ record b { lock = remove_where "trade_id" id b.lock })

map_found_at :
    (key_name : String) (k : Text) (t : Table)
    → map_found key_name (find k t) ≡ object_at key_name k (view t k)
map_found_at key_name k t = elim (Option-cases (find k t)) [
  | inl n ↦ ap (map_found key_name) n ∙ ap (λ o. object_at key_name k (columns_of o)) (sym n)
  | inr (r, h) ↦
      ap (map_found key_name) h
      ∙ ap (λ x. obj (field key_name (str x) r.columns)) (find_key k t r h)
      ∙ ap (λ o. object_at key_name k (columns_of o)) (sym h)
]

columns-written :
    (o : Option Row) (new : Row) → (written o new).columns ≡ keeping (columns_of o) new.columns
unfolding updated
columns-written none new = refl
columns-written (some old) new = refl

view-upsert :
    (id : Text) (fs : Fields) (t : Table)
    → view (upsert (record { key = id; columns = fs }) t) ≡ put_at id fs (view t)
view-upsert id fs t = fun_ext (λ k.
    let new : Row = record { key = id; columns = fs } in
    ground (arith, find-upsert k new t, columns-written (find id t) new))

view-delete : (d : Text) (t : Table) → view (delete d t) ≡ remove_at d (view t)
view-delete d t = fun_ext (λ k. ground (arith, find-delete k d t))

columns-spared :
    (name : String) (v : Text) (o : Option Row)
    → columns_of (spared name v o) ≡ without_value name v (columns_of o)
columns-spared name v none = refl
columns-spared name v (some r) = ground arith

view-delete_where :
    (name : String) (v : Text) (t : Table)
    → Unique t
    → view (delete_where name v t) ≡ remove_where name v (view t)
view-delete_where name v t u =
    fun_ext (λ k. ap columns_of (find-delete_where k name v t u) ∙ columns-spared name v (find k t))

-- The store refines its abstract view, two partial functions of the key and a log of events: from
-- a consistent store, a call that succeeds writes the coerced columns under its key where the old
-- `created_at` stays, adds the event, or takes away the lock or the locks of a trade, and changes
-- nothing else.
pub run-Does :
    (w : Write) (s t : Store) → IsConsistent s → run w s ≡ ok t → Does w (book s) (book t)
unfolding run
run-Does (to_trade created now name patch) s t c h =
    let ((x, out), e, g) = >>=-eq-ok (upsert_trade created now s name patch) _ h in
    let (id, fs, (named_by, _, read, full, after, _)) =
      upsert_trade-WroteTrade created now s x name patch out e in
    (
      id,
      fs,
      named_by,
      subst (λ o. coerce_columns trade_columns (next_of "trade_id" created now id o patch) ≡ ok fs)
          (map_found_at "trade_id" id s.trades) read,
      full,
      ap book (sym (eq_of_ok g) ∙ after)
          ∙ (λ i. record (book s) { trade = view-upsert id fs s.trades i }),
    )
run-Does (to_lock created now name patch) s t c h =
    let ((x, out), e, g) = >>=-eq-ok (upsert_listing_lock created now s name patch) _ h in
    let (id, fs, (named_by, _, read, filled, full, after, _)) =
      upsert_listing_lock-WroteLock created now s x name patch out e in
    (
      id,
      fs,
      named_by,
      subst
          (λ o. coerce_columns lock_columns (next_of "listing_key" created now id o patch) ≡ ok fs)
          (map_found_at "listing_key" id s.listing_locks) read,
      filled,
      full,
      ap book (sym (eq_of_ok g) ∙ after)
          ∙ (λ i. record (book s) { lock = view-upsert id fs s.listing_locks i }),
    )
run-Does (an_event now trade_id kind payload ts) s t c h =
    let (x, logged, after) = append_event-IsLogged now s t trade_id kind payload ts h in
    (x, logged, ap book after)
run-Does (no_lock key) s t c h =
    let (k, e, after) = delete_listing_lock-removed s t key h in
    (k, e, ap book after ∙ (λ i. record (book s) { lock = view-delete k s.listing_locks i }))
run-Does (no_locks_of trade_id) s t (_, _, u, _) h =
    let (id, e, after) = delete_listing_locks_by_trade-removed s t trade_id h in
    (
      id,
      e,
      ap book after
          ∙ (λ i. record (book s) { lock = view-delete_where "trade_id" id s.listing_locks u i }),
    )
