-- ===== src/Receipts/Invariant.antt =====
-- The tables of the store stay consistent, whatever calls are made.
use swapfloor.Common.{
  Result, ℕ, ◌≡◌, refl, sym, subst, List, [], ◌∷◌, arith, ok, err, >>=-eq-ok, eq_of_ok,
}
use swapfloor.Js.Value.{Value, Fields, lookup}
use swapfloor.Swap.Envelope.{put}
use swapfloor.Receipts.Columns.{trade_columns, lock_columns}
use swapfloor.Receipts.Table.{Row, updated}
use swapfloor.Receipts.Store.{Store, not_null, named, upsert_trade, upsert_listing_lock}
use swapfloor.Receipts.Patch.{lookup-put}
use swapfloor.Receipts.Rows.{
  AllStored, AllStored-put, Reads-AllStored, coerce_columns-Reads, trade_columns-distinct,
  lock_columns-distinct,
}
use swapfloor.Receipts.Keyed.{
  Unique, Every, upsert-Unique, delete-Unique, delete_where-Unique, upsert-Every, delete-Every,
  delete_where-Every,
}
use swapfloor.Receipts.Writes.{
  IsKey, upsert_trade-WroteTrade, upsert_listing_lock-WroteLock, append_event-IsLogged,
  delete_listing_lock-removed, delete_listing_locks_by_trade-removed,
}
use swapfloor.Receipts.Writing.{
  Write, to_trade, to_lock, an_event, no_lock, no_locks_of, run, kept_store, run_all, empty_store,
}

-- A row of `trades`: a key that can be named, values that their columns keep, and its times.
abbrev pub IsTrade : Row → Type 0
IsTrade r = IsKey r.key × AllStored trade_columns r.columns × (not_null r.columns ≡ ok r.columns)

-- A row of `listing_locks`: also the listing that it locks.
abbrev pub IsLock : Row → Type 0
IsLock r =
    IsKey r.key
    × AllStored lock_columns r.columns
    × (not_null r.columns ≡ ok r.columns)
    × (named r.columns ≡ ok r.columns)

abbrev pub IsConsistent : Store → Type 0
IsConsistent s =
    Unique s.trades × Every IsTrade s.trades × Unique s.listing_locks × Every IsLock s.listing_locks

not_null-put :
    (old new : Fields)
    → not_null old ≡ ok old
    → not_null new ≡ ok new
    → not_null (put "created_at" (lookup "created_at" old) new)
      ≡ ok (put "created_at" (lookup "created_at" old) new)
unfolding not_null
not_null-put old new h g =
    let c = lookup-put "created_at" "created_at" (lookup "created_at" old) new in
    let u = lookup-put "updated_at" "created_at" (lookup "created_at" old) new in
    ground (arith, h, g, c, u)

named-put :
    (old new : Fields)
    → named new ≡ ok new
    → named (put "created_at" (lookup "created_at" old) new)
      ≡ ok (put "created_at" (lookup "created_at" old) new)
unfolding named
named-put old new g =
    let t = lookup-put "listing_type" "created_at" (lookup "created_at" old) new in
    let i = lookup-put "listing_id" "created_at" (lookup "created_at" old) new in
    ground (arith, g, t, i)

updated-IsTrade : (new : Row) → IsTrade new → (old : Row) → IsTrade old → IsTrade (updated old new)
unfolding updated
updated-IsTrade new (k, c, n) old (j, d, m) = (
  j,
  AllStored-put trade_columns "created_at" old.columns new.columns d c,
  not_null-put old.columns new.columns m n,
)

updated-IsLock : (new : Row) → IsLock new → (old : Row) → IsLock old → IsLock (updated old new)
unfolding updated
updated-IsLock new (k, c, n, l) old (j, d, m, o) = (
  j,
  AllStored-put lock_columns "created_at" old.columns new.columns d c,
  not_null-put old.columns new.columns m n,
  named-put old.columns new.columns l,
)

upsert_trade-IsConsistent :
    (created now : ℕ) (s t : Store) (name patch out : Value)
    → IsConsistent s
    → upsert_trade created now s name patch ≡ ok (t, out)
    → IsConsistent t
upsert_trade-IsConsistent created now s t name patch out (u, e, v, f) h =
    let (id, fs, (_, key, read, full, after, _)) =
      upsert_trade-WroteTrade created now s t name patch out h in
    let new : Row = record { key = id; columns = fs } in
    let stored : AllStored trade_columns fs =
      Reads-AllStored trade_columns _ fs
        (coerce_columns-Reads trade_columns _ fs trade_columns-distinct read) in
    let good : IsTrade new = (key, stored, full) in
    subst IsConsistent (sym after) (
      upsert-Unique new s.trades u,
      upsert-Every IsTrade new s.trades good (updated-IsTrade new good) e,
      v,
      f,
    )

upsert_listing_lock-IsConsistent :
    (created now : ℕ) (s t : Store) (name patch out : Value)
    → IsConsistent s
    → upsert_listing_lock created now s name patch ≡ ok (t, out)
    → IsConsistent t
upsert_listing_lock-IsConsistent created now s t name patch out (u, e, v, f) h =
    let (id, fs, (_, key, read, filled, full, after, _)) =
      upsert_listing_lock-WroteLock created now s t name patch out h in
    let new : Row = record { key = id; columns = fs } in
    let stored : AllStored lock_columns fs =
      Reads-AllStored lock_columns _ fs
        (coerce_columns-Reads lock_columns _ fs lock_columns-distinct read) in
    let good : IsLock new = (key, stored, full, filled) in
    subst IsConsistent (sym after) (
      u,
      e,
      upsert-Unique new s.listing_locks v,
      upsert-Every IsLock new s.listing_locks good (updated-IsLock new good) f,
    )

-- A call keeps the store consistent.
pub run-IsConsistent : (w : Write) (s t : Store) → IsConsistent s → run w s ≡ ok t → IsConsistent t
unfolding run
run-IsConsistent (to_trade created now name patch) s t c h =
    let ((x, out), e, g) = >>=-eq-ok (upsert_trade created now s name patch) _ h in
    subst IsConsistent (eq_of_ok g) (upsert_trade-IsConsistent created now s x name patch out c e)
run-IsConsistent (to_lock created now name patch) s t c h =
    let ((x, out), e, g) = >>=-eq-ok (upsert_listing_lock created now s name patch) _ h in
    subst IsConsistent (eq_of_ok g)
      (upsert_listing_lock-IsConsistent created now s x name patch out c e)
run-IsConsistent (an_event now trade_id kind payload ts) s t (u, e, v, f) h =
    let (x, _, same) = append_event-IsLogged now s t trade_id kind payload ts h in
    subst IsConsistent (sym same) (u, e, v, f)
run-IsConsistent (no_lock key) s t (u, e, v, f) h =
    let (k, _, same) = delete_listing_lock-removed s t key h in
    subst IsConsistent (sym same)
      (u, e, delete-Unique k s.listing_locks v, delete-Every IsLock k s.listing_locks f)
run-IsConsistent (no_locks_of trade_id) s t (u, e, v, f) h =
    let (k, _, same) = delete_listing_locks_by_trade-removed s t trade_id h in
    subst IsConsistent (sym same) (
      u,
      e,
      delete_where-Unique "trade_id" k s.listing_locks v,
      delete_where-Every IsLock "trade_id" k s.listing_locks f,
    )

kept-IsConsistent : (w : Write) (s : Store) → IsConsistent s → IsConsistent (kept_store s (run w s))
kept-IsConsistent w s c = go (run w s) refl
  where
    go : (r : Result Store) → run w s ≡ r → IsConsistent (kept_store s r)
    go (ok t) h = run-IsConsistent w s t c h
    go (err e) h = c

-- From a consistent store, every sequence of calls leads to a consistent one: each key once and
-- one that a call can name, each column a value that it keeps, the times present, each lock in
-- flight or filled with its listing.
pub run_all-IsConsistent :
    (ws : List Write) (s : Store) → IsConsistent s → IsConsistent (run_all ws s)
unfolding run_all
run_all-IsConsistent [] s c = c
run_all-IsConsistent (w ∷ ws) s c =
    run_all-IsConsistent ws (kept_store s (run w s)) (kept-IsConsistent w s c)

pub empty-IsConsistent : IsConsistent empty_store
unfolding empty_store
empty-IsConsistent = (tt, tt, tt, tt)
