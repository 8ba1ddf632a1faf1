-- ===== src/Receipts/Writes.antt =====
-- What a write that succeeds has done: the row that it made, and the store after it.
use swapfloor.Common.{
  ◌∷◌, ◌++◌, ℕ, ◌≡◌, sym, ap, ◌∙◌, subst, String, false, not, [], arith, if◌then◌else◌, Bool-cases,
  ok, err, thrown, ◌>>=◌, >>=-eq-ok, eq_of_ok, inl, inr,
}
use swapfloor.Js.Text.{Text, trim, is_empty}
use swapfloor.Js.Text.Trim.{trim-trim}
use swapfloor.Js.Value.{nat, num, null, Value, str, Fields, lookup, to_text, is_present}
use swapfloor.Js.Convert.{or_empty}
use swapfloor.Swap.Listings.{trimmed}
use swapfloor.Receipts.Columns.{
  coerce_int, coerce_json, coerce_columns, trade_columns, lock_columns, lock_state,
}
use swapfloor.Receipts.Table.{delete, delete_where, find, upsert, map_found}
use swapfloor.Receipts.Store.{
  Event, append_event, delete_listing_lock, delete_listing_locks_by_trade, Store, required,
  get_trade, with_trade, next_of, not_null, upsert_trade, get_listing_lock, with_lock, lock_row,
  named, upsert_listing_lock,
}

-- A key that a call can name: it is not empty, and has no white space around.
abbrev pub IsKey : Text → Type 0
IsKey k = (m : String) → required m (str k) ≡ ok k

trimmed_text : (t : Text) → is_empty t ≡ false → trimmed (str t) ≡ trim t
unfolding trimmed to_text
trimmed_text t h = ap (λ b. trim (to_text (if not b then str t else str []))) h

pub required-IsKey : (m : String) (v : Value) (k : Text) → required m v ≡ ok k → IsKey k
unfolding required trimmed
required-IsKey m v k h n = elim (Bool-cases (is_empty (trimmed v))) [
  | inl t ↦ let none : err (thrown m) ≡ ok k = ground (arith, h, t) in cc
  | inr f ↦
      let e : ok (trimmed v) ≡ ok k = ground (arith, h, f) in
      let same : trimmed v ≡ k = cc in
      let full : is_empty k ≡ false = subst (λ x. is_empty x ≡ false) same f in
      let kept : trim k ≡ k = subst (λ x. trim x ≡ x) same (trim-trim (to_text (or_empty v))) in
      let again : trimmed (str k) ≡ k = trimmed_text k full ∙ kept in
      subst (λ x. (if is_empty x then err (thrown n) else ok x) ≡ ok k) (sym again)
        (ap (λ b. if b then err (thrown n) else ok k) full)
]

-- Reading by a key gives the row of this key.
pub get_trade_key :
    (s : Store) (k : Text)
    → IsKey k
    → get_trade s (str k) ≡ ok (map_found "trade_id" (find k s.trades))
unfolding get_trade
get_trade_key s k h =
    ap (λ r. r >>= (λ id. ok (map_found "trade_id" (find id s.trades)))) (h "tradeId is required")

pub get_listing_lock_key :
    (s : Store) (k : Text)
    → IsKey k
    → get_listing_lock s (str k) ≡ ok (map_found "listing_key" (find k s.listing_locks))
unfolding get_listing_lock
get_listing_lock_key s k h =
    ap (λ r. r >>= (λ id. ok (map_found "listing_key" (find id s.listing_locks))))
      (h "listingKey is required")

pub not_null_same : (fs gs : Fields) → not_null fs ≡ ok gs → (fs ≡ gs) × (not_null gs ≡ ok gs)
unfolding not_null
not_null_same fs gs h =
    let same : fs ≡ gs = ground (arith, h) in (same, subst (λ x. not_null x ≡ ok gs) same h)

pub named_same : (fs gs : Fields) → named fs ≡ ok gs → (fs ≡ gs) × (named gs ≡ ok gs)
unfolding named
named_same fs gs h =
    let same : fs ≡ gs = ground (arith, h) in (same, subst (λ x. named x ≡ ok gs) same h)

module _ (created now : ℕ) (s t : Store) (name patch out : Value) where
  -- The key, and the columns that were written.
  abbrev pub WroteTrade : Text → Fields → Type 0
  WroteTrade id fs =
      (required "tradeId is required" name ≡ ok id)
      × IsKey id
      × (coerce_columns trade_columns
            (next_of "trade_id" created now id (map_found "trade_id" (find id s.trades)) patch)
          ≡ ok fs)
      × (not_null fs ≡ ok fs)
      × (t ≡ with_trade s id fs)
      × (out ≡ map_found "trade_id" (find id t.trades))

  pub upsert_trade-WroteTrade :
      upsert_trade created now s name patch ≡ ok (t, out)
      → (id : Text) × (fs : Fields) × WroteTrade id fs
  unfolding upsert_trade
  upsert_trade-WroteTrade h =
      let (id, e, h₁) = >>=-eq-ok (required "tradeId is required" name) _ h in
      let key = required-IsKey "tradeId is required" name id e in
      let (old, e₁, h₂) = >>=-eq-ok (get_trade s (str id)) _ h₁ in
      let (row, e₂, h₃) =
        >>=-eq-ok (coerce_columns trade_columns (next_of "trade_id" created now id old patch)) _
          h₂ in
      let (fs, e₃, h₄) = >>=-eq-ok (not_null row) _ h₃ in
      let (back, e₄, h₅) = >>=-eq-ok (get_trade (with_trade s id fs) (str id)) _ h₄ in
      let (same, full) = not_null_same row fs e₃ in
      let looked = get_trade_key s id key in
      let again = get_trade_key (with_trade s id fs) id key in
      let after : with_trade s id fs ≡ t = ap (λ p. p.0) (eq_of_ok h₅) in
      let old_row : old ≡ map_found "trade_id" (find id s.trades) = eq_of_ok (sym e₁ ∙ looked) in
      let new_row : back
          ≡ map_found "trade_id" (find id (upsert (record { key = id; columns = fs }) s.trades)) =
        eq_of_ok (sym e₄ ∙ again) in
      let given : back ≡ out = ap (λ p. p.1) (eq_of_ok h₅) in
      (
        id,
        fs,
        (
          e,
          key,
          subst
              (λ x.
                coerce_columns trade_columns (next_of "trade_id" created now id x patch) ≡ ok fs)
              old_row (e₂ ∙ ap ok same),
          full,
          sym after,
          sym given ∙ new_row ∙ ap (λ x. map_found "trade_id" (find id x.trades)) after,
        ),
      )

  abbrev pub WroteLock : Text → Fields → Type 0
  WroteLock key fs =
      let next =
        next_of "listing_key" created now key (map_found "listing_key" (find key s.listing_locks))
          patch in
      (required "listingKey is required" name ≡ ok key)
      × IsKey key
      × (coerce_columns lock_columns next ≡ ok fs)
      × (named fs ≡ ok fs)
      × (not_null fs ≡ ok fs)
      × (t ≡ with_lock s key fs)
      × (out ≡ map_found "listing_key" (find key t.listing_locks))

  pub upsert_listing_lock-WroteLock :
      upsert_listing_lock created now s name patch ≡ ok (t, out)
      → (key : Text) × (fs : Fields) × WroteLock key fs
  unfolding upsert_listing_lock lock_row
  upsert_listing_lock-WroteLock h =
      let (id, e, h₁) = >>=-eq-ok (required "listingKey is required" name) _ h in
      let key = required-IsKey "listingKey is required" name id e in
      let (old, e₁, h₂) = >>=-eq-ok (get_listing_lock s (str id)) _ h₁ in
      let next = next_of "listing_key" created now id old patch in
      let (row, e₂, h₃) = >>=-eq-ok (lock_row next) _ h₂ in
      let (state, f₁, f₂) = >>=-eq-ok (lock_state (lookup "state" next)) _ e₂ in
      let (columns, f₃, f₄) = >>=-eq-ok (coerce_columns lock_columns next) _ f₂ in
      let (fs, e₃, h₄) = >>=-eq-ok (not_null row) _ h₃ in
      let (back, e₄, h₅) = >>=-eq-ok (get_listing_lock (with_lock s id fs) (str id)) _ h₄ in
      let (same₁, filled) = named_same columns row f₄ in
      let (same₂, full) = not_null_same row fs e₃ in
      let looked = get_listing_lock_key s id key in
      let again = get_listing_lock_key (with_lock s id fs) id key in
      let after : with_lock s id fs ≡ t = ap (λ p. p.0) (eq_of_ok h₅) in
      let old_row : old ≡ map_found "listing_key" (find id s.listing_locks) =
        eq_of_ok (sym e₁ ∙ looked) in
      let new_row : back ≡ map_found "listing_key" (find id (with_lock s id fs).listing_locks) =
        eq_of_ok (sym e₄ ∙ again) in
      let given : back ≡ out = ap (λ p. p.1) (eq_of_ok h₅) in
      (
        id,
        fs,
        (
          e,
          key,
          subst
              (λ x.
                coerce_columns lock_columns (next_of "listing_key" created now id x patch) ≡ ok fs)
              old_row (f₃ ∙ ap ok (same₁ ∙ same₂)),
          subst (λ x. named x ≡ ok x) same₂ filled,
          full,
          sym after,
          sym given ∙ new_row ∙ ap (λ x. map_found "listing_key" (find id x.listing_locks)) after,
        ),
      )

-- The event that a call records.
abbrev pub IsLogged : ℕ → Value → Value → Value → Value → Event → Type 0
IsLogged now trade_id kind payload ts x =
    (required "tradeId is required" trade_id ≡ ok x.trade_id)
    × (required "event kind is required" kind ≡ ok x.kind)
    × ((if is_present ts then coerce_int ts else ok (num (nat now))) ≡ ok x.ts)
    × ((if is_present payload then coerce_json payload else ok null) ≡ ok x.payload_json)

pub append_event-IsLogged :
    (now : ℕ) (s t : Store) (trade_id kind payload ts : Value)
    → append_event now s trade_id kind payload ts ≡ ok t
    → (x : Event) × IsLogged now trade_id kind payload ts x
      × (t ≡ record s { events = s.events ++ x ∷ [] })
unfolding append_event
append_event-IsLogged now s t trade_id kind payload ts h =
    let (id, e₁, h₁) = >>=-eq-ok (required "tradeId is required" trade_id) _ h in
    let (k, e₂, h₂) = >>=-eq-ok (required "event kind is required" kind) _ h₁ in
    let (at, e₃, h₃) =
      >>=-eq-ok (if is_present ts then coerce_int ts else ok (num (nat now))) _ h₂ in
    let (json, e₄, h₄) =
      >>=-eq-ok (if is_present payload then coerce_json payload else ok null) _ h₃ in
    (
      record { trade_id = id; ts = at; kind = k; payload_json = json },
      (e₁, e₂, e₃, e₄),
      sym (eq_of_ok h₄),
    )

pub delete_listing_lock-removed :
    (s t : Store) (key : Value)
    → delete_listing_lock s key ≡ ok t
    → (k : Text) × (required "listingKey is required" key ≡ ok k)
      × (t ≡ record s { listing_locks = delete k s.listing_locks })
unfolding delete_listing_lock
delete_listing_lock-removed s t key h =
    let (k, e, h₁) = >>=-eq-ok (required "listingKey is required" key) _ h in
    (k, e, sym (eq_of_ok h₁))

pub delete_listing_locks_by_trade-removed :
    (s t : Store) (trade_id : Value)
    → delete_listing_locks_by_trade s trade_id ≡ ok t
    → (k : Text) × (required "tradeId is required" trade_id ≡ ok k)
      × (t ≡ record s { listing_locks = delete_where "trade_id" k s.listing_locks })
unfolding delete_listing_locks_by_trade
delete_listing_locks_by_trade-removed s t trade_id h =
    let (k, e, h₁) = >>=-eq-ok (required "tradeId is required" trade_id) _ h in
    (k, e, sym (eq_of_ok h₁))
