-- ===== src/Receipts/Writing.antt =====
-- The calls of the store that change it, as data, and sequences of them.
use swapfloor.Common.{ℕ, List, [], ◌∷◌, Result, ok, err, ◌>>=◌}
use swapfloor.Js.Value.{Value}
use swapfloor.Receipts.Store.{
  Store, upsert_trade, append_event, upsert_listing_lock, delete_listing_lock,
  delete_listing_locks_by_trade,
}

pub data Write : Type 0 where
  to_trade to_lock : (created now : ℕ) (name patch : Value) → Write
  an_event : (now : ℕ) (trade_id kind payload ts : Value) → Write
  no_lock no_locks_of : Value → Write

unfoldable pub run : Write → Store → Result Store
run (to_trade created now name patch) s = do (t, _) ← upsert_trade created now s name patch; ok t
run (to_lock created now name patch) s = do
  (t, _) ← upsert_listing_lock created now s name patch
  ok t
run (an_event now trade_id kind payload ts) s = append_event now s trade_id kind payload ts
run (no_lock key) s = delete_listing_lock s key
run (no_locks_of trade_id) s = delete_listing_locks_by_trade s trade_id

-- A call that throws leaves the store as it was.
abbrev pub kept_store : Store → Result Store → Store
kept_store s (ok t) = t
kept_store s (err _) = s

unfoldable pub run_all : List Write → Store → Store
unfolding run
run_all [] s = s
run_all (w ∷ ws) s = run_all ws (kept_store s (run w s))

-- The store of a new file.
unfoldable pub empty_store : Store
empty_store = record { trades = []; events = []; listing_locks = [] }
