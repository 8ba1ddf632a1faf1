-- ===== src/Solana/Pool.antt =====
-- src/solana/rpcPool.js: an operation is tried on each endpoint, from the last one that answered.
use Prim.Native.String
use swapfloor.Common.{
  ℕ, zero, suc, ◌+◌, ◌%◌, String, Bool, Option, none, some, List, [], ◌∷◌, reverse, length,
  get_elem?, Result, ok, err, thrown, if◌then◌else◌, ◌==◌,
}
use swapfloor.Js.Text.{Text, trim, is_empty}
use swapfloor.Js.Value.{Value, undefined, null, arr, Items, nil, cons, to_text}

-- The texts between commas, without white space around, the empty ones left out.
keep : Text → List Text → List Text
keep t ts = if is_empty t then ts else t ∷ ts

-- `word` is the part read so far, the last unit first.
split_comma : Text → Text → List Text
unfolding keep
split_comma word [] = keep (trim (reverse word)) []
split_comma word (c ∷ s) =
    let on = split_comma (c ∷ word) s in
    let behind = split_comma [] s in if c == b',' then keep (trim (reverse word)) behind else on

trimmed_items : Items → List Text
unfolding keep
trimmed_items nil = []
trimmed_items (cons v vs) = keep (trim (to_text v)) (trimmed_items vs)

unfoldable pub split_csv : Value → List Text
unfolding split_comma trimmed_items
split_csv undefined = []
split_csv null = []
split_csv (arr vs) = trimmed_items vs
split_csv raw = split_comma [] (trim (to_text raw))

pub record SolanaRpcPool : Type 0 where
  pub urls : List Text
  pub preferred_index : ℕ

made : List Text → Result SolanaRpcPool
made [] = err (thrown "SolanaRpcPool requires at least one rpc url")
made (url ∷ urls) = ok (record { urls = url ∷ urls; preferred_index = 0 })

unfoldable pub create_pool : Value → Result SolanaRpcPool
unfolding made
create_pool rpc_urls = made (split_csv rpc_urls)

module _ {ℓ} {A : Type ℓ} (fn : Text → Result A) (label : String) (pool : SolanaRpcPool) where
  abbrev pub index_at : ℕ → ℕ
  index_at i = (pool.preferred_index + i) % length pool.urls

  -- One round: an operation that answers pins its endpoint, the failure of the last endpoint is that
  -- of the call, and any other goes on to the rest.
  abbrev pub settle : Bool → ℕ → Result A × SolanaRpcPool → Result A → Result A × SolanaRpcPool
  settle last i rest (ok res) = (ok res, record pool { preferred_index = index_at i })
  settle last i rest (err e) =
      if last then (err (thrown (String.◌++◌ label " failed")), pool) else rest

  abbrev pub visit : Bool → ℕ → Result A × SolanaRpcPool → Option Text → Result A × SolanaRpcPool
  visit last i rest none = (err (thrown "rpc url is required"), pool)
  visit last i rest (some url) = settle last i rest (fn url)

  -- The rounds that are left, and the number of the next one.
  unfoldable pub try_from : ℕ → ℕ → Result A × SolanaRpcPool
  try_from zero i = (err (thrown (String.◌++◌ label " failed")), pool)
  try_from (suc left) i =
      let rest = try_from left (suc i) in
      visit (left == 0) i rest (get_elem? pool.urls (index_at i))

  unfoldable pub call : Result A × SolanaRpcPool
  call = try_from (length pool.urls) 0
