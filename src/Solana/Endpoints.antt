-- ===== src/Solana/Endpoints.antt =====
-- A call over the pool reaches an endpoint that answers.
use Prim.Native.String
use native.Mathlib.Nat.{mod-lt}
use swapfloor.Common.{
  ℕ, zero, suc, ◌+◌, ◌<◌, String, Bool, true, false, some, List, [], ◌∷◌, length, get_elem?, Result,
  Error, ok, err, thrown, if◌then◌else◌, ◌≡◌, refl, sym, subst, arith, ◌==◌,
}
use swapfloor.Js.Text.{Text}
use swapfloor.Solana.Pool.{SolanaRpcPool, try_from, visit, settle, call, index_at}

get_elem-some {ℓ} :
    {A : Type ℓ} (xs : List A) (i : ℕ) → i < length xs → (x : A) × (get_elem? xs i ≡ some x)
get_elem-some [] i h = absurd (omega arith)
get_elem-some (x ∷ xs) zero h = (x, refl)
get_elem-some (x ∷ xs) (suc i) h = get_elem-some xs i (omega arith)

either {ℓ} : {A : Type ℓ} {x y : A} (b : Bool) → x ≡ y → (if b then y else x) ≡ y
either true p = refl
either false p = p

module _ {ℓ} {A : Type ℓ} (fn : Text → Result A) (label : String) (pool : SolanaRpcPool) where
  -- The call gives what an endpoint answered, and pins this endpoint.
  pub record Answered (out : Result A × SolanaRpcPool) : Type ℓ where
    pub index : ℕ
    pub url : Text
    pub res : A
    pub listed : get_elem? pool.urls index ≡ some url
    pub answered : fn url ≡ ok res
    pub outcome : out ≡ (ok res, record pool { preferred_index = index })

  try_from-fails :
      (left i : ℕ)
      → zero < length pool.urls
      → ((j : ℕ) (url : Text) → get_elem? pool.urls j ≡ some url → (e : Error) × (fn url ≡ err e))
      → try_from fn label pool left i ≡ (err (thrown (String.◌++◌ label " failed")), pool)
  unfolding try_from
  try_from-fails zero i n silent = refl
  try_from-fails (suc left) i n silent =
      let (here, listed) =
        get_elem-some pool.urls (index_at fn label pool i) (mod-lt (pool.preferred_index + i) n) in
      let (e, f) = silent (index_at fn label pool i) here listed in
      let rest = try_from fn label pool left (suc i) in
      let out : Result A × SolanaRpcPool = (err (thrown (String.◌++◌ label " failed")), pool) in
      subst (λ o. visit fn label pool (left == 0) i rest o ≡ out) (sym listed)
        (subst (λ o. settle fn label pool (left == 0) i rest o ≡ out) (sym f)
          (either (left == 0) (try_from-fails left (suc i) n silent)))

  -- Where no endpoint of a pool answers, the call fails and leaves the preferred endpoint as it was.
  pub call-fails :
      zero < length pool.urls
      → ((j : ℕ) (url : Text) → get_elem? pool.urls j ≡ some url → (e : Error) × (fn url ≡ err e))
      → call fn label pool ≡ (err (thrown (String.◌++◌ label " failed")), pool)
  unfolding call
  call-fails n silent = try_from-fails (length pool.urls) 0 n silent
