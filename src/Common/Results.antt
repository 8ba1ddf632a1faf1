-- ===== src/Common/Results.antt =====
-- What a fallible call of the program gives: a value, a refusal `{ ok: false, error }`, or an
-- exception.
use Prim.Native.String.{String}
use mathlib.Core.Path.{◌≡◌, refl, ap}
use mathlib.Core.Bool.{Bool, true, false}

pub data Error : Type 0 where
  refused : String → Error
  thrown : String → Error

pub data Result {ℓ} (A : Type ℓ) : Type ℓ where
  ok : A → Result A
  err : Error → Result A

module _ {ℓ} {B : Type ℓ} where
  infixl 5 ◌>>=◌ ◌>>◌
  -- The rest of a chain runs on a value alone.
  abbrev pub ◌>>=◌ {κ} : {A : Type κ} → Result A → (A → Result B) → Result B
  err x >>= rest = err x
  ok v >>= rest = rest v

  abbrev pub ◌>>◌ : Result (Unit {0}) → Result B → Result B
  err x >> rest = err x
  ok _ >> rest = rest

-- `if (!b) return { ok: false, error }`
abbrev pub guard : Bool → String → Result (Unit {0})
guard false message = err (refused message)
guard true message = ok tt

-- `if (b) { … }` around further tests.
abbrev pub when : Bool → Result (Unit {0}) → Result (Unit {0})
when true m = m
when false m = ok tt

pub eq_of_ok {ℓ} : {A : Type ℓ} {a b : A} → ok a ≡ ok b → a ≡ b
eq_of_ok {a = a} h = ap (value a) h
  where
    value : {A : Type ℓ} → A → Result A → A
    value d (ok v) = v
    value d (err e) = d

pub >>-eq-ok {ℓ} :
    {B : Type ℓ} (m : Result (Unit {0})) (k : Result B) {b : B}
    → (m >> k) ≡ ok b
    → (m ≡ ok tt) × (k ≡ ok b)
>>-eq-ok (ok tt) k h = (refl, h)
>>-eq-ok (err e) k h = cc

pub >>=-eq-ok {ℓ κ} :
    {A : Type κ} {B : Type ℓ} (m : Result A) (k : A → Result B) {b : B}
    → (m >>= k) ≡ ok b
    → (a : A) × (m ≡ ok a) × (k a ≡ ok b)
>>=-eq-ok (ok a) k h = (a, refl, h)
>>=-eq-ok (err e) k h = cc

-- One test of a chain that succeeds.
pub guard->> {ℓ} :
    {B : Type ℓ} (c : Bool) (e : String) (k : Result B) {b : B}
    → (guard c e >> k) ≡ ok b
    → (c ≡ true) × (k ≡ ok b)
guard->> true e k h = (refl, h)
guard->> false e k h = cc

-- The call ends with a value or a refusal, not by an exception.
abbrev pub Returns {ℓ} : {A : Type ℓ} → Result A → Type 0
Returns (ok _) = Unit
Returns (err (refused _)) = Unit
Returns (err (thrown _)) = ⊥

pub guard-Returns : (b : Bool) (e : String) → Returns (guard b e)
guard-Returns true e = tt
guard-Returns false e = tt

pub when-Returns : (b : Bool) (m : Result (Unit {0})) → Returns m → Returns (when b m)
when-Returns true m h = h
when-Returns false m h = tt

module _ {ℓ} {B : Type ℓ} where
  pub >>-Returns : (m : Result (Unit {0})) (k : Result B) → Returns m → Returns k → Returns (m >> k)
  >>-Returns (ok _) k a b = b
  >>-Returns (err (refused e)) k a b = tt
  >>-Returns (err (thrown e)) k a b = absurd a

  pub guard->>-Returns :
      (b : Bool) (e : String) (k : Result B) → Returns k → Returns (guard b e >> k)
  guard->>-Returns true e k h = h
  guard->>-Returns false e k h = tt

  pub when->>-Returns :
      (b : Bool) (m : Result (Unit {0})) (k : Result B)
      → Returns m
      → Returns k
      → Returns (when b m >> k)
  when->>-Returns b m k g h = >>-Returns (when b m) k (when-Returns b m g) h

pub ruleset returns = (guard-Returns, guard->>-Returns, when-Returns, when->>-Returns)
