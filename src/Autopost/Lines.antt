-- ===== src/Autopost/Lines.antt =====
-- The index that a line gets is one that no line before it has.
pub mod Numbered
use text.Mathlib.Text.{◌==◌ as str_eq}
use swapfloor.Common.{
  ℕ, zero, suc, ◌+◌, ◌≤◌, ◌≡◌, refl, sym, ap, ◌∙◌, subst, Bool, true, false, ◌||◌, List, [], ◌∷◌,
  length, arith, leb, ◌==◌, ==_iff, if◌then◌else◌, Bool-cases, inl, inr,
}
use swapfloor.Js.Text.{Text}
use swapfloor.Js.Value.{
  Number, nat, negsuc, nan, Value, undefined, null, bool, num, str, arr, obj, Items, nil, cons,
  Fields, lookup, strict_eq,
}
use swapfloor.Js.Convert.{to_number}
use swapfloor.Swap.Envelope.{put}
use swapfloor.Receipts.Patch.{lookup-put}
use swapfloor.Autopost.{
  has_index, next_free, index_of, with_index, assign_indices, stated_index, counts, less_one,
  unfilled, prune_offers, amounts_key,
}

-- How many indices are not below a number.
count_from : ℕ → List ℕ → ℕ
count_from n [] = 0
count_from n (m ∷ ms) = (if leb n m then 1 else 0) + count_from n ms

count_from-length : (n : ℕ) (ms : List ℕ) → count_from n ms ≤ length ms
unfolding count_from
count_from-length n [] = omega arith
count_from-length n (m ∷ ms) = ground (arith, count_from-length n ms)

count_from-suc : (n : ℕ) (ms : List ℕ) → count_from (suc n) ms ≤ count_from n ms
unfolding count_from
count_from-suc n [] = omega arith
count_from-suc n (m ∷ ms) = ground (arith, count_from-suc n ms)

-- An index that is there is counted.
count_from_has :
    (n : ℕ) (ms : List ℕ) → has_index n ms ≡ true → suc (count_from (suc n) ms) ≤ count_from n ms
unfolding count_from has_index
count_from_has n [] h = cc
count_from_has n (m ∷ ms) h = ground (arith, h, count_from_has n ms, count_from-suc n ms)

next_free_unused :
    (fuel : ℕ) (seen : List ℕ) (idx : ℕ)
    → count_from idx seen ≤ fuel
    → has_index (next_free fuel seen idx) seen ≡ false
unfolding next_free
next_free_unused zero seen idx h = elim (Bool-cases (has_index idx seen)) [
  | inl t ↦ absurd (omega (arith, h, count_from_has idx seen t))
  | inr f ↦ f
]
next_free_unused (suc fuel) seen idx h = elim (Bool-cases (has_index idx seen)) [
  | inl t ↦
      let later =
        next_free_unused fuel seen (suc idx) (omega (arith, h, count_from_has idx seen t)) in
      ground (arith, t, later)
  | inr f ↦ ground (arith, f)
]

index_of_unused :
    (place : ℕ) (seen : List ℕ) (line : Fields) → has_index (index_of place seen line) seen ≡ false
unfolding index_of
index_of_unused place seen line =
    let free = next_free_unused (length seen) seen place (count_from-length place seen) in
    ground (arith, free)

number_of_eq : (v : Value) (n : ℕ) → strict_eq v (num (nat n)) ≡ true → v ≡ num (nat n)
unfolding strict_eq
number_of_eq (num (nat m)) n h = ap (λ x. num (nat x)) ((==_iff m n).0 h)
number_of_eq (num (negsuc m)) n h = cc
number_of_eq (num nan) n h = cc
number_of_eq undefined n h = cc
number_of_eq null n h = cc
number_of_eq (bool true) n h = cc
number_of_eq (bool false) n h = cc
number_of_eq (str t) n h = cc
number_of_eq (arr vs) n h = cc
number_of_eq (obj fs) n h = cc

lookup-with_index : (n : ℕ) (line : Fields) → lookup "line_index" (with_index n line) ≡ num (nat n)
unfolding with_index
lookup-with_index n line = elim (Bool-cases (strict_eq (lookup "line_index" line) (num (nat n)))) [
  | inl t ↦ let same = number_of_eq (lookup "line_index" line) n t in ground (arith, t, same)
  | inr f ↦ let e = lookup-put "line_index" "line_index" (num (nat n)) line in ground (arith, f, e)
]
