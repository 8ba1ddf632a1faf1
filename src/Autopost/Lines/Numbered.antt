-- ===== src/Autopost/Lines/Numbered.antt =====
-- The lines of an offer that is posted have indices of their own, and keep them.
use swapfloor.Common.{
  ℕ, suc, ◌≡◌, refl, ap, ◌∙◌, true, false, List, [], ◌∷◌, length, arith, ==_iff, if◌then◌else◌,
}
use swapfloor.Js.Text.{Text}
use swapfloor.Js.Value.{
  nat, undefined, null, bool, num, str, arr, obj, Items, nil, cons, Fields, lookup, strict_eq,
}
use swapfloor.Js.Convert.{to_number}
use swapfloor.Autopost.{
  has_index, next_free, index_of, with_index, assign_indices, stated_index, counts, less_one,
  unfilled, prune_offers, amounts_key,
}
use swapfloor.Autopost.Lines.{index_of_unused, lookup-with_index}

-- Each line that is an object has a whole number for its index, which no line before it has.
abbrev pub IsNumbered : List ℕ → Items → Type 0
IsNumbered seen nil = Unit
IsNumbered seen (cons (obj line) lines) =
    (n : ℕ) × (lookup "line_index" line ≡ num (nat n))
    × (has_index n seen ≡ false)
    × IsNumbered (n ∷ seen) lines
IsNumbered seen (cons v lines) = IsNumbered seen lines

assign_indices-IsNumbered :
    (place : ℕ) (seen : List ℕ) (lines : Items) → IsNumbered seen (assign_indices place seen lines)
unfolding assign_indices
assign_indices-IsNumbered place seen nil = tt
assign_indices-IsNumbered place seen (cons (obj line) lines) =
    let idx = index_of place seen line in
    (
      idx,
      lookup-with_index idx line,
      index_of_unused place seen line,
      assign_indices-IsNumbered (suc place) (idx ∷ seen) lines,
    )
assign_indices-IsNumbered place seen (cons undefined lines) =
    assign_indices-IsNumbered (suc place) seen lines
assign_indices-IsNumbered place seen (cons null lines) =
    assign_indices-IsNumbered (suc place) seen lines
assign_indices-IsNumbered place seen (cons (bool b) lines) =
    assign_indices-IsNumbered (suc place) seen lines
assign_indices-IsNumbered place seen (cons (num n) lines) =
    assign_indices-IsNumbered (suc place) seen lines
assign_indices-IsNumbered place seen (cons (str t) lines) =
    assign_indices-IsNumbered (suc place) seen lines
assign_indices-IsNumbered place seen (cons (arr vs) lines) =
    assign_indices-IsNumbered (suc place) seen lines

index_of_kept :
    (place n : ℕ) (seen : List ℕ) (line : Fields)
    → lookup "line_index" line ≡ num (nat n)
    → has_index n seen ≡ false
    → index_of place seen line ≡ n
unfolding index_of stated_index to_number
index_of_kept place n seen line e f =
    let stated : stated_index place (to_number (lookup "line_index" line)) ≡ n =
      ap (λ v. stated_index place (to_number v)) e in
    ap (λ i. if has_index i seen then next_free (length seen) seen place else i) stated
    ∙ ap (λ b. if b then next_free (length seen) seen place else n) f

with_index_kept :
    (n : ℕ) (line : Fields) → lookup "line_index" line ≡ num (nat n) → with_index n line ≡ line
unfolding with_index strict_eq
with_index_kept n line e =
    let same : strict_eq (lookup "line_index" line) (num (nat n)) ≡ true =
      ap (λ v. strict_eq v (num (nat n))) e ∙ (==_iff n n).1 refl in
    ground (arith, same)

-- Numbered lines stay as they are.
assign_indices_kept :
    (place : ℕ) (seen : List ℕ) (lines : Items)
    → IsNumbered seen lines
    → assign_indices place seen lines ≡ lines
unfolding assign_indices
assign_indices_kept place seen nil h = refl
assign_indices_kept place seen (cons (obj line) lines) (n, e, f, more) =
    let own = index_of_kept place n seen line e f in
    ap (λ i. cons (obj (with_index i line)) (assign_indices (suc place) (i ∷ seen) lines)) own
    ∙ ap (λ l. cons (obj l) (assign_indices (suc place) (n ∷ seen) lines))
        (with_index_kept n line e)
    ∙ ap (cons (obj line)) (assign_indices_kept (suc place) (n ∷ seen) lines more)
assign_indices_kept place seen (cons undefined lines) h =
    ap (cons undefined) (assign_indices_kept (suc place) seen lines h)
assign_indices_kept place seen (cons null lines) h =
    ap (cons null) (assign_indices_kept (suc place) seen lines h)
assign_indices_kept place seen (cons (bool b) lines) h =
    ap (cons (bool b)) (assign_indices_kept (suc place) seen lines h)
assign_indices_kept place seen (cons (num n) lines) h =
    ap (cons (num n)) (assign_indices_kept (suc place) seen lines h)
assign_indices_kept place seen (cons (str t) lines) h =
    ap (cons (str t)) (assign_indices_kept (suc place) seen lines h)
assign_indices_kept place seen (cons (arr vs) lines) h =
    ap (cons (arr vs)) (assign_indices_kept (suc place) seen lines h)

-- With fewer lines before.
IsNumbered-fewer :
    (seen fewer : List ℕ) (lines : Items)
    → ((n : ℕ) → has_index n seen ≡ false → has_index n fewer ≡ false)
    → IsNumbered seen lines
    → IsNumbered fewer lines
unfolding has_index
IsNumbered-fewer seen fewer nil h _ = tt
IsNumbered-fewer seen fewer (cons (obj line) lines) h (n, e, f, more) = (
  n,
  e,
  h n f,
  IsNumbered-fewer (n ∷ seen) (n ∷ fewer) lines (λ m g. ground (arith, g, h m)) more,
)
IsNumbered-fewer seen fewer (cons undefined lines) h more = IsNumbered-fewer seen fewer lines h more
IsNumbered-fewer seen fewer (cons null lines) h more = IsNumbered-fewer seen fewer lines h more
IsNumbered-fewer seen fewer (cons (bool b) lines) h more = IsNumbered-fewer seen fewer lines h more
IsNumbered-fewer seen fewer (cons (num n) lines) h more = IsNumbered-fewer seen fewer lines h more
IsNumbered-fewer seen fewer (cons (str t) lines) h more = IsNumbered-fewer seen fewer lines h more
IsNumbered-fewer seen fewer (cons (arr vs) lines) h more = IsNumbered-fewer seen fewer lines h more

IsNumbered-behind :
    (n : ℕ) (seen : List ℕ) (lines : Items) → IsNumbered (n ∷ seen) lines → IsNumbered seen lines
unfolding has_index
IsNumbered-behind n seen lines = IsNumbered-fewer (n ∷ seen) seen lines (λ m g. ground (arith, g))

-- Taking lines away leaves the others numbered.
unfilled-IsNumbered :
    (filled : List Text) (seen : List ℕ) (lines : Items)
    → IsNumbered seen lines
    → IsNumbered seen (unfilled filled lines)
unfolding unfilled
unfilled-IsNumbered filled seen nil h = tt
unfilled-IsNumbered filled seen (cons (obj line) lines) (n, e, f, more) =
    let gone = IsNumbered-behind n seen lines more in
    elim (counts (amounts_key (obj line)) filled)
      as (λ b. IsNumbered seen (
        if b
        then unfilled (less_one (amounts_key (obj line)) filled) lines
        else cons (obj line) (unfilled filled lines))) [
          | true ↦ unfilled-IsNumbered (less_one (amounts_key (obj line)) filled) seen lines gone
          | false ↦ (n, e, f, unfilled-IsNumbered filled (n ∷ seen) lines more)
        ]
unfilled-IsNumbered filled seen (cons undefined lines) h = unfilled-IsNumbered filled seen lines h
unfilled-IsNumbered filled seen (cons null lines) h = unfilled-IsNumbered filled seen lines h
unfilled-IsNumbered filled seen (cons (bool b) lines) h = unfilled-IsNumbered filled seen lines h
unfilled-IsNumbered filled seen (cons (num n) lines) h = unfilled-IsNumbered filled seen lines h
unfilled-IsNumbered filled seen (cons (str t) lines) h = unfilled-IsNumbered filled seen lines h
unfilled-IsNumbered filled seen (cons (arr vs) lines) h = unfilled-IsNumbered filled seen lines h

prune_offers-IsNumbered :
    (filled : List Text) (lines : Items)
    → IsNumbered [] lines
    → IsNumbered [] (prune_offers filled lines)
unfolding prune_offers
prune_offers-IsNumbered [] lines h = h
prune_offers-IsNumbered (k ∷ ks) lines h = unfilled-IsNumbered (k ∷ ks) [] lines h

-- The lines of an offer that are numbered and then pruned, by any filled trades, have whole
-- numbers as their indices, each its own, where the lines are objects; and numbering the lines
-- that are left changes nothing.
pub assign_indices-prune_offers :
    (filled : List Text) (lines : Items)
    → IsNumbered [] (prune_offers filled (assign_indices 0 [] lines))
      × (assign_indices 0 [] (prune_offers filled (assign_indices 0 [] lines))
          ≡ prune_offers filled (assign_indices 0 [] lines))
assign_indices-prune_offers filled lines =
    let left =
      prune_offers-IsNumbered filled (assign_indices 0 [] lines)
        (assign_indices-IsNumbered 0 [] lines) in
    (left, assign_indices_kept 0 [] (prune_offers filled (assign_indices 0 [] lines)) left)
