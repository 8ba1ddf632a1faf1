-- ===== src/Swap/Valid/Canonical.antt =====
-- The canonical texts of offers and of the application tell their parts apart.
use swapfloor.Common.{
  ℕ, Bool, true, false, not, all, length, [], ◌∷◌, ◌++◌, ok, ◌≡◌, refl, sym, ap, ◌∙◌, arith, ◌==◌,
}
use swapfloor.Js.Text.{Text, codes}
use swapfloor.Js.Value.{Value}
use swapfloor.Swap.Listings.{Listing, normalize_hex32, listing_of, listing_text, app_text}

abbrev pub has_no : ℕ → Text → Bool
has_no c s = all (λ d. not (d == c)) s

has_no_append : (c : ℕ) (xs ys : Text) → has_no c (xs ++ (c ∷ ys)) ≡ false
has_no_append c [] ys = ground arith
has_no_append c (x ∷ xs) ys = ground (arith, has_no_append c xs ys)

-- A text is split at its last separator in one way.
last_separator :
    (c : ℕ) (xs xs' ys ys' : Text)
    → has_no c ys ≡ true
    → has_no c ys' ≡ true
    → xs ++ (c ∷ ys) ≡ xs' ++ (c ∷ ys')
    → (xs ≡ xs') × (ys ≡ ys')
last_separator c [] [] ys ys' n n' h = (refl, cc)
last_separator c [] (x ∷ xs') ys ys' n n' h =
    let tail : ys ≡ xs' ++ (c ∷ ys') = cc in
    let no : has_no c ys ≡ false = ap (has_no c) tail ∙ has_no_append c xs' ys' in cc
last_separator c (x ∷ xs) [] ys ys' n n' h =
    let tail : xs ++ (c ∷ ys) ≡ ys' = cc in
    let no : has_no c ys' ≡ false = ap (has_no c) (sym tail) ∙ has_no_append c xs ys in cc
last_separator c (x ∷ xs) (x' ∷ xs') ys ys' n n' h =
    let head : x ≡ x' = cc in
    let tail : xs ++ (c ∷ ys) ≡ xs' ++ (c ∷ ys') = cc in
    let (p, q) = last_separator c xs xs' ys ys' n n' tail in (cc, q)

append_cancel :
    (xs xs' ys ys' : Text)
    → length xs ≡ length xs'
    → xs ++ ys ≡ xs' ++ ys'
    → (xs ≡ xs') × (ys ≡ ys')
append_cancel [] [] ys ys' n h = (refl, h)
append_cancel [] (x ∷ xs') ys ys' n h = absurd (omega arith)
append_cancel (x ∷ xs) [] ys ys' n h = absurd (omega arith)
append_cancel (x ∷ xs) (x' ∷ xs') ys ys' n h =
    let head : x ≡ x' = cc in
    let tail : xs ++ ys ≡ xs' ++ ys' = cc in
    let (p, q) = append_cancel xs xs' ys ys' (omega arith) tail in (cc, q)

append_assoc : (c : ℕ) (xs ys zs : Text) → (xs ++ (c ∷ ys)) ++ zs ≡ xs ++ (c ∷ (ys ++ zs))
append_assoc c [] ys zs = refl
append_assoc c (x ∷ xs) ys zs = ap (λ r. x ∷ r) (append_assoc c xs ys zs)

-- Three parts, of which the last two are free of the separator.
three_parts :
    (c : ℕ) (s s' a a' p p' : Text)
    → has_no c a ≡ true
    → has_no c a' ≡ true
    → has_no c p ≡ true
    → has_no c p' ≡ true
    → s ++ (c ∷ (a ++ (c ∷ p))) ≡ s' ++ (c ∷ (a' ++ (c ∷ p')))
    → (s ≡ s') × (a ≡ a') × (p ≡ p')
three_parts c s s' a a' p p' na na' np np' h =
    let joined = append_assoc c s a (c ∷ p) ∙ (h ∙ sym (append_assoc c s' a' (c ∷ p'))) in
    let (front, last) = last_separator c (s ++ (c ∷ a)) (s' ++ (c ∷ a')) p p' np np' joined in
    let (first, middle) = last_separator c s s' a a' na na' front in (first, middle, last)

listing_of-signer :
    (s t a p : Value) (l : Listing) → listing_of s t a p ≡ ok l → length l.signer ≡ 64
unfolding listing_of normalize_hex32
listing_of-signer s t a p l h = ground arith

-- The canonical text of an offer tells offers apart: two offers whose application hash and program
-- are free of colons have the same text only if they have the same signer, trade, application hash
-- and program, whatever stands in the trade id.
pub listing_text_injective :
    (s t a p s' t' a' p' : Value) (l l' : Listing)
    → listing_of s t a p ≡ ok l
    → listing_of s' t' a' p' ≡ ok l'
    → has_no b':' l.app_hash ≡ true
    → has_no b':' l'.app_hash ≡ true
    → has_no b':' l.program ≡ true
    → has_no b':' l'.program ≡ true
    → listing_text l ≡ listing_text l'
    → l ≡ l'
unfolding listing_text
listing_text_injective s t a p s' t' a' p' l l' h h' na na' np np' same =
    let size = listing_of-signer s t a p l h ∙ sym (listing_of-signer s' t' a' p' l' h') in
    let (prefix, behind) =
      append_cancel (codes "offer_listing_v1:") (codes "offer_listing_v1:") _ _ refl same in
    let (signers, rest) = append_cancel l.signer l'.signer _ _ size behind in
    let tail : l.trade_id ++ (b':' ∷ (l.app_hash ++ (b':' ∷ l.program)))
        ≡ l'.trade_id ++ (b':' ∷ (l'.app_hash ++ (b':' ∷ l'.program))) =
      cc in
    let (trades, hashes, programs) =
      three_parts b':' l.trade_id l'.trade_id l.app_hash l'.app_hash l.program l'.program na na' np
        np' tail in
    λ i. record {
      signer = signers i;
      trade_id = trades i;
      app_hash = hashes i;
      program = programs i;
    }

-- The canonical text of the application tells its tag and its program apart, where the programs are
-- free of semicolons.
app_text_injective :
    (tag program tag' program' : Text)
    → has_no b';' program ≡ true
    → has_no b';' program' ≡ true
    → app_text tag program ≡ app_text tag' program'
    → (tag ≡ tag') × (program ≡ program')
unfolding app_text
app_text_injective tag program tag' program' n n' same =
    let (front, last) =
      last_separator b';' (codes "app=" ++ tag) (codes "app=" ++ tag')
        (codes "solana_program=" ++ program) (codes "solana_program=" ++ program') n n' same in
    (
      (append_cancel (codes "app=") (codes "app=") tag tag' refl front).1,
      (append_cancel (codes "solana_program=") (codes "solana_program=") program program' refl
          last).1,
    )
