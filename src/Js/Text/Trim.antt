-- ===== src/Js/Text/Trim.antt =====
-- `trim` and `toLowerCase` leave a text alone that they have worked on before.
use mathlib.Core.List.{reverse_aux, reverse-append, reverse-reverse}
use swapfloor.Common.{
  ℕ, ◌≡◌, refl, sym, ap, ◌∙◌, subst, Bool, true, false, [], ◌∷◌, ◌++◌, map, reverse, arith, all,
  if◌then◌else◌, and-left, and-right,
}
use swapfloor.Js.Text.{
  Text, trim, trim_start, is_space, to_lower_case, lower_unit, is_digit, is_hex_digit,
}

-- Empty, or no white space at the head.
abbrev Solid : Text → Type 0
Solid [] = Unit
Solid (c ∷ s) = is_space c ≡ false

trim_start-Solid : (s : Text) → Solid (trim_start s)
unfolding trim_start
trim_start-Solid [] = tt
trim_start-Solid (c ∷ s) = ground (arith, trim_start-Solid s)

trim_start_keeps : (s : Text) → Solid s → trim_start s ≡ s
unfolding trim_start
trim_start_keeps [] h = refl
trim_start_keeps (c ∷ s) h = ground arith

suffix_step :
    (b : Bool) (c : ℕ) (s p r : Text)
    → s ≡ p ++ r
    → (x : Text) × (c ∷ s ≡ x ++ (if b then r else c ∷ s))
suffix_step true c s p r h = (c ∷ p, ap (λ u. c ∷ u) h)
suffix_step false c s p r h = ([], refl)

trim_start_suffix : (s : Text) → (p : Text) × (s ≡ p ++ trim_start s)
unfolding trim_start
trim_start_suffix [] = ([], refl)
trim_start_suffix (c ∷ s) =
    let (p, h) = trim_start_suffix s in suffix_step (is_space c) c s p (trim_start s) h

Solid-append : (s t : Text) → Solid (s ++ t) → Solid s
Solid-append [] t h = tt
Solid-append (c ∷ s) t h = h

pub trim-trim : (s : Text) → trim (trim s) ≡ trim s
unfolding trim
trim-trim s =
    let t = trim_start s in
    let e : trim_start (reverse t) ≡ reverse (trim s) =
      sym (reverse-reverse (trim_start (reverse t))) in
    let (p, q) = trim_start_suffix (reverse t) in
    let split : t ≡ trim s ++ reverse p =
      sym (reverse-reverse t) ∙ ap reverse q ∙ reverse-append p (trim_start (reverse t)) in
    let head : Solid (trim s) =
      Solid-append (trim s) (reverse p) (subst Solid split (trim_start-Solid s)) in
    let last : Solid (reverse (trim s)) = subst Solid e (trim_start-Solid (reverse t)) in
    ap (λ u. reverse (trim_start (reverse u))) (trim_start_keeps (trim s) head)
    ∙ ap reverse (trim_start_keeps (reverse (trim s)) last)
    ∙ reverse-reverse (trim s)

hex_solid : (c : ℕ) → is_hex_digit c ≡ true → is_space c ≡ false
unfolding is_hex_digit is_digit is_space
hex_solid c h = ground arith

hex_lower : (c : ℕ) → is_hex_digit c ≡ true → lower_unit c ≡ c
unfolding is_hex_digit is_digit lower_unit
hex_lower c h = ground arith

all-Solid : (s : Text) → all is_hex_digit s ≡ true → Solid s
all-Solid [] h = tt
all-Solid (c ∷ s) h = hex_solid c (and-left (is_hex_digit c) (all is_hex_digit s) h)

all-reverse_aux :
    (s t : Text)
    → all is_hex_digit s ≡ true
    → all is_hex_digit t ≡ true
    → all is_hex_digit (reverse_aux s t) ≡ true
all-reverse_aux [] t h g = g
all-reverse_aux (c ∷ s) t h g =
    let head = and-left (is_hex_digit c) (all is_hex_digit s) h in
    all-reverse_aux s (c ∷ t) (and-right (is_hex_digit c) (all is_hex_digit s) h)
      (ground (arith, head, g))

pub trim_hex : (s : Text) → all is_hex_digit s ≡ true → trim s ≡ s
unfolding trim
trim_hex s h =
    ap (λ u. reverse (trim_start (reverse u))) (trim_start_keeps s (all-Solid s h))
    ∙ ap reverse
        (trim_start_keeps (reverse s) (all-Solid (reverse s) (all-reverse_aux s [] h refl)))
    ∙ reverse-reverse s

pub to_lower_case_hex : (s : Text) → all is_hex_digit s ≡ true → to_lower_case s ≡ s
unfolding to_lower_case
to_lower_case_hex [] h = refl
to_lower_case_hex (c ∷ s) h =
    let head = hex_lower c (and-left (is_hex_digit c) (all is_hex_digit s) h) in
    ap (λ u. u ∷ map lower_unit s) head
    ∙ ap (λ u. c ∷ u) (to_lower_case_hex s (and-right (is_hex_digit c) (all is_hex_digit s) h))
