-- ===== src/Auto/Intake/Keys.antt =====
-- The keys of the events that were taken, and the times at which they were seen.
use swapfloor.Common.{
  ℕ, ◌+◌, ◌≤◌, ◌<◌, ◌≡◌, ap, ◌∙◌, true, false, List, [], ◌∷◌, ◌++◌, arith, if◌then◌else◌,
}
use swapfloor.Js.Text.{Text, text_eq, is_empty, text_eq_refl, eq_of_text_eq}
use swapfloor.Js.Value.{Value}
use swapfloor.Auto.Events.{event_dedup_key}
use swapfloor.Auto.Intake.{seen_at, set_seen, is_known, keep_last}

-- How many of the events have a key.
unfoldable pub count : Text → List Value → ℕ
count k [] = 0
count k (e ∷ es) = (if text_eq (event_dedup_key e) k then 1 else 0) + count k es

pub count-append : (k : Text) (es ds : List Value) → count k (es ++ ds) ≡ count k es + count k ds
unfolding count
count-append k [] ds = omega arith
count-append k (e ∷ es) ds = omega (arith, count-append k es ds)

pub count-keep_last : (k : Text) (n : ℕ) (es : List Value) → count k (keep_last n es) ≤ count k es
unfolding count keep_last
count-keep_last k n [] = omega arith
count-keep_last k n (e ∷ es) = ground (arith, count-keep_last k n es)

seen_at-set_seen : (k : Text) (n : ℕ) (seen : List (Text × ℕ)) → seen_at k (set_seen k n seen) ≡ n
unfolding seen_at set_seen
seen_at-set_seen k n [] = ground (arith, text_eq_refl k)
seen_at-set_seen k n ((j, t) ∷ seen) = ground (arith, seen_at-set_seen k n seen)

pub seen_at-set_seen_other :
    (k j : Text) (n : ℕ) (seen : List (Text × ℕ))
    → text_eq j k ≡ false
    → seen_at k (set_seen j n seen) ≡ seen_at k seen
unfolding seen_at set_seen
seen_at-set_seen_other k j n [] h = ground (arith, h)
seen_at-set_seen_other k j n ((i, t) ∷ seen) h =
    ground (arith, h, eq_of_text_eq i j, seen_at-set_seen_other k j n seen h)

pub seen_at-set_seen_same :
    (k j : Text) (n : ℕ) (seen : List (Text × ℕ))
    → text_eq j k ≡ true
    → seen_at k (set_seen j n seen) ≡ n
seen_at-set_seen_same k j n seen h =
    ap (λ i. seen_at k (set_seen i n seen)) (eq_of_text_eq j k h) ∙ seen_at-set_seen k n seen

pub is_empty_same : (k j : Text) → is_empty k ≡ false → text_eq j k ≡ true → is_empty j ≡ false
is_empty_same k j named h = ap is_empty (eq_of_text_eq j k h) ∙ named

pub is_known_same :
    (k j : Text) (start max_age now : ℕ) (seen : List (Text × ℕ))
    → 0 < start
    → now ≤ start + max_age
    → start ≤ seen_at k seen
    → text_eq j k ≡ true
    → is_known max_age now j seen ≡ true
unfolding is_known
is_known_same k j start max_age now seen p after old h =
    ap (λ i. is_known max_age now i seen) (eq_of_text_eq j k h) ∙ ground arith
