-- ===== src/Auto/Intake/Once.antt =====
-- An event is taken once in the time for which its key is remembered.
use swapfloor.Common.{
  ℕ, ◌+◌, ◌≤◌, ◌<◌, ◌≡◌, refl, Bool, true, false, List, [], ◌∷◌, ◌++◌, arith, if◌then◌else◌, ◌⊎◌,
  inl, inr, Bool-cases,
}
use swapfloor.Js.Text.{Text, text_eq, is_empty}
use swapfloor.Js.Value.{Value}
use swapfloor.Auto.Events.{event_dedup_key}
use swapfloor.Auto.Intake.{
  Intake, seen_at, set_seen, is_known, take_event, take_events, append_events,
}
use swapfloor.Auto.Intake.Keys.{
  count, count-append, count-keep_last, seen_at-set_seen_same, seen_at-set_seen_other,
  is_empty_same, is_known_same,
}

-- At most one event has the key, and if one has, the key was seen from a time on.
IsOnce : Text → ℕ → List Value → List (Text × ℕ) → Type 0
IsOnce k start events seen =
    (count k events ≤ 1) × ((count k events ≡ 0) ⊎ (start ≤ seen_at k seen))

-- Another key
pushed-IsOnce_other :
    (k : Text) (start now : ℕ) (e : Value) (events : List Value) (seen : List (Text × ℕ))
    → text_eq (event_dedup_key e) k ≡ false
    → IsOnce k start events seen
    → IsOnce k start (events ++ e ∷ []) seen
      × IsOnce k start (events ++ e ∷ []) (set_seen (event_dedup_key e) now seen)
unfolding IsOnce count
pushed-IsOnce_other k start now e events seen other (one, old) = ground (
  arith,
  other,
  count-append k events (e ∷ []),
  seen_at-set_seen_other k (event_dedup_key e) now seen other,
  one,
  old,
)

pushed-IsOnce_same :
    (k : Text) (start now : ℕ) (e : Value) (events : List Value) (seen : List (Text × ℕ))
    → text_eq (event_dedup_key e) k ≡ true
    → start ≤ now
    → count k events ≡ 0
    → IsOnce k start (events ++ e ∷ []) (set_seen (event_dedup_key e) now seen)
unfolding IsOnce count
pushed-IsOnce_same k start now e events seen eq before none = ground (
  arith,
  eq,
  none,
  before,
  count-append k events (e ∷ []),
  seen_at-set_seen_same k (event_dedup_key e) now seen eq,
)

if_either :
    {A : Type 0} (P : A → Type 0) (b : Bool) (x y : A)
    → (b ≡ true → P x)
    → (b ≡ false → P y)
    → P (if b then x else y)
if_either P true x y p q = p refl
if_either P false x y p q = q refl

OnceIn : Text → ℕ → Intake → Type 0
unfolding IsOnce
OnceIn k start s = IsOnce k start s.events s.seen

pushed : ℕ → Value → Intake → Intake
pushed now e s = record {
  events = s.events ++ e ∷ [];
  seen = set_seen (event_dedup_key e) now s.seen;
}

same_key-OnceIn :
    (k : Text) (start max_age now : ℕ) (e : Value) (s : Intake)
    → is_empty k ≡ false
    → 0 < start
    → start ≤ now
    → now ≤ start + max_age
    → text_eq (event_dedup_key e) k ≡ true
    → OnceIn k start s
    → OnceIn k start (take_event max_age now e s)
unfolding take_event OnceIn IsOnce pushed
same_key-OnceIn k start max_age now e s named p before after eq (one, old) =
    let key = event_dedup_key e in
    let keyed = is_empty_same k key named eq in
    let unkeyed : Intake = record s { events = s.events ++ e ∷ [] } in
    let known = is_known max_age now key s.seen in
    if_either (OnceIn k start) (is_empty key) unkeyed (if known then s else pushed now e s)
      (λ empty. ground (arith, keyed, empty))
      (λ _.
        if_either (OnceIn k start) known s (pushed now e s) (λ _. (one, old))
          (λ unknown. elim old [
            | inl none ↦ pushed-IsOnce_same k start now e s.events s.seen eq before none
            | inr from ↦
                ground
                  (arith, unknown, is_known_same k key start max_age now s.seen p after from eq)
          ]))

other_key-OnceIn :
    (k : Text) (start max_age now : ℕ) (e : Value) (s : Intake)
    → text_eq (event_dedup_key e) k ≡ false
    → OnceIn k start s
    → OnceIn k start (take_event max_age now e s)
unfolding take_event OnceIn IsOnce pushed
other_key-OnceIn k start max_age now e s other once =
    let key = event_dedup_key e in
    let unkeyed : Intake = record s { events = s.events ++ e ∷ [] } in
    let known = is_known max_age now key s.seen in
    let (kept, set) = pushed-IsOnce_other k start now e s.events s.seen other once in
    if_either (OnceIn k start) (is_empty key) unkeyed (if known then s else pushed now e s)
      (λ _. kept) (λ _. if_either (OnceIn k start) known s (pushed now e s) (λ _. once) (λ _. set))

take_events-OnceIn :
    (k : Text) (start max_age now : ℕ) (es : List Value) (s : Intake)
    → is_empty k ≡ false
    → 0 < start
    → start ≤ now
    → now ≤ start + max_age
    → OnceIn k start s
    → OnceIn k start (take_events max_age now es s)
unfolding take_events
take_events-OnceIn k start max_age now [] s named p before after once = once
take_events-OnceIn k start max_age now (e ∷ es) s named p before after once =
    let next = take_event max_age now e s in
    take_events-OnceIn k start max_age now es next named p before after
      (elim (Bool-cases (text_eq (event_dedup_key e) k)) [
        | inl eq ↦ same_key-OnceIn k start max_age now e s named p before after eq once
        | inr other ↦ other_key-OnceIn k start max_age now e s other once
      ])

-- Batches of events with the times at which they come.
unfoldable pub append_all : ℕ → ℕ → List (ℕ × List Value) → Intake → Intake
append_all events_max max_age [] s = s
append_all events_max max_age ((now, es) ∷ batches) s =
    append_all events_max max_age batches (append_events events_max max_age now es s)

abbrev pub AllWithin : ℕ → ℕ → List (ℕ × List Value) → Type 0
AllWithin start max_age [] = Unit
AllWithin start max_age ((now, es) ∷ batches) =
    (start ≤ now) × (now ≤ start + max_age) × AllWithin start max_age batches

append_events-OnceIn :
    (k : Text) (events_max start max_age now : ℕ) (es : List Value) (s : Intake)
    → is_empty k ≡ false
    → 0 < start
    → start ≤ now
    → now ≤ start + max_age
    → OnceIn k start s
    → OnceIn k start (append_events events_max max_age now es s)
unfolding append_events OnceIn IsOnce
append_events-OnceIn k events_max start max_age now es s named p before after once =
    let (one, old) = take_events-OnceIn k start max_age now es s named p before after once in
    ground (arith, one, old, count-keep_last k events_max (take_events max_age now es s).events)

append_all-OnceIn :
    (k : Text) (events_max start max_age : ℕ) (batches : List (ℕ × List Value)) (s : Intake)
    → is_empty k ≡ false
    → 0 < start
    → AllWithin start max_age batches
    → OnceIn k start s
    → OnceIn k start (append_all events_max max_age batches s)
unfolding append_all
append_all-OnceIn k events_max start max_age [] s named p w once = once
append_all-OnceIn k events_max start max_age ((now, es) ∷ batches) s named p (b, a, w) once =
    append_all-OnceIn k events_max start max_age batches (append_events events_max max_age now es s)
      named p w (append_events-OnceIn k events_max start max_age now es s named p b a once)

-- An event is taken once: over any batches of events whose times lie within the age of the memory
-- of keys, from a positive time on, without pruning between them, and from a state with no event
-- of a key that is not empty, at most one event of this key is kept.
pub append_all-count :
    (k : Text) (events_max start max_age : ℕ) (batches : List (ℕ × List Value)) (s : Intake)
    → is_empty k ≡ false
    → 0 < start
    → AllWithin start max_age batches
    → count k s.events ≡ 0
    → count k (append_all events_max max_age batches s).events ≤ 1
unfolding OnceIn IsOnce
append_all-count k events_max start max_age batches s named p w none =
    let (one, _) =
      append_all-OnceIn k events_max start max_age batches s named p w
        (omega (arith, none), inl none) in
    one
