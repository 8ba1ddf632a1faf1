-- ===== src/Auto/Matching.antt =====
-- What `matchOfferForRfq` finds: a line of an open offer that gives what the RFQ asks for.
use swapfloor.Common.{
  ℕ, zero, suc, ◌≤◌, ◌≡◌, refl, ap, subst, true, false, ◌&&◌, Option, none, some, List, [], ◌∷◌,
  arith, get_elem?, and-left, and-right, Bool-cases, Option-cases, inl, inr, eq_of_some,
}
use swapfloor.Js.Text.{Text, text_eq, eq_of_text_eq}
use swapfloor.Js.Value.{
  Number, nat, negsuc, nan, Value, Items, nil, cons, get, is_object, number_eq,
}
use swapfloor.Swap.Envelope.{Crypto}
use swapfloor.Auto.Events.{to_int_or_null}
use swapfloor.Auto.Offers.{
  Wanted, wanted_of, max, min, window, suits, window_of, line_index, match_lines, Match, items_of,
  offer_id, is_open, found_line, match_offers,
}

abbrev pub item_at : Items → ℕ → Option Value
item_at nil j = none
item_at (cons v vs) zero = some v
item_at (cons v vs) (suc j) = item_at vs j

-- A line that gives what is asked, within a refund window that both allow.
abbrev pub Gives : Wanted → Wanted → ℕ → Type 0
Gives rfq line w =
    (line.btc_sats ≡ rfq.btc_sats)
    × (line.usdt_amount ≡ rfq.usdt_amount)
    × (line.max_platform ≤ rfq.max_platform)
    × (line.max_trade ≤ rfq.max_trade)
    × (line.max_total ≤ rfq.max_total)
    × (rfq.min_window ≤ w)
    × (w ≤ rfq.max_window)
    × (line.min_window ≤ w)
    × (w ≤ line.max_window)

eq_of_number_eq : (a b : Number) → number_eq a b ≡ true → a ≡ b
eq_of_number_eq (nat a) (nat b) h = let e : a ≡ b = ground arith in ap nat e
eq_of_number_eq (nat a) (negsuc b) h = cc
eq_of_number_eq (nat a) nan h = cc
eq_of_number_eq (negsuc a) (nat b) h = cc
eq_of_number_eq (negsuc a) (negsuc b) h = let e : a ≡ b = ground arith in ap negsuc e
eq_of_number_eq (negsuc a) nan h = cc
eq_of_number_eq nan (nat b) h = cc
eq_of_number_eq nan (negsuc b) h = cc
eq_of_number_eq nan nan h = cc

window_within :
    (a b c d : ℕ)
    → max a c ≤ min b d
    → (a ≤ window (max a c) (min b d))
      × (window (max a c) (min b d) ≤ b)
      × (c ≤ window (max a c) (min b d))
      × (window (max a c) (min b d) ≤ d)
unfolding max min window
window_within a b c d h = ground arith

suits-Gives : (rfq line : Wanted) → suits rfq line ≡ true → Gives rfq line (window_of rfq line)
unfolding suits window_of
suits-Gives rfq line h =
    let sats : number_eq line.btc_sats rfq.btc_sats ≡ true = ground arith in
    let usdt : text_eq line.usdt_amount rfq.usdt_amount ≡ true = ground arith in
    let overlap : max rfq.min_window line.min_window ≤ min rfq.max_window line.max_window =
      ground arith in
    let (w₁, w₂, w₃, w₄) =
      window_within rfq.min_window rfq.max_window line.min_window line.max_window overlap in
    (
      eq_of_number_eq line.btc_sats rfq.btc_sats sats,
      eq_of_text_eq line.usdt_amount rfq.usdt_amount usdt,
      ground arith,
      ground arith,
      ground arith,
      w₁,
      w₂,
      w₃,
      w₄,
    )

-- The line that was found_line.
unfoldable pub IsLine : Wanted → Items → ℕ → Type 0
IsLine rfq lines w =
    (j : ℕ) × (line : Value) × (item_at lines j ≡ some line)
    × (is_object line ≡ true)
    × Gives rfq (wanted_of line) w

match_lines-IsLine :
    (rfq : Wanted) (place : ℕ) (lines : Items) (w i : ℕ)
    → match_lines rfq place lines ≡ some (w, i)
    → IsLine rfq lines w
unfolding IsLine match_lines
match_lines-IsLine rfq place nil w i h = cc
match_lines-IsLine rfq place (cons line lines) w i h =
    elim (Bool-cases (is_object line && suits rfq (wanted_of line))) [
      | inl t ↦
          let index = line_index place (to_int_or_null (get line "line_index")) in
          let answer : ℕ × ℕ = (window_of rfq (wanted_of line), index) in
          let taken : some answer ≡ some (w, i) = ground (arith, h, t) in
          let same : window_of rfq (wanted_of line) ≡ w = ap (λ p. p.0) (eq_of_some taken) in
          let fits : suits rfq (wanted_of line) ≡ true =
            and-right (is_object line) (suits rfq (wanted_of line)) t in
          (
            0,
            line,
            refl,
            and-left (is_object line) (suits rfq (wanted_of line)) t,
            subst (λ x. Gives rfq (wanted_of line) x) same (suits-Gives rfq (wanted_of line) fits),
          )
      | inr f ↦
          let later : match_lines rfq (suc place) lines ≡ some (w, i) = ground (arith, h, f) in
          let (j, l, r, o, g) = match_lines-IsLine rfq (suc place) lines w i later in
          (suc j, l, r, o, g)
    ]

-- Lines of which none suits.
unfoldable pub AllUnfit : Wanted → Items → Type 0
AllUnfit rfq nil = Unit
AllUnfit rfq (cons line lines) =
    ((is_object line && suits rfq (wanted_of line)) ≡ false) × AllUnfit rfq lines

match_lines-AllUnfit :
    (rfq : Wanted) (place : ℕ) (lines : Items)
    → match_lines rfq place lines ≡ none
    → AllUnfit rfq lines
unfolding AllUnfit match_lines
match_lines-AllUnfit rfq place nil h = tt
match_lines-AllUnfit rfq place (cons line lines) h =
    elim (Bool-cases (is_object line && suits rfq (wanted_of line))) [
      | inl t ↦
          let index = line_index place (to_int_or_null (get line "line_index")) in
          let answer : ℕ × ℕ = (window_of rfq (wanted_of line), index) in
          let taken : some answer ≡ none = ground (arith, h, t) in cc
      | inr f ↦
          let later : match_lines rfq (suc place) lines ≡ none = ground (arith, h, f) in
          (f, match_lines-AllUnfit rfq (suc place) lines later)
    ]

match_lines_unfit :
    (rfq : Wanted) (place : ℕ) (lines : Items)
    → AllUnfit rfq lines
    → match_lines rfq place lines ≡ none
unfolding AllUnfit match_lines
match_lines_unfit rfq place nil h = refl
match_lines_unfit rfq place (cons line lines) (f, fs) =
    ground (arith, f, match_lines_unfit rfq (suc place) lines fs)

module _ (crypto : Crypto) (now_sec : ℕ) (channel : Text) (rfq : Wanted) where
  abbrev lines_of : Value → Items
  lines_of msg = items_of (get (get msg "body") "offers")

  -- A match that an open offer gives by one of its lines.
  unfoldable pub IsFrom : Value → Match → Type 0
  IsFrom evt m =
      (is_open crypto now_sec channel (get evt "message") ≡ true)
      × (m.offer_envelope ≡ get evt "message")
      × (m.offer_id ≡ offer_id crypto (get evt "message"))
      × IsLine rfq (lines_of (get evt "message")) m.sol_refund_window_sec

  unfoldable pub IsMatch : List Value → Match → Type 0
  IsMatch evts m = (k : ℕ) × (evt : Value) × (get_elem? evts k ≡ some evt) × IsFrom evt m

  found_line-IsFrom :
      (evt : Value) (w i : ℕ) (later : Option Match) (m : Match)
      → match_lines rfq 0 (lines_of (get evt "message")) ≡ some (w, i)
      → is_open crypto now_sec channel (get evt "message") ≡ true
      → found_line crypto (get evt "message") (some (w, i)) later ≡ some m
      → IsFrom evt m
  unfolding found_line IsFrom
  found_line-IsFrom evt w i later m e usable h =
      subst (IsFrom evt) (eq_of_some h)
        (usable, refl, refl, match_lines-IsLine rfq 0 (lines_of (get evt "message")) w i e)

  -- The same match, one offer further on.
  behind : (evt : Value) (evts : List Value) (m : Match) → IsMatch evts m → IsMatch (evt ∷ evts) m
  unfolding IsMatch
  behind evt evts m (k, e, r, f) = (suc k, e, r, f)

  pub match_offers-IsMatch :
      (evts : List Value) (m : Match)
      → match_offers crypto now_sec channel rfq evts ≡ some m
      → IsMatch evts m
  unfolding match_offers IsMatch found_line
  match_offers-IsMatch [] m h = cc
  match_offers-IsMatch (evt ∷ evts) m h =
      let rest = match_offers crypto now_sec channel rfq evts in
      elim (Bool-cases (is_open crypto now_sec channel (get evt "message"))) [
        | inl t ↦ elim (Option-cases (match_lines rfq 0 (lines_of (get evt "message")))) [
          | inl n ↦
              let later : rest ≡ some m = ground (arith, h, t, n) in
              behind evt evts m (match_offers-IsMatch evts m later)
          | inr ((w, i), e) ↦
              let here : found_line crypto (get evt "message") (some (w, i)) rest ≡ some m =
                ground (arith, h, t, e) in
              (0, evt, refl, found_line-IsFrom evt w i rest m e t here)
        ]
        | inr f ↦
            let later : rest ≡ some m = ground (arith, h, f) in
            behind evt evts m (match_offers-IsMatch evts m later)
      ]

  -- Offers of which no open one has a line that suits.
  unfoldable pub NoMatch : List Value → Type 0
  NoMatch [] = Unit
  NoMatch (evt ∷ evts) =
      (is_open crypto now_sec channel (get evt "message") ≡ true
        → AllUnfit rfq (lines_of (get evt "message")))
      × NoMatch evts

  pub match_offers-NoMatch :
      (evts : List Value) → match_offers crypto now_sec channel rfq evts ≡ none → NoMatch evts
  unfolding match_offers NoMatch found_line
  match_offers-NoMatch [] h = tt
  match_offers-NoMatch (evt ∷ evts) h =
      let rest = match_offers crypto now_sec channel rfq evts in
      elim (Bool-cases (is_open crypto now_sec channel (get evt "message"))) [
        | inl t ↦ elim (Option-cases (match_lines rfq 0 (lines_of (get evt "message")))) [
          | inl n ↦
              let later : rest ≡ none = ground (arith, h, t, n) in
              (
                λ _. match_lines-AllUnfit rfq 0 (lines_of (get evt "message")) n,
                match_offers-NoMatch evts later,
              )
          | inr ((w, i), e) ↦
              let here : found_line crypto (get evt "message") (some (w, i)) rest ≡ none =
                ground (arith, h, t, e) in
              cc
        ]
        | inr f ↦
            let later : rest ≡ none = ground (arith, h, f) in
            (λ t. cc, match_offers-NoMatch evts later)
      ]

  pub match_offers-none :
      (evts : List Value) → NoMatch evts → match_offers crypto now_sec channel rfq evts ≡ none
  unfolding match_offers NoMatch found_line
  match_offers-none [] h = refl
  match_offers-none (evt ∷ evts) (f, fs) =
      let msg = get evt "message" in
      let rest = match_offers-none evts fs in
      elim (Bool-cases (is_open crypto now_sec channel msg)) [
        | inl t ↦
            let unfit = match_lines_unfit rfq 0 (lines_of msg) (f t) in
            ground (arith, t, unfit, rest)
        | inr no_ ↦ ground (arith, no_, rest)
      ]
