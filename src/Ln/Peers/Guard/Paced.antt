-- ===== src/Ln/Peers/Guard/Paced.antt =====
-- How often the guard tries to reconnect.
use swapfloor.Common.{
  ℕ, suc, ◌+◌, ◌*◌, ◌≤◌, ◌≡◌, refl, sym, subst, ◌⊎◌, inl, inr, Bool, true, false, ◌||◌, some, List,
  [], ◌∷◌, arith, leb, leb→le, if◌then◌else◌, Result, ok, err,
}
use swapfloor.Js.Text.{Text}
use swapfloor.Js.Value.{str}
use swapfloor.Js.Reply.{Reply, answer, failure}
use swapfloor.Ln.Peers.{PeerUri, parse_peer_uri, Answers}
use swapfloor.Ln.Peers.Guard.{
  LnPeerGuard, Outcome, cooldown_over, after_probe, attempt, not_connected, listed_peers,
  parsed_peer, tick, connected_at, with_error,
}

-- No attempt is made.
Idle : LnPeerGuard → LnPeerGuard → Type 0
Idle g h =
    (h.reconnect_attempts ≡ g.reconnect_attempts)
    × (h.reconnect_ok + h.reconnect_fail ≡ g.reconnect_ok + g.reconnect_fail)
    × (h.last_connect_attempt_at ≡ g.last_connect_attempt_at)
    × (h.cooldown_ms ≡ g.cooldown_ms)

-- One attempt is made, which counts as a success or a failure.
Tried : ℕ → LnPeerGuard → LnPeerGuard → Type 0
Tried now g h =
    (h.reconnect_attempts ≡ suc g.reconnect_attempts)
    × (h.reconnect_ok + h.reconnect_fail ≡ suc (g.reconnect_ok + g.reconnect_fail))
    × (h.last_connect_attempt_at ≡ now)
    × (h.cooldown_ms ≡ g.cooldown_ms)

-- A tick that need not wait: it is forced, or the last one found the peer connected.
abbrev pub is_free : Bool → LnPeerGuard → Bool
is_free force g = force || g.was_connected

Moves : Bool → ℕ → LnPeerGuard → LnPeerGuard → Type 0
unfolding Idle Tried
Moves force now g h = Idle g h ⊎ (Tried now g h × ((is_free force g || cooldown_over now g) ≡ true))

-- Both answers of a test.
by_if :
    (P : LnPeerGuard → Type 0) (b : Bool) (x y : Outcome × LnPeerGuard)
    → (b ≡ true → P x.1)
    → (b ≡ false → P y.1)
    → P (if b then x else y).1
by_if P true x y f g = f refl
by_if P false x y f g = g refl

attempt-Tried :
    (now : ℕ) (node_id : Text) (a : Answers) (g : LnPeerGuard)
    → Tried now g (attempt now node_id a g).1
unfolding Tried attempt after_probe connected_at with_error
attempt-Tried now node_id a g =
    by_if (Tried now g) _ _ _ (λ _. (refl, omega arith, refl, refl))
      (λ _. (refl, omega arith, refl, refl))

not_connected-Moves :
    (force : Bool) (now : ℕ) (node_id : Text) (a : Answers) (g : LnPeerGuard)
    → Moves force now g (not_connected force now node_id a g).1
unfolding Moves Idle not_connected
not_connected-Moves force now node_id a g =
    by_if (Moves force now g) _ _ _ (λ h. inr (attempt-Tried now node_id a g, ground (arith, h)))
      (λ _. inl (refl, refl, refl, refl))

listed_peers-Moves :
    (force : Bool) (now : ℕ) (node_id : Text) (r : Reply) (a : Answers) (g : LnPeerGuard)
    → Moves force now g (listed_peers force now node_id r a g).1
unfolding Moves Idle listed_peers connected_at with_error
listed_peers-Moves force now node_id (failure e) a g = inl (refl, refl, refl, refl)
listed_peers-Moves force now node_id (answer v) a g =
    by_if (Moves force now g) _ _ _ (λ _. inl (refl, refl, refl, refl))
      (λ _. not_connected-Moves force now node_id a g)

parsed_peer-Moves :
    (force : Bool) (now : ℕ) (r : Reply) (a : Answers) (u : Result PeerUri) (g : LnPeerGuard)
    → Moves force now g (parsed_peer force now r a u g).1
unfolding Moves Idle parsed_peer with_error
parsed_peer-Moves force now r a (err e) g = inl (refl, refl, refl, refl)
parsed_peer-Moves force now r a (ok uri) g = listed_peers-Moves force now uri.node_id r a g

tick-Moves :
    (force : Bool) (now : ℕ) (r : Reply) (a : Answers) (g : LnPeerGuard)
    → Moves force now g (tick force now r a g).1
unfolding Moves Idle Tried tick
tick-Moves force now r a g =
    by_if (Moves force now g) _ _ _ (λ _. inl (refl, refl, refl, refl))
      (λ _.
        parsed_peer-Moves force now r a (parse_peer_uri (str g.peer_uri))
          (record g { ticks = suc g.ticks; last_tick_at = some now }))

-- A tick as it comes, with what it is answered.
pub record Tick : Type 0 where
  pub force : Bool
  pub now : ℕ
  pub listed : Reply
  pub answers : Answers

unfoldable pub run_ticks : List Tick → LnPeerGuard → LnPeerGuard
run_ticks [] g = g
run_ticks (t ∷ ts) g = run_ticks ts (tick t.force t.now t.listed t.answers g).1

-- The ticks of a run that need not wait.
unfoldable pub free_ticks : List Tick → LnPeerGuard → ℕ
free_ticks [] g = 0
free_ticks (t ∷ ts) g =
    (if is_free t.force g then 1 else 0) + free_ticks ts (tick t.force t.now t.listed t.answers g).1

-- The clock does not go back.
abbrev pub IsInOrder : ℕ → List Tick → Type 0
IsInOrder start [] = Unit
IsInOrder start (t ∷ ts) = (start ≤ t.now) × IsInOrder t.now ts

-- Every attempt is a success or a failure.
abbrev pub IsAccounted : LnPeerGuard → Type 0
IsAccounted g = g.reconnect_attempts ≡ g.reconnect_ok + g.reconnect_fail

tick-IsAccounted :
    (force : Bool) (now : ℕ) (r : Reply) (a : Answers) (g : LnPeerGuard)
    → IsAccounted g
    → IsAccounted (tick force now r a g).1
unfolding Moves Idle Tried
tick-IsAccounted force now r a g h = elim (tick-Moves force now r a g) [
  | inl (n, s, _, _) ↦ omega (arith, h, n, s)
  | inr ((n, s, _, _), _) ↦ omega (arith, h, n, s)
]

pub run_ticks-IsAccounted :
    (ts : List Tick) (g : LnPeerGuard) → IsAccounted g → IsAccounted (run_ticks ts g)
unfolding run_ticks
run_ticks-IsAccounted [] g h = h
run_ticks-IsAccounted (t ∷ ts) g h =
    run_ticks-IsAccounted ts (tick t.force t.now t.listed t.answers g).1
      (tick-IsAccounted t.force t.now t.listed t.answers g h)

-- From one state to a later one: the attempts times the cooldown fit into the time between the last
-- attempts and one cooldown for each free tick.
unfoldable pub Paces : ℕ → ℕ → LnPeerGuard → LnPeerGuard → Type 0
Paces c free g h =
    h.reconnect_attempts * c + g.last_connect_attempt_at
    ≤ g.reconnect_attempts * c + h.last_connect_attempt_at + free * c

-- The last attempt is not later than the clock.
abbrev pub IsBefore : ℕ → LnPeerGuard → Type 0
IsBefore now g = g.last_connect_attempt_at ≤ now

idle_paces : (c a b l m free : ℕ) → b ≡ a → m ≡ l → b * c + l ≤ a * c + m + free * c
idle_paces c a b l m free e h =
    subst (λ x. x * c + l ≤ a * c + m + free * c) (sym e) (omega (arith, h))

tried_paces :
    (free : Bool) (c a b l m now : ℕ)
    → b ≡ suc a
    → m ≡ now
    → l ≤ now
    → (free || leb (l + c) now) ≡ true
    → b * c + l ≤ a * c + m + (if free then 1 else 0) * c
tried_paces true c a b l m now e g h f =
    subst (λ x. x * c + l ≤ a * c + m + 1 * c) (sym e) (omega (arith, g, h))
tried_paces false c a b l m now e g h f =
    let waited : l + c ≤ now = leb→le (l + c) now f in
    subst (λ x. x * c + l ≤ a * c + m + 0 * c) (sym e) (omega (arith, g, waited))

tick-Paces :
    (force : Bool) (now : ℕ) (r : Reply) (a : Answers) (g : LnPeerGuard)
    → IsBefore now g
    → Paces g.cooldown_ms (if is_free force g then 1 else 0) g (tick force now r a g).1
      × IsBefore now (tick force now r a g).1
      × ((tick force now r a g).1.cooldown_ms ≡ g.cooldown_ms)
unfolding Moves Idle Tried Paces
tick-Paces force now r a g h =
    let after = (tick force now r a g).1 in
    elim (tick-Moves force now r a g) [
      | inl (n, _, l, c) ↦ (
        idle_paces g.cooldown_ms g.reconnect_attempts after.reconnect_attempts
            g.last_connect_attempt_at after.last_connect_attempt_at
            (if is_free force g then 1 else 0) n l,
        omega (arith, h, l),
        c,
      )
      | inr ((n, _, l, c), why) ↦ (
        tried_paces (is_free force g) g.cooldown_ms g.reconnect_attempts after.reconnect_attempts
            g.last_connect_attempt_at after.last_connect_attempt_at now n l h why,
        omega (arith, l),
        c,
      )
    ]

joined :
    (c a b d l m n p q : ℕ)
    → b * c + l ≤ a * c + m + p * c
    → d * c + m ≤ b * c + n + q * c
    → d * c + l ≤ a * c + n + (p + q) * c
joined c a b d l m n p q h k = omega (arith, h, k)

-- Attempts to reconnect are paced: over any run of ticks whose clock does not go back, from a last
-- attempt that is not later than its start, the attempts times the cooldown fit into the time
-- between the last attempts before and after, and one cooldown for each tick that is forced or
-- comes right after the peer was connected.
pub run_ticks-Paces :
    (ts : List Tick) (start : ℕ) (g : LnPeerGuard)
    → IsInOrder start ts
    → IsBefore start g
    → Paces g.cooldown_ms (free_ticks ts g) g (run_ticks ts g)
unfolding Paces run_ticks free_ticks
run_ticks-Paces [] start g o h = omega arith
run_ticks-Paces (t ∷ ts) start g (o, os) h =
    let next = (tick t.force t.now t.listed t.answers g).1 in
    let (pace, before, same) =
      tick-Paces t.force t.now t.listed t.answers g (omega (arith, o, h)) in
    let rest = run_ticks-Paces ts t.now next os before in
    joined g.cooldown_ms g.reconnect_attempts next.reconnect_attempts
      (run_ticks ts next).reconnect_attempts g.last_connect_attempt_at next.last_connect_attempt_at
      (run_ticks ts next).last_connect_attempt_at (if is_free t.force g then 1 else 0)
      (free_ticks ts next) pace
      (subst (λ c. Paces c (free_ticks ts next) next (run_ticks ts next)) same rest)
