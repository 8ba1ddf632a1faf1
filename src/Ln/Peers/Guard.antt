-- ===== src/Ln/Peers/Guard.antt =====
-- src/prompt/lnPeerGuard.js: `LnPeerGuard`, which reconnects a peer, at most once per cooldown.
pub mod Paced
use swapfloor.Common.{
  ℕ, suc, ◌+◌, ◌-◌, Bool, true, false, not, ◌&&◌, ◌||◌, Option, none, some, [], leb, if◌then◌else◌,
  Result, ok, err, thrown, refused, ltb,
}
use swapfloor.Js.Text.{Text, codes, is_empty, trim}
use swapfloor.Js.Value.{Value, str}
use swapfloor.Swap.Listings.{trimmed}
use swapfloor.Js.Reply.{Reply, answer, failure}
use swapfloor.Ln.Peers.{
  PeerUri, parse_peer_uri, extract_ln_connected_peer_ids, includes, Answers, Probe, ln_peer_probe,
}

pub record LnPeerGuard : Type 0 where
  pub peer_uri : Text
  pub cooldown_ms : ℕ
  pub busy : Bool
  pub was_connected : Bool
  pub last_connect_attempt_at : ℕ
  pub last_tick_at : Option ℕ
  pub last_probe : Option Probe
  pub ticks : ℕ
  pub reconnect_attempts : ℕ
  pub reconnect_ok : ℕ
  pub reconnect_fail : ℕ
  pub last_error : Text
  pub last_ok_at : Option ℕ

-- The constructor; the cooldown is at least a second, by default 45.
unfoldable pub new_guard : Value → ℕ → LnPeerGuard
new_guard peer_uri reconnect_cooldown_ms =
    let ms = if ltb 0 reconnect_cooldown_ms then reconnect_cooldown_ms else 45000 in
    record {
      peer_uri = trimmed peer_uri;
      cooldown_ms = if ltb ms 1000 then 1000 else ms;
      busy = false;
      was_connected = false;
      last_connect_attempt_at = 0;
      last_tick_at = none;
      last_probe = none;
      ticks = 0;
      reconnect_attempts = 0;
      reconnect_ok = 0;
      reconnect_fail = 0;
      last_error = [];
      last_ok_at = none;
    }

-- The `type` of the status that a tick gives.
pub data Outcome : Type 0 where
  is_busy is_ok reconnected failed is_error : Outcome
  in_cooldown : (remaining_ms : ℕ) → Outcome

text_or : Text → Text → Text
text_or s t = if is_empty s then t else s

probe_error : Probe → Text
unfolding text_or
probe_error p =
    text_or (trim p.listpeers_error)
      (text_or (trim p.connect_error) (text_or p.tcp_error (codes "probe failed")))

with_error : Text → LnPeerGuard → LnPeerGuard
with_error e g = record g { last_error = e; was_connected = false }

connected_at : ℕ → LnPeerGuard → LnPeerGuard
connected_at now g = record g { was_connected = true; last_ok_at = some now; last_error = [] }

-- After the probe of an attempt.
after_probe : ℕ → Probe → LnPeerGuard → Outcome × LnPeerGuard
unfolding connected_at with_error probe_error
after_probe now p g =
    if p.connected_after || p.connected || p.connect_ok
    then (
      reconnected,
      connected_at now (record g { last_probe = some p; reconnect_ok = suc g.reconnect_ok }),
    )
    else (
      failed,
      with_error (probe_error p)
          (record g { last_probe = some p; reconnect_fail = suc g.reconnect_fail }),
    )

-- `now - lastConnectAttemptAt >= cooldown`
abbrev pub cooldown_over : ℕ → LnPeerGuard → Bool
cooldown_over now g = leb (g.last_connect_attempt_at + g.cooldown_ms) now

attempt : ℕ → Text → Answers → LnPeerGuard → Outcome × LnPeerGuard
unfolding after_probe
attempt now node_id a g =
    after_probe now (ln_peer_probe node_id a)
      (record g { last_connect_attempt_at = now; reconnect_attempts = suc g.reconnect_attempts })

not_connected : Bool → ℕ → Text → Answers → LnPeerGuard → Outcome × LnPeerGuard
unfolding attempt
not_connected force now node_id a g =
    if force || g.was_connected || cooldown_over now g then attempt now node_id a g else (
      in_cooldown (g.last_connect_attempt_at + g.cooldown_ms - now),
      record g { was_connected = false },
    )

listed_peers : Bool → ℕ → Text → Reply → Answers → LnPeerGuard → Outcome × LnPeerGuard
unfolding connected_at with_error not_connected
listed_peers force now node_id (failure e) a g = (is_error, with_error e g)
listed_peers force now node_id (answer v) a g =
    if includes node_id (extract_ln_connected_peer_ids v)
    then (is_ok, connected_at now g)
    else not_connected force now node_id a g

message_of : Result PeerUri → Text
message_of (err (thrown m)) = codes m
message_of _ = []

parsed_peer : Bool → ℕ → Reply → Answers → Result PeerUri → LnPeerGuard → Outcome × LnPeerGuard
unfolding with_error listed_peers message_of
parsed_peer force now listed a (err e) g = (is_error, with_error (message_of (err e)) g)
parsed_peer force now listed a (ok uri) g = listed_peers force now uri.node_id listed a g

-- A tick that ends; `listed` is the list of peers that it asks for, `a` what its probe gets. A tick
-- that comes while another is under way (`busy`) does nothing.
unfoldable pub tick : Bool → ℕ → Reply → Answers → LnPeerGuard → Outcome × LnPeerGuard
unfolding parsed_peer
tick force now listed a g =
    if g.busy
    then (is_busy, g)
    else parsed_peer force now listed a (parse_peer_uri (str g.peer_uri))
        (record g { ticks = suc g.ticks; last_tick_at = some now })
