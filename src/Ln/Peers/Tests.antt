-- ===== src/Ln/Peers/Tests.antt =====
-- Peer addresses and a guard at work, and the theorems at concrete data.
use swapfloor.Common.{ℕ, ◌≡◌, refl, true, false, List, [], ◌∷◌, ok, err, thrown, arith, ◌++◌}
use swapfloor.Js.Text.{
  Text, codes, trim, to_lower_case, text_eq, is_digit, is_hex_digit, digits_value, decimal,
}
use swapfloor.Js.Value.{Value, str, obj, end, field, bool, arr, cons, nil, get, lookup, to_text}
use swapfloor.Js.Convert.{to_number, normalize_hex}
use swapfloor.Js.Parse.{parse_int}
use swapfloor.Swap.Listings.{trimmed}
use swapfloor.Js.Reply.{answer, failure}
use swapfloor.Ln.Peers.{
  parse_peer_uri, split_first, split_last, extract_ln_connected_peer_ids, includes, answer, failure,
  Answers, ln_peer_probe, is_already_connected_msg,
}
use swapfloor.Ln.Peers.Guard.{LnPeerGuard, new_guard, tick, in_cooldown}
use swapfloor.Ln.Peers.Guard.Paced.{Tick, run_ticks, free_ticks, Paces, run_ticks-Paces}

abbrev node : Text
node = codes "03864ef025fde8fb587d989186ce6a4a186895ee44a926bfc370e2c366597a3f8f"

abbrev uri : Text
uri = node ++ codes "@3.33.236.230:9735"

-- Opens addresses and the guard in the declarations that name it.
unfoldable guard_open : Unit {0}
unfolding parse_peer_uri split_first split_last extract_ln_connected_peer_ids includes ln_peer_probe
    is_already_connected_msg new_guard tick run_ticks free_ticks trim to_lower_case text_eq is_digit
    is_hex_digit digits_value decimal get lookup to_text to_number normalize_hex parse_int trimmed
guard_open = tt

reads_uri :
    parse_peer_uri (str uri)
    ≡ ok (record {
      node_id = node;
      addr = codes "3.33.236.230:9735";
      host = codes "3.33.236.230";
      port = 9735;
    })
unfolding guard_open
reads_uri = refl

no_port :
    parse_peer_uri (str (node ++ codes "@localhost"))
    ≡ err (thrown "peer URI must include host:port")
unfolding guard_open
no_port = refl

abbrev peers : Value
peers = obj (
    field "peers" (arr (cons (obj (field "id" (str node) (field "connected" (bool true) end))) nil))
      end)

abbrev nobody : Value
nobody = obj (field "peers" (arr nil) end)

abbrev down : Answers
down = record {
  tcp = failure (codes "timeout");
  listed = answer nobody;
  connected = answer nobody;
  listed_after = answer nobody;
}

abbrev at : ℕ → Value → Tick
at now listed = record { force = false; now = now; listed = answer listed; answers = down }

abbrev start : LnPeerGuard
start = new_guard (str uri) 0

-- An attempt, a tick in the cooldown, a connected tick, and an attempt at once after the connection
-- is lost.
abbrev ticks : List Tick
ticks = at 100000 nobody ∷ at 115000 nobody ∷ at 120000 peers ∷ at 121000 nobody ∷ []

abbrev begun : LnPeerGuard
begun = (tick false 50000 (answer nobody) down start).1

waits : (tick false 60000 (answer nobody) down begun).0 ≡ in_cooldown 35000
unfolding guard_open
waits = refl

counts : (run_ticks ticks begun).reconnect_attempts ≡ 3
unfolding guard_open
counts = refl

run_ticks-Paces_example : Paces 45000 (free_ticks ticks begun) begun (run_ticks ticks begun)
unfolding guard_open
run_ticks-Paces_example =
    run_ticks-Paces ticks 60000 begun (omega arith, (omega arith, (omega arith, (omega arith, tt))))
      (omega arith)
