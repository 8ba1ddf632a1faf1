-- ===== src/Ln/Peers.antt =====
-- src/prompt/lnPeerGuard.js: peer addresses, the list of connected peers, and one probe of a peer.
-- What the node and the network answer is an argument.
pub mod Guard
mod Tests
use swapfloor.Common.{
  ℕ, String, Bool, true, false, not, ◌&&◌, ◌||◌, Option, none, some, List, [], ◌∷◌, length, all,
  ltb, leb, ◌==◌, if◌then◌else◌, Result, ok, err, thrown, ◌>>=◌,
}
use swapfloor.Js.Text.{has_part, Text, codes, text_eq, trim, to_lower_case, is_empty, is_hex_digit}
use swapfloor.Js.Value.{
  Number, nat, Value, undefined, null, bool, arr, Items, nil, cons, get, truthy, is_present,
  to_text, number_eq,
}
use swapfloor.Js.Convert.{to_number, normalize_hex}
use swapfloor.Js.Parse.{parse_int}
use swapfloor.Js.Reply.{Reply, answer, failure}
use swapfloor.Swap.Listings.{trimmed}

-- The parts of a text, one unit longer before the split.
longer : ℕ → Option (Text × Text) → Option (Text × Text)
longer d none = none
longer d (some (a, b)) = some (d ∷ a, b)

-- What stands before and behind the first unit of a kind.
unfoldable pub split_first : ℕ → Text → Option (Text × Text)
unfolding longer
split_first c [] = none
split_first c (d ∷ s) =
    let rest = longer d (split_first c s) in if d == c then some ([], s) else rest

last_or : Bool → ℕ → Text → Option (Text × Text) → Option (Text × Text)
unfolding longer
last_or here d s (some parts) = longer d (some parts)
last_or here d s none = if here then some ([], s) else none

-- What stands before and behind the last unit of a kind.
unfoldable pub split_last : ℕ → Text → Option (Text × Text)
unfolding last_or
split_last c [] = none
split_last c (d ∷ s) = last_or (d == c) d s (split_last c s)

-- What stands before and behind, where something stands before.
parts_of : String → Option (Text × Text) → Result (Text × Text)
parts_of message (some (c ∷ a, b)) = ok (c ∷ a, b)
parts_of message _ = err (thrown message)

pub record PeerUri : Type 0 where
  pub node_id : Text
  pub addr : Text
  pub host : Text
  pub port : ℕ

is_node_id : Text → Bool
is_node_id s = all is_hex_digit s && length s == 66

valid_port : Option Number → Result ℕ
valid_port (some (nat n)) =
    if ltb 0 n && leb n 65535 then ok n else err (thrown "peer URI port is invalid")
valid_port _ = err (thrown "peer URI port is invalid")

-- The port behind the closing bracket.
port_behind : Text → Result (Option Number)
port_behind (c ∷ s) =
    if c == b':'
    then ok (parse_int (trim s))
    else err (thrown "peer URI ipv6 address must include :port")
port_behind [] = err (thrown "peer URI ipv6 address must include :port")

bracketed : Option (Text × Text) → Result (Text × Option Number)
unfolding port_behind
bracketed none = err (thrown "peer URI ipv6 address missing closing ]")
bracketed (some (a, b)) = do port ← port_behind (trim b); ok (trim a, port)

plain : Option (Text × Text) → Result (Text × Option Number)
unfolding parts_of
plain o = do (a, b) ← parts_of "peer URI must include host:port" o; ok (trim a, parse_int (trim b))

host_and_port : Text → Result (Text × Option Number)
unfolding bracketed plain
host_and_port [] = err (thrown "peer URI missing host:port")
host_and_port (c ∷ s) =
    if c == b'[' then bracketed (split_first b']' s) else plain (split_last b':' (c ∷ s))

checked_uri : Text → Text → Text × Option Number → Result PeerUri
unfolding valid_port
checked_uri node_id addr (host, port) =
    if is_empty host then err (thrown "peer URI host is empty") else do
      p ← valid_port port
      ok (record { node_id = node_id; addr = addr; host = host; port = p })

unfoldable pub parse_peer_uri : Value → Result PeerUri
unfolding parts_of is_node_id host_and_port checked_uri
parse_peer_uri peer_raw =
    if is_empty (trimmed peer_raw) then err (thrown "peer URI is required") else do
      (before, behind) ←
          parts_of "peer URI must be nodeid@host:port" (split_first b'@' (trimmed peer_raw))
      if not (is_node_id (to_lower_case (trim before)))
          then err (thrown "peer URI nodeid must be 33-byte hex (66 chars)")
          else (host_and_port (trim behind)
              >>= checked_uri (to_lower_case (trim before)) (trim behind))

or_else : Value → Value → Value
or_else a b = if truthy a then a else b

-- A row that does not say is taken for connected.
is_connected : Value → Bool
is_connected v =
    if is_present v
    then number_eq (to_number v) (nat 1) || text_eq (to_lower_case (to_text v)) (codes "true")
    else true

row_id : Value → Text
unfolding or_else
row_id row = normalize_hex (or_else (get row "id") (or_else (get row "pub_key") (get row "pubKey")))

unfoldable pub includes : Text → List Text → Bool
includes t [] = false
includes t (s ∷ ss) = text_eq s t || includes t ss

-- `seen` are the ids so far, the last one first.
connected_ids : List Text → Items → List Text
unfolding is_node_id is_connected row_id
connected_ids seen nil = []
connected_ids seen (cons row rows) =
    let on = connected_ids (row_id row ∷ seen) rows in
    let skip = connected_ids seen rows in
    if is_node_id (row_id row)
      && is_connected (get row "connected")
      && not (includes (row_id row) seen)
    then row_id row ∷ on
    else skip

rows_of : Value → Items
rows_of (arr vs) = vs
rows_of _ = nil

unfoldable pub extract_ln_connected_peer_ids : Value → List Text
unfolding connected_ids rows_of
extract_ln_connected_peer_ids list_peers = connected_ids [] (rows_of (get list_peers "peers"))

unfoldable pub is_already_connected_msg : Text → Bool
unfolding has_part
is_already_connected_msg msg = has_part (codes "already connected") (to_lower_case (trim msg))

-- What the calls of one probe answer.
pub record Answers : Type 0 where
  pub tcp : Reply
  pub listed : Reply
  pub connected : Reply
  pub listed_after : Reply

-- The fields of the probe that the guard reads; an error that is `null` is the empty text.
pub record Probe : Type 0 where
  pub tcp_ok : Bool
  pub tcp_error : Text
  pub connected : Bool
  pub listpeers_error : Text
  pub connect_attempted : Bool
  pub connect_ok : Bool
  pub connect_error : Text
  pub connected_after : Bool

-- Whether a list of peers has a node.
lists_node : Text → Reply → Bool
lists_node node_id (answer v) = truthy v && includes node_id (extract_ln_connected_peer_ids v)
lists_node node_id (failure _) = false

error_of : Reply → Text
error_of (answer v) = []
error_of (failure e) = e

answered_ok : Reply → Bool
answered_ok (answer v) = truthy (get v "ok")
answered_ok (failure _) = false

tcp_error_of : Reply → Text
tcp_error_of (answer v) = trimmed (get v "error")
tcp_error_of (failure e) = trim e

connect_ok_of : Reply → Bool
connect_ok_of (answer _) = true
connect_ok_of (failure e) = is_already_connected_msg e

connect_error_of : Reply → Text
connect_error_of r = if connect_ok_of r then [] else error_of r

-- A connection is tried where the node is not listed and its port answers.
unfoldable pub ln_peer_probe : Text → Answers → Probe
unfolding lists_node error_of answered_ok tcp_error_of connect_ok_of connect_error_of
ln_peer_probe node_id a =
    let listed = lists_node node_id a.listed in
    let tries = not listed && answered_ok a.tcp in
    record {
      tcp_ok = answered_ok a.tcp;
      tcp_error = tcp_error_of a.tcp;
      connected = listed;
      listpeers_error = error_of a.listed;
      connect_attempted = tries;
      connect_ok = tries && connect_ok_of a.connected;
      connect_error = if tries then connect_error_of a.connected else [];
      connected_after = tries && lists_node node_id a.listed_after;
    }
