-- ===== src/Peer/Session.antt =====
-- `PeerState`, `peer_task` and `run_connection` of src/peer.rs. The task is a state machine whose
-- state is the connection's; an event is the outcome of what the task awaits, and says how many of
-- the writes that follow succeed.
use rustbond.Prelude.{
  ◌+◌, ◌-◌, ◌%◌, ◌≤◌, arith, ℕ, zero, suc, ite, List, [], ◌∷◌, ◌++◌, map, Option, none, some,
}
use rustbond.Collections.Set.{Set}
use rustbond.Types.Address.{
  Vni, Action, IpNetLib, ConnectionState, ConnectionState-discrete, connecting, retry, closed,
}
use rustbond.Types.Proto.{Prost}
use rustbond.Types.Convert.{
  Error, protocol, connection, Result, Done, ok, err, expected_hello_message,
}
use rustbond.Route.{RouteTable, Route, RouteKey, get_all_routes, remove_vni, clear}
use rustbond.Handler.{notify}
use rustbond.Wire.Message.{Message}
use rustbond.Wire.Codec.{decode, encode}
use rustbond.Wire.Framing.{and_then}
use rustbond.Peer.Received.{Received, nothing_received}

abbrev pub default_keepalive_interval : ℕ
default_keepalive_interval = 5

abbrev pub retry_interval_min : ℕ
retry_interval_min = 5

abbrev pub retry_interval_max : ℕ
retry_interval_max = 10

-- The delay before the next attempt, in seconds, from a random number.
unfoldable pub retry_delay : ℕ → ℕ
retry_delay random = retry_interval_min + random % (retry_interval_max - retry_interval_min + 1)

pub retry_delay_bounds :
    (random : ℕ)
    → (retry_interval_min ≤ retry_delay random) × (retry_delay random ≤ retry_interval_max)
unfolding retry_delay
retry_delay_bounds random = (omega arith, omega arith)

pub data PeerCommand (N : Type 0) : Type 0 where
  subscribe unsubscribe : Vni → PeerCommand N
  send_update : Message N → PeerCommand N
  shutdown : PeerCommand N

-- `PeerState` and the variables of `peer_task` and `run_connection`. `written` are the messages on
-- the connection, the oldest first, and `room` is how many writes will succeed; `negotiated` is the
-- keepalive interval of the last connection, in seconds.
pub record Peer (N : Type 0) : Type 0 where
  pub state : ConnectionState
  pub subscriptions : Set Vni
  pub received : Received N
  pub msg_buf : List ℕ
  pub written : List (Message N)
  pub room : ℕ
  pub negotiated : ℕ

-- `PeerState::new`, and `peer_task` at its start.
abbrev pub new : {N : Type 0} → Peer N
new = record {
  state = connecting;
  subscriptions = [];
  received = nothing_received;
  msg_buf = [];
  written = [];
  room = 0;
  negotiated = default_keepalive_interval;
}

abbrev pub set_state : {N : Type 0} → ConnectionState → Peer N → Peer N
set_state state p = record p { state = state }

-- What `peer_task` and `run_connection` await: `TcpStream::connect`, a read of the stream, its
-- failure or time-out, the keepalive timer, a command, the end of the delay before a retry.
pub data Event (N : Type 0) : Type 0 where
  connects : ℕ → Event N
  connect_fails : Event N
  reads : List ℕ → ℕ → Event N
  read_fails times_out : Event N
  ticks : ℕ → Event N
  receives : PeerCommand N → ℕ → Event N
  delay_ends : Event N

-- The keys of a table's routes, and those of the routes of one VNI.
abbrev pub keys_of : {N : Type 0} → List (Vni × Route N) → List (RouteKey N)
keys_of routes = map (λ e. (e.0, e.1.destination, e.1.next_hop)) routes

abbrev pub keys_in : {N : Type 0} → Vni → List (Route N) → List (RouteKey N)
keys_in vni routes = map (λ r. (vni, r.destination, r.next_hop)) routes

module _ {N : Type 0} where
  -- `Clear received routes on disconnect` in `peer_task`.
  unfoldable pub clear_received : Received N → Received N
  clear_received r = record {
    received_routes = clear r.received_routes;
    calls = notify (keys_of (get_all_routes r.received_routes)) r.calls;
  }

  -- `PeerCommand::Unsubscribe`: the routes of the VNI are removed.
  unfoldable pub remove_received_vni : Vni → Received N → Received N
  remove_received_vni vni r =
      let (routes', removed) = remove_vni r.received_routes vni in
      record { received_routes = routes'; calls = notify (keys_in vni removed) r.calls }

  -- `peer_task` after `run_connection` has returned, whatever it returned.
  unfoldable pub after_connection : Peer N → Peer N
  unfolding clear_received
  after_connection p =
      ite (ConnectionState-discrete p.state closed) p
        (record p { state = retry; received = clear_received p.received })

  -- An error in `run_connection` ends it.
  abbrev pub settle : Peer N × Done → Peer N
  settle (p, ok done) = p
  settle (p, err e) = after_connection p

  -- `Re-subscribe to VNIs and re-announce routes`: the messages.
  unfoldable pub resubscribe : Set Vni → List (Message N)
  resubscribe subscriptions = map (λ vni. Message.subscribe vni) subscriptions

  unfoldable pub reannounce : RouteTable N → List (Message N)
  reannounce announced =
      map (λ e. Message.update Action.add e.0 e.1.destination e.1.next_hop)
        (get_all_routes announced)

module _ (lib : IpNetLib) (prost : Prost) where
  open lib use {IpNet, discrete}

  -- `write_all` of the bytes of a message.
  unfoldable pub write_message : Peer IpNet → Message IpNet → Peer IpNet × Done
  write_message p msg = elim p.room [
    | zero ↦ (p, err connection)
    | suc n ↦ (record p { written = p.written ++ (msg ∷ []); room = n }, ok tt)
  ]

  unfoldable pub send_message : Peer IpNet → Message IpNet → Peer IpNet × Done
  unfolding write_message
  send_message p msg = elim (encode lib prost msg) [
    | err e ↦ (p, err e)
    | ok bytes ↦ write_message p msg
  ]

  unfoldable pub send_all : List (Message IpNet) → Peer IpNet → Peer IpNet × Done
  send_all [] p = (p, ok tt)
  send_all (msg ∷ msgs) p = and_then (send_message p msg) (send_all msgs)

  -- `receive_hello`, and `receive_message_with_timeout` before its time-out, on the bytes of the one
  -- read that they make.
  unfoldable pub receive_hello : List ℕ → Result (Option ℕ)
  receive_hello [] = ok none
  receive_hello (b ∷ bytes) = elim (decode lib prost (b ∷ bytes)) [
    | ok (msg, consumed) ↦ elim msg [
      | Message.hello interval is_server ↦ ok (some interval)
      | _ ↦ err (protocol expected_hello_message)
    ]
    | err e ↦ err e
  ]

  unfoldable pub receive_message : List ℕ → Result (Message IpNet)
  receive_message [] = err Error.closed
  receive_message (b ∷ bytes) = elim (decode lib prost (b ∷ bytes)) [
    | ok (msg, consumed) ↦ ok msg
    | err e ↦ err e
  ]
