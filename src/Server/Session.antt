-- ===== src/Server/Session.antt =====
-- `handle_peer` of src/server.rs and the functions that it calls: one connection of the server. The
-- task is a state machine; an event is the outcome of what it awaits, and says how many of the
-- writes that follow succeed. The routing actor handles each command at once.
use rustbond.Prelude.{ℕ, zero, suc, List, [], ◌∷◌, ◌++◌, Bool, true, Option, none, some, min}
use rustbond.Collections.Map.{Map, insert, remove}
use rustbond.Types.Address.{IpNetLib, ConnectionState, established}
use rustbond.Types.Proto.{Prost}
use rustbond.Types.Convert.{
  protocol, connection, timeout, Error, Result, Done, ok, err, expected_hello_message,
  expected_hello, expected_keepalive,
}
use rustbond.Wire.Message.{Message}
use rustbond.Wire.Codec.{decode}
use rustbond.Wire.Framing.{process}
use rustbond.Server.Channel.{Mpsc}
use rustbond.Server.Peers.{SocketAddr, SocketAddr-discrete}
use rustbond.Server.Actor.{RoutingActor, handle_peer_connected, handle_peer_disconnected}
use rustbond.Server.Connection.{Connection, send_message, on_message}
use rustbond.Server.Batch.{collect_batch, sendable}

abbrev pub default_keepalive_interval : ℕ
default_keepalive_interval = 5

abbrev pub max_pending_messages : ℕ
max_pending_messages = 50_000

pub record ServerConfig : Type 0 where
  pub keepalive_interval : ℕ

-- `ServerConfig::default`
abbrev pub default_config : ServerConfig
default_config = record { keepalive_interval = default_keepalive_interval }

pub record PeerHandle (S : Type 0) : Type 0 where
  pub tx : S
  pub state : ConnectionState

-- `ServerState`, with the routing actor in the place of its handle.
pub record ServerState (N S : Type 0) : Type 0 where
  pub config : ServerConfig
  pub routing : RoutingActor N S
  pub peers : Map SocketAddr (PeerHandle S)

-- Where `handle_peer` waits: for the HELLO, for the KEEPALIVE with the negotiated interval, in the
-- main loop with the bytes of an incomplete message; or it has returned.
pub data Phase : Type 0 where
  waits_for_hello : Phase
  waits_for_keepalive : ℕ → Phase
  running : List ℕ → Phase
  ended : Done → Phase

-- The connection: the messages that were written to the stream, the oldest first.
pub record Session (N : Type 0) : Type 0 where
  pub phase : Phase
  pub written : List (Message N)

-- A connection that was just accepted.
abbrev pub accepted : {N : Type 0} → Session N
accepted = record { phase = waits_for_hello; written = [] }

-- What `handle_peer` awaits: a read, with the number of writes that then succeed, its failure or
-- time-out, the shutdown of the server, messages in its channel.
pub data SessionEvent (N : Type 0) : Type 0 where
  reads : List ℕ → ℕ → SessionEvent N
  read_fails times_out shuts_down : SessionEvent N
  receives : List (Message N) → ℕ → SessionEvent N

module _ (lib : IpNetLib) (prost : Prost) (chan : Mpsc (Message (IpNetLib.IpNet lib))) where
  open lib use {IpNet, discrete}
  open chan use {Sender, channel}

  -- `receive_hello`, and `receive_message_with_timeout` before its time-out, on the bytes of the one
  -- read that they make.
  unfoldable pub receive_hello : List ℕ → Result (Option (ℕ × Bool))
  receive_hello [] = ok none
  receive_hello (b ∷ bytes) = elim (decode lib prost (b ∷ bytes)) [
    | ok (msg, consumed) ↦ elim msg [
      | Message.hello interval is_server ↦ ok (some (interval, is_server))
      | _ ↦ err (protocol expected_hello_message)
    ]
    | err e ↦ err e
  ]

  unfoldable pub receive_message : List ℕ → Result (Message IpNet)
  receive_message [] = err Error.closed
  receive_message (b ∷ bytes) = elim (decode lib prost (b ∷ bytes)) [
    | ok (msg, consumed) ↦ ok msg
    | err e ↦ err e
  ]

  -- The stream and the actor, as `Connection` has them.
  abbrev pub connection_of : ServerState IpNet Sender → Session IpNet → ℕ → Connection IpNet Sender
  connection_of st s n = record { actor = st.routing; written = s.written; room = n }

  -- `PeerConnected`, and the entry in `peers`.
  unfoldable pub register : SocketAddr → ServerState IpNet Sender → ServerState IpNet Sender
  register addr st =
      let tx = channel max_pending_messages in
      record st {
        routing = handle_peer_connected st.routing addr tx;
        peers = insert SocketAddr-discrete addr (record { tx = tx; state = established }) st.peers;
      }

  -- The end of `handle_peer` after its main loop.
  unfoldable pub close :
      SocketAddr
      → ServerState IpNet Sender
      → Session IpNet
      → Done
      → ServerState IpNet Sender × Session IpNet
  close addr st s result = (
    record st {
      routing = handle_peer_disconnected discrete chan st.routing addr;
      peers = remove SocketAddr-discrete addr st.peers;
    },
    record s { phase = ended result },
  )

  -- After a write of the handshake: the next phase, or the end by `?`.
  abbrev pub answered :
      ServerState IpNet Sender
      → Session IpNet
      → Connection IpNet Sender × Done
      → Phase
      → Session IpNet
  answered st s (c, ok done) phase = record { phase = phase; written = c.written }
  answered st s (c, err e) phase = record { phase = ended (err e); written = c.written }

  -- `Wait for HELLO from client`, and the HELLO response.
  unfoldable pub on_hello :
      ServerState IpNet Sender → Session IpNet → ℕ → Result (Option (ℕ × Bool)) → Session IpNet
  on_hello st s n (err e) = record s { phase = ended (err e) }
  on_hello st s n (ok none) = record s { phase = ended (err (protocol expected_hello)) }
  on_hello st s n (ok (some (client_keepalive, is_server))) =
      let interval = st.config.keepalive_interval in
      answered st s
        (send_message lib prost chan (connection_of st s n) (Message.hello interval true))
        (waits_for_keepalive (min interval client_keepalive))

  -- `Wait for KEEPALIVE from client`, and the KEEPALIVE response; then the peer is registered.
  unfoldable pub on_keepalive :
      SocketAddr
      → ServerState IpNet Sender
      → Session IpNet
      → ℕ
      → Result (Message IpNet)
      → ServerState IpNet Sender × Session IpNet
  unfolding register
  on_keepalive addr st s n (ok Message.keepalive) =
      let (c, sent) = send_message lib prost chan (connection_of st s n) Message.keepalive in
      elim sent [
        | ok done ↦ (register addr st, record { phase = running []; written = c.written })
        | err e ↦ (st, record { phase = ended (err e); written = c.written })
      ]
  on_keepalive addr st s n (ok _) =
      (st, record s { phase = ended (err (protocol expected_keepalive)) })
  on_keepalive addr st s n (err e) = (st, record s { phase = ended (err e) })

  -- `Incoming data from peer`, of which there is some.
  unfoldable pub on_data :
      SocketAddr
      → ServerState IpNet Sender
      → Session IpNet
      → List ℕ
      → ℕ
      → ServerState IpNet Sender × Session IpNet
  unfolding close
  on_data addr st s buf n =
      let (c, left) =
        process lib prost (on_message lib prost chan addr) buf (connection_of st s n) in
      let st' = record st { routing = c.actor } in
      elim left [
        | ok rest ↦ (st', record { phase = running rest; written = c.written })
        | err e ↦ close addr st' (record s { written = c.written }) (err e)
      ]

  -- One event of the main loop.
  unfoldable pub on_event :
      SocketAddr
      → ServerState IpNet Sender
      → Session IpNet
      → List ℕ
      → SessionEvent IpNet
      → ServerState IpNet Sender × Session IpNet
  unfolding close on_data
  on_event addr st s buf shuts_down = close addr st s (ok tt)
  on_event addr st s buf times_out = close addr st s (err timeout)
  on_event addr st s buf read_fails = close addr st s (err connection)
  on_event addr st s buf (reads [] n) = close addr st s (ok tt)
  on_event addr st s buf (reads (b ∷ bytes) n) = on_data addr st s (buf ++ (b ∷ bytes)) n
  on_event addr st s buf (receives [] n) = (st, s)
  on_event addr st s buf (receives (msg ∷ queue) zero) = close addr st s (err connection)
  on_event addr st s buf (receives (msg ∷ queue) (suc n)) =
      let batch = (collect_batch msg queue).0 in
      (st, record s { written = s.written ++ sendable lib prost batch })

  -- The handshake's events, by what it waits for. The shutdown of the server is not looked at.
  unfoldable pub on_handshake :
      SocketAddr
      → ServerState IpNet Sender
      → Session IpNet
      → Option ℕ
      → SessionEvent IpNet
      → ServerState IpNet Sender × Session IpNet
  unfolding on_hello on_keepalive receive_hello receive_message
  on_handshake addr st s none (reads bytes n) = (st, on_hello st s n (receive_hello bytes))
  on_handshake addr st s (some interval) (reads bytes n) =
      on_keepalive addr st s n (receive_message bytes)
  on_handshake addr st s (some interval) times_out = (st, record s { phase = ended (err timeout) })
  on_handshake addr st s wait read_fails = (st, record s { phase = ended (err connection) })
  on_handshake addr st s wait _ = (st, s)

  -- One event of the connection, in its phase.
  unfoldable pub step_in :
      SocketAddr
      → ServerState IpNet Sender
      → Session IpNet
      → Phase
      → SessionEvent IpNet
      → ServerState IpNet Sender × Session IpNet
  unfolding on_handshake on_event
  step_in addr st s waits_for_hello e = on_handshake addr st s none e
  step_in addr st s (waits_for_keepalive interval) e = on_handshake addr st s (some interval) e
  step_in addr st s (running buf) e = on_event addr st s buf e
  step_in addr st s (ended result) e = (st, s)

  unfoldable pub step :
      SocketAddr
      → ServerState IpNet Sender
      → Session IpNet
      → SessionEvent IpNet
      → ServerState IpNet Sender × Session IpNet
  unfolding step_in
  step addr st s e = step_in addr st s s.phase e
