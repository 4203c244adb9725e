-- ===== src/Handshake/Sides.antt =====
-- The steps of the two sides of the handshake of src/peer.rs and src/server.rs, when each reads one
-- whole message and the writes succeed.
use rustbond.Prelude.{
  ℕ, suc, ◌≡◌, ◌<◌, ◌^◌, refl, sym, ap, ◌∙◌, Bool, true, false, List, [], ◌∷◌, ◌++◌, some, arith,
  length, min,
}
use mathlib.Core.List.{append-nil}
use rustbond.Types.Address.{IpNetLib, connecting, hello_sent, hello_received}
use rustbond.Types.Proto.{Prost}
use rustbond.Types.Convert.{ok}
use rustbond.Route.{RouteTable}
use rustbond.Wire.Message.{Message}
use rustbond.Wire.Codec.{encode, decode}
use rustbond.Wire.Codec.RoundTrip.{IsMessage, received, decode-encode, encode_lem}
use rustbond.Server.Channel.{Mpsc}
use rustbond.Server.Peers.{SocketAddr}
use rustbond.Server.Connection.{Connection, write_message, send_message}
use rustbond.Server.Session.{
  ServerState, Session, accepted, running, waits_for_keepalive, register, on_hello, on_keepalive,
  on_handshake, step_in,
}
use rustbond.Server.Session
use rustbond.Peer.Session.{
  Peer, connects, reads, settle, set_state, resubscribe, reannounce, default_keepalive_interval,
}
use rustbond.Peer.Session as PeerSession
use rustbond.Peer.Task
use rustbond.Peer.Task.{
  start, establish, on_keepalive as peer_on_keepalive, on_hello as peer_on_hello,
}
use rustbond.Peer.Resume.{send-written}

module _ (lib : IpNetLib) (prost : Prost) where
  open lib use {IpNet}

  -- One read that has a whole message.
  whole_message :
      (msg : Message IpNet) (buf : List ℕ)
      → IsMessage lib prost msg
      → encode lib prost msg ≡ ok buf
      → decode lib prost buf ≡ ok (received lib prost msg, length buf)
  whole_message msg buf i made =
      ap (decode lib prost) (sym (append-nil buf)) ∙ decode-encode lib prost msg buf [] i made

  -- The client's side.
  module _ (announced : RouteTable IpNet) where
    pub peer_connects :
        (p : Peer IpNet) (n : ℕ)
        → p.state ≡ connecting
        → Task.step lib prost announced p (connects (suc n)) ≡ record p {
          state = hello_sent;
          written = Message.hello default_keepalive_interval false ∷ [];
          room = n;
        }
    unfolding Task.step Task.start
    peer_connects p n h =
        let msg : Message IpNet = Message.hello default_keepalive_interval false in
        let p' : Peer IpNet = record p { written = []; room = suc n } in
        rw (Task.step, h) (rw (send-written lib prost p' msg n (omega arith) refl, Task.start) refl)

    heard_hello :
        (buf : List ℕ) (interval : ℕ) (is_server : Bool) (n : ℕ)
        → decode lib prost buf ≡ ok (Message.hello interval is_server, n)
        → PeerSession.receive_hello lib prost buf ≡ ok (some interval)
    unfolding PeerSession.receive_hello decode
    heard_hello [] interval is_server n h = ground (arith, h)
    heard_hello (b ∷ bytes) interval is_server n h = rw (PeerSession.receive_hello, h) refl

    heard_message :
        (buf : List ℕ) (msg : Message IpNet) (n : ℕ)
        → decode lib prost buf ≡ ok (msg, n)
        → PeerSession.receive_message lib prost buf ≡ ok msg
    unfolding PeerSession.receive_message decode
    heard_message [] msg n h = ground (arith, h)
    heard_message (b ∷ bytes) msg n h = rw (PeerSession.receive_message, h) refl

    pub peer_hears_hello :
        (p : Peer IpNet) (buf : List ℕ) (interval n : ℕ)
        → p.state ≡ hello_sent
        → interval < 2 ^ 32
        → encode lib prost (Message.hello interval true) ≡ ok buf
        → Task.step lib prost announced p (reads buf (suc n)) ≡ record p {
          state = hello_received;
          written = p.written ++ (Message.keepalive ∷ []);
          room = n;
          negotiated = min default_keepalive_interval interval;
        }
    unfolding Task.step Task.on_hello
    peer_hears_hello p buf interval n h i made =
        let p' : Peer IpNet = record p {
          state = hello_received;
          room = suc n;
          negotiated = min default_keepalive_interval interval;
        } in
        let heard =
          heard_hello buf interval true _
            (whole_message (Message.hello interval true) buf i made) in
        rw (Task.step, h, heard)
          (rw (send-written lib prost p' Message.keepalive n tt refl, Task.on_hello) refl)

    pub peer_hears_keepalive :
        (p : Peer IpNet) (buf : List ℕ) (n : ℕ)
        → p.state ≡ hello_received
        → encode lib prost Message.keepalive ≡ ok buf
        → Task.step lib prost announced p (reads buf n)
          ≡ settle (establish lib prost announced (record p { room = n }))
    unfolding Task.step Task.on_keepalive
    peer_hears_keepalive p buf n h made =
        let heard =
          heard_message buf Message.keepalive _ (whole_message Message.keepalive buf tt made) in
        rw (Task.step, h, heard) refl

  -- The server's side.
  module _ (chan : Mpsc (Message IpNet)) where
    open chan use {Sender}

    server_send-written :
        (c : Connection IpNet Sender) (msg : Message IpNet) (n : ℕ)
        → IsMessage lib prost msg
        → c.room ≡ suc n
        → send_message lib prost chan c msg
          ≡ (record c { written = c.written ++ (msg ∷ []); room = n }, ok tt)
    unfolding send_message write_message
    server_send-written c msg n i h =
        let (bytes, made, low, high) = encode_lem lib prost msg i in
        rw (made, h, send_message, write_message)

    got_hello :
        (buf : List ℕ) (interval : ℕ) (is_server : Bool) (n : ℕ)
        → decode lib prost buf ≡ ok (Message.hello interval is_server, n)
        → Session.receive_hello lib prost chan buf ≡ ok (some (interval, is_server))
    unfolding Session.receive_hello decode
    got_hello [] interval is_server n h = ground (arith, h)
    got_hello (b ∷ bytes) interval is_server n h = rw (Session.receive_hello, h) refl

    got_message :
        (buf : List ℕ) (msg : Message IpNet) (n : ℕ)
        → decode lib prost buf ≡ ok (msg, n)
        → Session.receive_message lib prost chan buf ≡ ok msg
    unfolding Session.receive_message decode
    got_message [] msg n h = ground (arith, h)
    got_message (b ∷ bytes) msg n h = rw (Session.receive_message, h) refl

    pub server_hears_hello :
        (addr : SocketAddr) (st : ServerState IpNet Sender) (buf : List ℕ) (interval n : ℕ)
        → interval < 2 ^ 32
        → st.config.keepalive_interval < 2 ^ 32
        → encode lib prost (Message.hello interval false) ≡ ok buf
        → Session.step lib prost chan addr st accepted (Session.reads buf (suc n)) ≡ (
          st,
          record {
            phase = waits_for_keepalive (min st.config.keepalive_interval interval);
            written = Message.hello st.config.keepalive_interval true ∷ [];
          },
        )
    unfolding Session.step step_in on_handshake Session.on_hello
    server_hears_hello addr st buf interval n i own made =
        let s : Session IpNet = accepted in
        let reply : Message IpNet = Message.hello st.config.keepalive_interval true in
        let c = Session.connection_of lib prost chan st s (suc n) in
        let heard =
          got_hello buf interval false _
            (whole_message (Message.hello interval false) buf i made) in
        rw heard (rw (server_send-written c reply n own refl) refl)

    pub server_hears_keepalive :
        (addr : SocketAddr) (st : ServerState IpNet Sender) (s : Session IpNet) (interval : ℕ)
        (buf : List ℕ) (n : ℕ)
        → s.phase ≡ waits_for_keepalive interval
        → encode lib prost Message.keepalive ≡ ok buf
        → Session.step lib prost chan addr st s (Session.reads buf (suc n)) ≡ (
          register lib prost chan addr st,
          record { phase = running []; written = s.written ++ (Message.keepalive ∷ []) },
        )
    unfolding Session.step step_in on_handshake Session.on_keepalive
    server_hears_keepalive addr st s interval buf n h made =
        let c = Session.connection_of lib prost chan st s (suc n) in
        let written = server_send-written c Message.keepalive n tt refl in
        let welcomed : List (Message IpNet) → ServerState IpNet Sender × Session IpNet =
          λ w. (register lib prost chan addr st, record { phase = running []; written = w }) in
        let heard =
          got_message buf Message.keepalive _ (whole_message Message.keepalive buf tt made) in
        rw (h, step_in, heard)
          (rw (on_keepalive, written) (ap welcomed (ap (λ r. r.0.written) written)))
