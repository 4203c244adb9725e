-- ===== src/Handshake/Established.antt =====
-- The handshake of src/peer.rs and src/server.rs as a whole.

use rustbond.Prelude.{
  ℕ, suc, ◌+◌, ◌≡◌, ◌<◌, ◌^◌, refl, ap, true, false, List, [], ◌∷◌, ◌++◌, arith, length, All, min,
}
use rustbond.Types.Address.{IpNetLib, connecting, hello_sent, hello_received, established}
use rustbond.Types.Proto.{Prost}
use rustbond.Types.Convert.{ok}
use rustbond.Route.{RouteTable}
use rustbond.Wire.Message.{Message}
use rustbond.Wire.Codec.{encode}
use rustbond.Wire.Codec.RoundTrip.{IsMessage}
use rustbond.Server.Channel.{Mpsc}
use rustbond.Server.Peers.{SocketAddr}
use rustbond.Server.Session.{
  ServerState, Session, Phase, accepted, running, waits_for_keepalive, register,
}
use rustbond.Server.Session
use rustbond.Peer.Session.{
  Peer, connects, reads, resubscribe, reannounce, default_keepalive_interval,
}
use rustbond.Peer.Task
use rustbond.Peer.Resume.{establish_lem}
use rustbond.Handshake.Sides.{
  peer_connects, peer_hears_hello, peer_hears_keepalive, server_hears_hello, server_hears_keepalive,
}

min_swap : (a b : ℕ) → min a b ≡ min b a
min_swap a b = omega arith

-- How the two sides end; `s` is the server's side after the HELLOs.
pub record IsEstablished {N S : Type 0} (p p' : Peer N) (announced : RouteTable N) (interval : ℕ)
    (s : Session N) (st' : ServerState N S) (s' : Session N) (registered : ServerState N S)
    : Type 0 where
  pub peer_state : p'.state ≡ established
  pub peer_keeps : (p'.subscriptions ≡ p.subscriptions) × (p'.received ≡ p.received)
  pub peer_written :
      p'.written
      ≡ Message.hello default_keepalive_interval false
        ∷ Message.keepalive
        ∷ (resubscribe p.subscriptions ++ reannounce announced)
  pub same_interval : s.phase ≡ waits_for_keepalive p'.negotiated
  pub interval_lem : p'.negotiated ≡ min default_keepalive_interval interval
  pub phase : s'.phase ≡ running []
  pub server_written : s'.written ≡ Message.hello interval true ∷ Message.keepalive ∷ []
  pub server_state : st' ≡ registered

module _ (lib : IpNetLib) (prost : Prost) (chan : Mpsc (Message (IpNetLib.IpNet lib))) where
  open lib use {IpNet}
  open chan use {Sender}

  -- If each side reads the other's message in one piece and the writes succeed, the handshake is
  -- done after two messages from each: both use the smaller of their keepalive intervals, the peer
  -- is established and has sent its subscriptions and its announced routes again, which are within
  -- the ranges of their types, and the server has registered the peer and is in its main loop.
  pub handshake_lem :
      (announced : RouteTable IpNet) (p : Peer IpNet) (addr : SocketAddr)
      (st : ServerState IpNet Sender) (hello answer keepalive : List ℕ) (n k left : ℕ)
      → p.state ≡ connecting
      → st.config.keepalive_interval < 2 ^ 32
      → All (IsMessage lib prost) (resubscribe p.subscriptions ++ reannounce announced)
      → encode lib prost (Message.hello default_keepalive_interval false) ≡ ok hello
      → encode lib prost (Message.hello st.config.keepalive_interval true) ≡ ok answer
      → encode lib prost Message.keepalive ≡ ok keepalive
      → let again = length (resubscribe p.subscriptions ++ reannounce announced) + left in
        let p₁ = Task.step lib prost announced p (connects (suc n)) in
        let (st₁, s₁) =
          Session.step lib prost chan addr st accepted (Session.reads hello (suc k)) in
        let p₂ = Task.step lib prost announced p₁ (reads answer (suc n)) in
        let (st₂, s₂) = Session.step lib prost chan addr st₁ s₁ (Session.reads keepalive (suc k)) in
        let p₃ = Task.step lib prost announced p₂ (reads keepalive again) in
        IsEstablished p p₃ announced st.config.keepalive_interval s₁ st₂ s₂
          (register lib prost chan addr st)
  unfolding resubscribe reannounce
  handshake_lem announced p addr st hello answer keepalive n k left h own i made₁ made₂ made₃ =
      let p₁ = peer_connects lib prost announced p n h in
      let s₁ =
        server_hears_hello lib prost chan addr st hello default_keepalive_interval k (omega arith)
          own made₁ in
      let p₂ =
        peer_hears_hello lib prost announced
          (record p {
            state = hello_sent;
            written = Message.hello default_keepalive_interval false ∷ [];
            room = n;
          })
          answer st.config.keepalive_interval n refl own made₂ in
      let s₂ =
        server_hears_keepalive lib prost chan addr st
          (record {
            phase =
                waits_for_keepalive (min st.config.keepalive_interval default_keepalive_interval);
            written = Message.hello st.config.keepalive_interval true ∷ [];
          })
          _ keepalive k refl made₃ in
      let again = length (resubscribe p.subscriptions ++ reannounce announced) + left in
      let last : Peer IpNet = record p {
        state = hello_received;
        written = Message.hello default_keepalive_interval false ∷ Message.keepalive ∷ [];
        room = n;
        negotiated = min default_keepalive_interval st.config.keepalive_interval;
      } in
      let p₃ = peer_hears_keepalive lib prost announced last keepalive again refl made₃ in
      let done = establish_lem lib prost announced (record last { room = again }) left i refl in
      rw (p₁, s₁, p₂, s₂, p₃, done)
        (record {
          peer_state = refl;
          peer_keeps = (refl, refl);
          peer_written = refl;
          same_interval = ap waits_for_keepalive (min_swap _ _);
          interval_lem = refl;
          phase = refl;
          server_written = refl;
          server_state = refl;
        })
