-- ===== src/Server/Connection/Requests.antt =====
-- What the messages of one peer make of the routing actor of src/server.rs.
use rustbond.Prelude.{
  ℕ, zero, suc, ◌≡◌, refl, sym, ap, ◌∙◌, List, [], ◌∷◌, ◌++◌, map, inl, inr, All,
}
use rustbond.Types.Address.{IpNetLib, Destination, NextHop}
use rustbond.Types.Proto.{Prost}
use rustbond.Types.Convert.{Done, ok, err}
use rustbond.Wire.Message.{Message}
use rustbond.Wire.Codec.{encode}
use rustbond.Wire.Codec.RoundTrip.{IsMessage, received}
use rustbond.Wire.Framing.{and_then, process_reads, handle_all}
use rustbond.Wire.Framing.Enough.{Result-cases, and_then-ok}
use rustbond.Wire.Framing.Chunks.{joined}
use rustbond.Wire.Framing.Chunks.Stream.{encode_all, process_reads-encode_all}
use rustbond.Server.Channel.{Mpsc}
use rustbond.Server.Peers.{SocketAddr}
use rustbond.Server.Actor.{RoutingActor}
use rustbond.Server.Actor
use rustbond.Server.Events.{Event, step, run}
use rustbond.Server.Connection.{
  Connection, as_updates, write_message, send_message, send_all, handle_subscribe, handle_message,
  on_message,
}

-- The commands that a peer's messages are to the actor.
unfoldable pub commands_of : {N S : Type 0} → SocketAddr → Message N → List (Event N S)
commands_of addr (Message.subscribe vni) = Event.subscribe addr vni ∷ []
commands_of addr (Message.unsubscribe vni) = Event.unsubscribe addr vni ∷ []
commands_of addr (Message.update action vni dest hop) =
    Event.update addr action (vni, dest, hop) ∷ []
commands_of addr (Message.hello interval is_server) = []
commands_of addr Message.keepalive = []

unfoldable pub commands : {N S : Type 0} → SocketAddr → List (Message N) → List (Event N S)
unfolding commands_of
commands addr [] = []
commands addr (msg ∷ msgs) = commands_of addr msg ++ commands addr msgs

module _ (lib : IpNetLib) (prost : Prost) (chan : Mpsc (Message (IpNetLib.IpNet lib))) where
  open lib use {IpNet, discrete}
  open chan use {Sender}

  write-actor :
      (n : ℕ) (c : Connection IpNet Sender) (msg : Message IpNet)
      → c.room ≡ n
      → (write_message lib prost chan c msg).0.actor ≡ c.actor
  unfolding write_message
  write-actor zero c msg h = rw (h, write_message)
  write-actor (suc n) c msg h = rw (h, write_message)

  send-actor :
      (c : Connection IpNet Sender) (msg : Message IpNet)
      → (send_message lib prost chan c msg).0.actor ≡ c.actor
  unfolding send_message
  send-actor c msg = elim (Result-cases (encode lib prost msg)) [
    | inl (bytes, h) ↦ rw (h, send_message) (write-actor c.room c msg refl)
    | inr (e, h) ↦ rw (h, send_message)
  ]

  and_then-actor :
      (a : RoutingActor IpNet Sender) (r : Connection IpNet Sender × Done)
      (f : Connection IpNet Sender → Connection IpNet Sender × Done)
      → r.0.actor ≡ a
      → ((c : Connection IpNet Sender) → c.actor ≡ a → (f c).0.actor ≡ a)
      → (and_then r f).0.actor ≡ a
  and_then-actor a (c, ok done) f h rest = rest c h
  and_then-actor a (c, err e) f h rest = h

  send_all-actor :
      (a : RoutingActor IpNet Sender) (msgs : List (Message IpNet)) (c : Connection IpNet Sender)
      → c.actor ≡ a
      → (send_all lib prost chan msgs c).0.actor ≡ a
  unfolding send_all
  send_all-actor a [] c h = h
  send_all-actor a (msg ∷ msgs) c h =
      and_then-actor a (send_message lib prost chan c msg) (send_all lib prost chan msgs)
        (send-actor c msg ∙ h) (send_all-actor a msgs)

  run-append :
      (es fs : List (Event IpNet Sender)) (a : RoutingActor IpNet Sender)
      → run discrete chan a (es ++ fs) ≡ run discrete chan (run discrete chan a es) fs
  unfolding run
  run-append [] fs a = refl
  run-append (e ∷ es) fs a = run-append es fs (step discrete chan a e)

  pub message-actor :
      (addr : SocketAddr) (c : Connection IpNet Sender) (msg : Message IpNet)
      → (handle_message lib prost chan addr c msg).0.actor
        ≡ run discrete chan c.actor (commands_of addr msg)
  unfolding handle_message handle_subscribe commands_of run step
  message-actor addr c (Message.hello interval is_server) = refl
  message-actor addr c Message.keepalive = send-actor c Message.keepalive
  message-actor addr c (Message.subscribe vni) =
      let (actor', routes) : RoutingActor IpNet Sender × List (Destination IpNet × NextHop) =
        Actor.handle_subscribe c.actor addr vni in
      send_all-actor actor' (as_updates vni routes) (record c { actor = actor' }) refl
  message-actor addr c (Message.unsubscribe vni) = refl
  message-actor addr c (Message.update action vni dest hop) = refl

  handle_all-actor :
      (addr : SocketAddr) (msgs : List (Message IpNet)) (c : Connection IpNet Sender)
      → ((handle_all lib prost (on_message lib prost chan addr) msgs c).0.actor
          ≡ run discrete chan c.actor (commands addr msgs))
        × ((handle_all lib prost (on_message lib prost chan addr) msgs c).1 ≡ ok tt)
  unfolding handle_all on_message commands run
  handle_all-actor addr [] c = (refl, refl)
  handle_all-actor addr (msg ∷ msgs) c =
      let next = (handle_message lib prost chan addr c msg).0 in
      let (same, done) = handle_all-actor addr msgs next in
      (
        same
            ∙ ap (λ a. run discrete chan a (commands addr msgs)) (message-actor addr c msg)
            ∙ sym (run-append (commands_of addr msg) (commands addr msgs) c.actor),
        done,
      )

  -- However the network splits a peer's messages, each within the ranges of its types, the routing
  -- actor handles exactly the commands that they are as the server sees them, a target VNI of 0
  -- being seen as none, in their order, whether or not the answers can be written, and nothing is
  -- left in the peer's buffer.
  pub process_reads-commands :
      (addr : SocketAddr) (msgs : List (Message IpNet)) (chunks : List (List ℕ))
      (c : Connection IpNet Sender)
      → All (IsMessage lib prost) msgs
      → encode_all lib prost msgs ≡ ok (joined chunks)
      → let after = process_reads lib prost (on_message lib prost chan addr) chunks [] c in
        (after.0.actor ≡ run discrete chan c.actor (commands addr (map (received lib prost) msgs)))
        × (after.1 ≡ ok [])
  process_reads-commands addr msgs chunks c i made =
      let handle = on_message lib prost chan addr in
      let seen = map (received lib prost) msgs in
      let (same, done) = handle_all-actor addr seen c in
      rw (process_reads-encode_all lib prost handle msgs chunks c i made) (
        rw (and_then-ok {A = List ℕ} (handle_all lib prost handle seen c) (λ s. (s, ok [])) done)
          (same, refl))
