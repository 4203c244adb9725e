-- ===== src/Server/Connection.antt =====
-- `handle_message` and the functions that it calls in src/server.rs: one peer's messages. The
-- commands reach the routing actor in the order in which they are sent; here the actor handles each
-- at once.
pub mod Requests
use rustbond.Prelude.{ℕ, zero, suc, List, [], ◌∷◌, ◌++◌, map}
use rustbond.Types.Address.{IpNetLib, Vni, Action, add, Destination, NextHop}
use rustbond.Types.Proto.{Prost}
use rustbond.Types.Convert.{connection, Result, Done, ok, err}
use rustbond.Wire.Message.{Message}
use rustbond.Wire.Codec.{encode}
use rustbond.Wire.Framing.{and_then, process_reads}
use rustbond.Server.Channel.{Mpsc}
use rustbond.Server.Peers.{SocketAddr}
use rustbond.Server.Actor.{RoutingActor}
use rustbond.Server.Actor

-- The actor, and one peer's stream: the messages written to it, the oldest first, and how many
-- more writes succeed.
pub record Connection (N S : Type 0) : Type 0 where
  pub actor : RoutingActor N S
  pub written : List (Message N)
  pub room : ℕ

-- The routes that the answer to a subscription holds, as messages.
unfoldable pub as_updates : {N : Type 0} → Vni → List (Destination N × NextHop) → List (Message N)
as_updates vni routes = map (λ r. Message.update Action.add vni r.0 r.1) routes

module _ (lib : IpNetLib) (prost : Prost) (chan : Mpsc (Message (IpNetLib.IpNet lib))) where
  open lib use {IpNet, discrete}
  open chan use {Sender}

  unfoldable pub write_message :
      Connection IpNet Sender → Message IpNet → Connection IpNet Sender × Done
  write_message c msg = elim c.room [
    | zero ↦ (c, err connection)
    | suc n ↦ (record c { written = c.written ++ (msg ∷ []); room = n }, ok tt)
  ]

  unfoldable pub send_message :
      Connection IpNet Sender → Message IpNet → Connection IpNet Sender × Done
  unfolding write_message
  send_message c msg = elim (encode lib prost msg) [
    | err e ↦ (c, err e)
    | ok bytes ↦ write_message c msg
  ]

  -- The loop `for (dest, next_hop) in routes` of `handle_subscribe`.
  unfoldable pub send_all :
      List (Message IpNet) → Connection IpNet Sender → Connection IpNet Sender × Done
  send_all [] c = (c, ok tt)
  send_all (msg ∷ msgs) c = and_then (send_message c msg) (send_all msgs)

  unfoldable pub handle_subscribe :
      Connection IpNet Sender → SocketAddr → Vni → Connection IpNet Sender × Done
  handle_subscribe c addr vni =
      let (actor', routes) = Actor.handle_subscribe c.actor addr vni in
      send_all (as_updates vni routes) (record c { actor = actor' })

  unfoldable pub handle_message :
      SocketAddr → Connection IpNet Sender → Message IpNet → Connection IpNet Sender × Done
  unfolding handle_subscribe
  handle_message addr c (Message.hello interval is_server) = (c, ok tt)
  handle_message addr c Message.keepalive = send_message c Message.keepalive
  handle_message addr c (Message.subscribe vni) = handle_subscribe c addr vni
  handle_message addr c (Message.unsubscribe vni) =
      (record c { actor = Actor.handle_unsubscribe c.actor addr vni }, ok tt)
  handle_message addr c (Message.update action vni destination next_hop) = (
    record c {
      actor = Actor.handle_update discrete chan c.actor addr action (vni, destination, next_hop);
    },
    ok tt,
  )

  -- The loop of `handle_peer` logs an error of `handle_message` and goes on.
  unfoldable pub on_message :
      SocketAddr → Connection IpNet Sender → Message IpNet → Connection IpNet Sender × Done
  unfolding handle_message
  on_message addr c msg = ((handle_message addr c msg).0, ok tt)
