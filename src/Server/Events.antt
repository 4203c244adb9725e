-- ===== src/Server/Events.antt =====
-- The loop `run` of the routing actor of src/server.rs: its commands, one after the other, with
-- what the peers do to their channels in between.
use rustbond.Prelude.{List, [], ◌∷◌, none, some}
use rustbond.Collections.Map.{get, insert}
use rustbond.Types.Address.{Vni, Action}
use rustbond.Route.{RouteKey}
use rustbond.Wire.Message.{Message}
use rustbond.Server.Channel.{Mpsc}
use rustbond.Server.Peers.{SocketAddr, SocketAddr-discrete}
use rustbond.Server.Actor.{
  RoutingActor, handle_subscribe, handle_unsubscribe, handle_peer_connected, handle_update,
  handle_peer_disconnected,
}

-- `RoutingCommand`, and the other end of a channel at work: `receives` is no command. `GetStats`
-- changes nothing and has `stats` for its answer.
pub data Event (N S : Type 0) : Type 0 where
  peer_connected : SocketAddr → S → Event N S
  peer_disconnected : SocketAddr → Event N S
  subscribe unsubscribe : SocketAddr → Vni → Event N S
  update : SocketAddr → Action → RouteKey N → Event N S
  receives : SocketAddr → S → Event N S

-- A peer that takes messages from its channel, or closes it, leaves a sender in another state.
unfoldable pub receive : {N S : Type 0} → RoutingActor N S → SocketAddr → S → RoutingActor N S
receive a addr tx = elim (get SocketAddr-discrete addr a.peers) [
  | none ↦ a
  | some _ ↦ record a { peers = insert SocketAddr-discrete addr tx a.peers }
]

module _ {N : Type 0} (net : Discrete N) (chan : Mpsc (Message N)) where
  open chan use {Sender}

  unfoldable pub step : RoutingActor N Sender → Event N Sender → RoutingActor N Sender
  step a (peer_connected addr tx) = handle_peer_connected a addr tx
  step a (peer_disconnected addr) = handle_peer_disconnected net chan a addr
  step a (subscribe addr vni) = (handle_subscribe a addr vni).0
  step a (unsubscribe addr vni) = handle_unsubscribe a addr vni
  step a (update from action key) = handle_update net chan a from action key
  step a (receives addr tx) = receive a addr tx

  unfoldable pub run : RoutingActor N Sender → List (Event N Sender) → RoutingActor N Sender
  run a [] = a
  run a (e ∷ es) = run (step a e) es
