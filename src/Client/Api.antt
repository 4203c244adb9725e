-- ===== src/Client/Api.antt =====
-- `MetalBondClient` of src/client.rs: its state, and its commands to the peers of all servers.
pub mod Announce
pub mod Subscribe
use rustbond.Prelude.{
  ℕ, suc, ite, Bool, true, false, not, ◌&&◌, ◌||◌, List, [], ◌∷◌, ◌++◌, length, ◌==◌, if◌then◌else◌,
  ℕ_discrete,
}
use rustbond.Collections.Set.{Set}
use rustbond.Collections.Set
use rustbond.Collections.Map.{Map}
use rustbond.Types.Address.{
  Vni, Action, Destination, NextHop, ConnectionState, ConnectionState-discrete, established, closed,
}
use rustbond.Types.Convert.{
  Error, Done, ok, err, not_established, route_already_announced, route_not_found,
}
use rustbond.Route.{RouteTable, add_next_hop, remove_next_hop, next_hop_exists}
use rustbond.Wire.Message.{Message}
use rustbond.Peer.Session.{PeerCommand}
use rustbond.Client.Tracker.{ServerId}

pub data ClientState : Type 0 where
  disconnected fully_connected client_closed : ClientState
  partially_connected : ℕ → ℕ → ClientState

-- `Peer` as the client sees it: its state, whether its task still takes commands, and the commands
-- sent to it, the oldest first.
pub record Handle (N : Type 0) : Type 0 where
  pub state : ConnectionState
  pub is_open : Bool
  pub commands : List (PeerCommand N)

pub record Client (N : Type 0) : Type 0 where
  pub peers : Map ServerId (Handle N)
  pub subscriptions : Set Vni
  pub announced_routes : RouteTable N

module _ {N : Type 0} where
  -- The loop of `state`.
  unfoldable pub count_states : Map ServerId (Handle N) → ℕ × Bool
  count_states [] = (0, false)
  count_states ((s, peer) ∷ peers) =
      let (connected, any_closed) = count_states peers in
      elim peer.state [
        | ConnectionState.established ↦ (suc connected, any_closed)
        | ConnectionState.closed ↦ (connected, true)
        | _ ↦ (connected, any_closed)
      ]

  unfoldable pub client_state : Client N → ClientState
  unfolding count_states
  client_state c =
      let (connected, any_closed) = count_states c.peers in
      if any_closed && (connected == 0)
      then client_closed
      else if connected == 0
      then disconnected
      else if connected == length c.peers
      then fully_connected
      else partially_connected connected (length c.peers)

  -- The methods of `Peer` that send a command.
  unfoldable pub send_command : Handle N → PeerCommand N → Handle N × Bool
  send_command peer command =
      if peer.is_open
      then (record peer { commands = peer.commands ++ (command ∷ []) }, true)
      else (peer, false)

  -- The loop over the established peers in `subscribe` and `announce`, with `sent_any`.
  unfoldable pub send_established :
      PeerCommand N → Map ServerId (Handle N) → Map ServerId (Handle N) × Bool
  unfolding send_command
  send_established command [] = ([], false)
  send_established command ((s, peer) ∷ peers) =
      let (rest, any) = send_established command peers in
      let (peer', taken) = send_command peer command in
      ite (ConnectionState-discrete peer.state established) ((s, peer') ∷ rest, taken || any)
        ((s, peer) ∷ rest, any)

  -- The loop over all peers in `unsubscribe` and `withdraw`.
  unfoldable pub send_everywhere : PeerCommand N → Map ServerId (Handle N) → Map ServerId (Handle N)
  unfolding send_command
  send_everywhere command [] = []
  send_everywhere command ((s, peer) ∷ peers) =
      (s, (send_command peer command).0) ∷ send_everywhere command peers

  unfoldable pub subscribe : Client N → Vni → Client N × Done
  subscribe c vni =
      let (peers', sent_any) = send_established (PeerCommand.subscribe vni) c.peers in
      (
        record c { peers = peers'; subscriptions = Set.insert ℕ_discrete vni c.subscriptions },
        if sent_any then ok tt else err not_established,
      )

  unfoldable pub unsubscribe : Client N → Vni → Client N × Done
  unsubscribe c vni = (
    record c {
      peers = send_everywhere (PeerCommand.unsubscribe vni) c.peers;
      subscriptions = Set.remove ℕ_discrete vni c.subscriptions;
    },
    ok tt,
  )

module _ {N : Type 0} (net : Discrete N) where
  unfoldable pub announce : Client N → Vni → Destination N → NextHop → Client N × Done
  announce c vni destination next_hop =
      let msg : Message N = Message.update Action.add vni destination next_hop in
      let (peers', sent_any) = send_established (PeerCommand.send_update msg) c.peers in
      if next_hop_exists net c.announced_routes vni destination next_hop
      then (c, err route_already_announced)
      else (
        record c {
          peers = peers';
          announced_routes = (add_next_hop net c.announced_routes vni destination next_hop).0;
        },
        if sent_any then ok tt else err not_established,
      )

  unfoldable pub withdraw : Client N → Vni → Destination N → NextHop → Client N × Done
  withdraw c vni destination next_hop =
      let msg : Message N = Message.update Action.remove vni destination next_hop in
      if next_hop_exists net c.announced_routes vni destination next_hop
      then (
        record c {
          peers = send_everywhere (PeerCommand.send_update msg) c.peers;
          announced_routes = (remove_next_hop net c.announced_routes vni destination next_hop).0;
        },
        ok tt,
      )
      else (c, err route_not_found)
