-- ===== src/Client/Connect.antt =====
-- `MetalBondClient::connect` of src/client.rs, and the methods that tell what the client knows.
pub mod Servers
pub mod Listing
pub mod State
use Prim.Native.String.{String}
use rustbond.Prelude.{
  ℕ, zero, suc, ◌≡◌, ite, Bool, true, false, ◌||◌, List, [], ◌∷◌, map, Option, none, some, length,
  is_empty, ◌==◌, if◌then◌else◌, any, ℕ_discrete,
}
use rustbond.Collections.Set.{Set}
use rustbond.Collections.Map.{Map, get, insert}
use rustbond.Types.Address.{
  Vni, Destination, NextHop, ConnectionState, ConnectionState-discrete, connecting, established,
}
use rustbond.Types.Convert.{Done, ok}
use rustbond.Route.{RouteTable, Route, RouteKey, get_all_routes}
use rustbond.Route
use rustbond.Peer.Session.{PeerCommand}
use rustbond.Client.Tracker.{ServerId, get_all, get_servers, len, tracker_is_empty}
use rustbond.Client.Dedup.{Shared, init, route_of}
use rustbond.Client.Api.{Handle, Client, send_everywhere}

-- The client with all its fields: its side of the peers, what route updates change, and the
-- addresses of the servers.
pub record MetalBondClient (N : Type 0) : Type 0 where
  pub client : Client N
  pub shared : Shared N
  pub server_addrs : Map ServerId String

-- `Peer::new`: the state of a new peer, whose task is there to take commands.
abbrev pub new_peer : {N : Type 0} → Handle N
new_peer = record { state = connecting; is_open = true; commands = [] }

-- The loop over the addresses, from the next index.
unfoldable pub connect_each :
    {N : Type 0}
    → ℕ
    → List String
    → Map ServerId (Handle N)
    → Map ServerId String
    → Map ServerId (Handle N) × Map ServerId String
connect_each idx [] peers server_addrs = (peers, server_addrs)
connect_each idx (addr ∷ servers) peers server_addrs =
    connect_each (suc idx) servers (insert ℕ_discrete idx new_peer peers)
      (insert ℕ_discrete idx addr server_addrs)

-- None for the panic without a server.
unfoldable pub connect : {N : Type 0} → List String → Option (MetalBondClient N)
unfolding connect_each
connect [] = none
connect (addr ∷ servers) =
    let (peers, server_addrs) = connect_each 0 (addr ∷ servers) [] [] in
    some (record {
      client = record { peers = peers; subscriptions = []; announced_routes = Route.new };
      shared = init;
      server_addrs = server_addrs;
    })

module _ {N : Type 0} where
  -- `self.peers.values().any(..)` and `.filter(..).count()`
  unfoldable pub is_established : Map ServerId (Handle N) → Bool
  is_established [] = false
  is_established ((s, peer) ∷ peers) =
      ite (ConnectionState-discrete peer.state established) true false || is_established peers

  unfoldable pub connected_count : Map ServerId (Handle N) → ℕ
  connected_count [] = 0
  connected_count ((s, peer) ∷ peers) =
      let n = connected_count peers in
      ite (ConnectionState-discrete peer.state established) (suc n) n

  unfoldable pub server_states : Map ServerId (Handle N) → Map ServerId ConnectionState
  server_states peers = map (λ e. (e.0, e.1.state)) peers

  unfoldable pub server_count : Map ServerId (Handle N) → ℕ
  server_count peers = length peers

  unfoldable pub server_addr : MetalBondClient N → ServerId → Option String
  server_addr c id = get ℕ_discrete id c.server_addrs

  -- The filter of `get_received_routes`, on the pairs of the tracker.
  unfoldable pub routes_of_vni : Vni → List (RouteKey N × Set ServerId) → List (Route N)
  routes_of_vni vni [] = []
  routes_of_vni vni (((v, dest, hop), servers) ∷ entries) =
      let rest = routes_of_vni vni entries in
      if v == vni then route_of (v, dest, hop) ∷ rest else rest

  unfoldable pub get_received_routes : Shared N → Vni → List (Route N)
  unfolding routes_of_vni
  get_received_routes shared vni = routes_of_vni vni (get_all shared.origins)

  unfoldable pub get_announced_routes : Client N → List (Vni × Route N)
  get_announced_routes c = get_all_routes c.announced_routes

  unfoldable pub route_count : Shared N → ℕ
  route_count shared = len shared.origins

  unfoldable pub is_route_table_empty : Shared N → Bool
  is_route_table_empty shared = tracker_is_empty shared.origins

  -- What is sent to the peers, when the client is shut down.
  unfoldable pub shutdown : Map ServerId (Handle N) → Map ServerId (Handle N) × Done
  shutdown peers = (send_everywhere PeerCommand.shutdown peers, ok tt)

unfoldable pub get_route_servers :
    {N : Type 0} → Discrete N → Shared N → RouteKey N → Option (Set ServerId)
get_route_servers net shared key = get_servers net shared.origins key
