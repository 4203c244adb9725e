-- ===== src/Server/Actor.antt =====
-- `RoutingActor` of src/server.rs: the one owner of the routing state, which handles a command at
-- a time. Answers that a command asks for are results of its handler.
use rustbond.Prelude.{ℕ, ite, List, [], ◌∷◌, ◌++◌, map, none, some, length, ℕ_discrete}
use rustbond.Collections.Set.{Set}
use rustbond.Collections.Set
use rustbond.Collections.Map.{Map, get, insert, remove, or_default}
use rustbond.Collections.Map.Weight.{total}
use rustbond.Collections.Map.WriteBack.{write_back}
use rustbond.Types.Address.{Vni, Action, Destination, NextHop}
use rustbond.Route.{
  RouteKey, RouteKey-discrete, RouteTable, add_next_hop, remove_next_hop, get_destinations_by_vni,
}
use rustbond.Route
use rustbond.Wire.Message.{Message, update}
use rustbond.Server.Channel.{Mpsc}
use rustbond.Server.Peers.{
  SocketAddr, SocketAddr-discrete, remove_subscriber, retain_nonempty, remove_slow,
  distribute_update, distribute_remove,
}

-- `S` is the type of the senders of the peers' channels.
pub record RoutingActor (N S : Type 0) : Type 0 where
  pub routes : RouteTable N
  pub route_owners : Map (RouteKey N) SocketAddr
  pub subscriptions : Map Vni (Set SocketAddr)
  pub peers : Map SocketAddr S

-- `RoutingActor::new`
abbrev pub new : {N S : Type 0} → RoutingActor N S
new = record { routes = Route.new; route_owners = []; subscriptions = []; peers = [] }

-- The routes of the VNI as `handle_subscribe` collects them.
unfoldable pub collect_hops :
    {N : Type 0} → Map (Destination N) (List NextHop) → List (Destination N × NextHop)
collect_hops [] = []
collect_hops ((dest, hops) ∷ m) = map (λ hop. (dest, hop)) hops ++ collect_hops m

module _ {N S : Type 0} where
  -- The actor with the subscription, and the routes that the VNI has.
  unfoldable pub handle_subscribe :
      RoutingActor N S → SocketAddr → Vni → RoutingActor N S × List (Destination N × NextHop)
  handle_subscribe a addr vni =
      let subs = or_default [] (get ℕ_discrete vni a.subscriptions) in
      let subs' = Set.insert SocketAddr-discrete addr subs in
      (
        record a { subscriptions = insert ℕ_discrete vni subs' a.subscriptions },
        collect_hops (get_destinations_by_vni a.routes vni),
      )

  unfoldable pub handle_unsubscribe : RoutingActor N S → SocketAddr → Vni → RoutingActor N S
  handle_unsubscribe a addr vni = elim (get ℕ_discrete vni a.subscriptions) [
    | none ↦ a
    | some peers ↦
        let peers' = Set.remove SocketAddr-discrete addr peers in
        record a { subscriptions = write_back ℕ_discrete vni peers' a.subscriptions }
  ]

  -- `PeerConnected`
  unfoldable pub handle_peer_connected : RoutingActor N S → SocketAddr → S → RoutingActor N S
  handle_peer_connected a addr tx = record a { peers = insert SocketAddr-discrete addr tx a.peers }

  -- `GetStats`: routes, owners, peers, subscriptions.
  unfoldable pub stats : RoutingActor N S → ℕ × ℕ × ℕ × ℕ
  stats a =
      (Route.len a.routes, length a.route_owners, length a.peers, total length a.subscriptions)

-- The keys that `owned_routes` collects: those whose owner is the peer.
unfoldable pub owned_by :
    {N : Type 0} → SocketAddr → Map (RouteKey N) SocketAddr → List (RouteKey N)
owned_by addr [] = []
owned_by addr ((key, owner) ∷ m) =
    let rest = owned_by addr m in ite (SocketAddr-discrete owner addr) (key ∷ rest) rest

-- The `match action` of `handle_update`, on the route table and the owners.
unfoldable pub record_update :
    {N S : Type 0}
    → Discrete N
    → RoutingActor N S
    → SocketAddr
    → Action
    → RouteKey N
    → RoutingActor N S
record_update net a from Action.add (vni, dest, hop) = record a {
  routes = (add_next_hop net a.routes vni dest hop).0;
  route_owners = insert (RouteKey-discrete net) (vni, dest, hop) from a.route_owners;
}
record_update net a from Action.remove (vni, dest, hop) = record a {
  routes = (remove_next_hop net a.routes vni dest hop).0;
  route_owners = remove (RouteKey-discrete net) (vni, dest, hop) a.route_owners;
}

module _ {N : Type 0} (net : Discrete N) (chan : Mpsc (Message N)) where
  open chan use {Sender}

  -- The last loop of a handler: `for addr in slow_consumers`.
  unfoldable pub drop_slow :
      RoutingActor N Sender → Map SocketAddr Sender × List SocketAddr → RoutingActor N Sender
  unfolding remove_slow
  drop_slow a (peers, slow) =
      let (peers', subscriptions') = remove_slow slow (peers, a.subscriptions) in
      record a { peers = peers'; subscriptions = subscriptions' }

  unfoldable pub handle_update :
      RoutingActor N Sender → SocketAddr → Action → RouteKey N → RoutingActor N Sender
  unfolding record_update drop_slow
  handle_update a from action (vni, dest, hop) =
      let a' = record_update net a from action (vni, dest, hop) in
      let msg : Message N = update action vni dest hop in
      drop_slow a' (elim (get ℕ_discrete vni a.subscriptions) [
        | none ↦ (a.peers, [])
        | some subs ↦ distribute_update chan from msg subs (a.peers, [])
      ])

  -- The `if let Some(subs)` of `handle_peer_disconnected`, for one withdrawn route.
  unfoldable pub withdraw_one :
      RoutingActor N Sender → RouteKey N → List SocketAddr → Map SocketAddr Sender × List SocketAddr
  withdraw_one a (vni, dest, hop) slow = elim (get ℕ_discrete vni a.subscriptions) [
    | none ↦ (a.peers, slow)
    | some subs ↦ distribute_remove chan (update Action.remove vni dest hop) subs (a.peers, slow)
  ]

  -- The loop `for (vni, destination, next_hop) in owned_routes` of `handle_peer_disconnected`.
  unfoldable pub withdraw_owned :
      List (RouteKey N)
      → RoutingActor N Sender
      → List SocketAddr
      → RoutingActor N Sender × List SocketAddr
  withdraw_owned [] a slow = (a, slow)
  withdraw_owned ((vni, dest, hop) ∷ keys) a slow =
      let (peers', slow') = withdraw_one a (vni, dest, hop) slow in
      withdraw_owned keys
        (record a {
          routes = (remove_next_hop net a.routes vni dest hop).0;
          route_owners = remove (RouteKey-discrete net) (vni, dest, hop) a.route_owners;
          peers = peers';
        })
        slow'

  unfoldable pub handle_peer_disconnected :
      RoutingActor N Sender → SocketAddr → RoutingActor N Sender
  unfolding withdraw_owned drop_slow
  handle_peer_disconnected a addr =
      let subscriptions' = retain_nonempty (remove_subscriber addr a.subscriptions) in
      let a' = record a {
        peers = remove SocketAddr-discrete addr a.peers;
        subscriptions = subscriptions';
      } in
      let (a'', slow) = withdraw_owned (owned_by addr a.route_owners) a' [] in
      drop_slow a'' (a''.peers, slow)
