-- ===== src/Tests/Servers.antt =====
-- Applications of the theorems on the routing actor of src/server.rs.
use rustbond.Prelude.{
  ℕ, ◌≡◌, ◌≢◌, ite, true, false, not, ◌&&◌, none, some, List, [], ◌∷◌, arith, ℕ_discrete,
  if◌then◌else◌,
}
use rustbond.Route
use rustbond.Collections.Map.{get}
use rustbond.Collections.Map.Size.{is_some}
use rustbond.Collections.Set.{Distinct, contains}
use rustbond.Route.{Route, RouteKey, RouteKey-discrete, next_hop_exists}
use rustbond.Server.Actor.{
  RoutingActor, handle_peer_disconnected, handle_subscribe, handle_update, new, owned_by,
}
use rustbond.Server.Channel.{Mpsc}
use rustbond.Server.Delivery.{is_target, offered, overflows, subscribers}
use rustbond.Server.Delivery.Updates.{handle_update_lem, update_of}
use rustbond.Server.Disconnect.{withdrawals, offered_all, overflows_any}
use rustbond.Server.Disconnect.Handler.{handle_peer_disconnected_lem}
use rustbond.Server.Events.{Event, peer_connected, run, subscribe, update}
use rustbond.Server.Invariant.{Hop-discrete, handle_subscribe-exists, run-new-IsSubscriptions}
use rustbond.Server.Ownership.{Agree}
use rustbond.Server.Ownership.Steps.{exists-run, owner_after_all, run-new-Agree, shared_route_lost}
use rustbond.Server.Peers.{SocketAddr-discrete}
use rustbond.Server.Subscribers.{IsSubscriptions}
use rustbond.Tests.Data.{alice, bob, dest, hop, queues}
use rustbond.Types.Address.{Action, Destination, NextHop, Vni}
use rustbond.Wire.Message.{Message}

abbrev chan : Mpsc (Message ℕ)
chan = queues (Message ℕ)

abbrev key : RouteKey ℕ
key = (7, dest 1, hop 1)

abbrev events : List (Event ℕ (List (Message ℕ)))
events =
    peer_connected alice []
    ∷ peer_connected bob []
    ∷ subscribe bob 7
    ∷ update alice Action.add key
    ∷ update alice Action.add (7, dest 1, hop 2)
    ∷ []

abbrev actor : RoutingActor ℕ (List (Message ℕ))
actor = run ℕ_discrete chan new events

actor-Agree : Agree ℕ_discrete actor.routes actor.route_owners
actor-Agree = run-new-Agree ℕ_discrete chan events

actor-IsSubscriptions : IsSubscriptions actor.subscriptions
actor-IsSubscriptions = run-new-IsSubscriptions ℕ_discrete chan events

alice-apart : alice ≢ bob
alice-apart = ground arith

-- Bob, who waits for the routes of one VNI.
abbrev waiting : RoutingActor ℕ (List (Message ℕ))
waiting = record {
  routes = Route.new;
  route_owners = [];
  subscriptions = (7, bob ∷ []) ∷ [];
  peers = (bob, []) ∷ [];
}

waiting-Distinct : Distinct SocketAddr-discrete (subscribers 7 waiting.subscriptions)
unfolding contains get
waiting-Distinct = ground arith

waiting-contains : contains SocketAddr-discrete bob (subscribers 7 waiting.subscriptions) ≡ true
unfolding contains get
waiting-contains = ground arith

waiting-get : get SocketAddr-discrete bob waiting.peers ≡ some []
unfolding get
waiting-get = ground arith

bob-apart : bob ≢ alice
bob-apart = ground arith

exists-run_example :
    (get (RouteKey-discrete ℕ_discrete) key (run ℕ_discrete chan new events).route_owners
      ≡ owner_after_all ℕ_discrete chan key none events)
    × (next_hop_exists ℕ_discrete (run ℕ_discrete chan new events).routes key.0 key.1 key.2
        ≡ is_some (owner_after_all ℕ_discrete chan key none events))
exists-run_example = exists-run ℕ_discrete chan events key

shared_route_lost_example :
    let announced = handle_update ℕ_discrete chan actor alice Action.add key in
    let twice = handle_update ℕ_discrete chan announced bob Action.add key in
    (next_hop_exists ℕ_discrete
        (handle_peer_disconnected ℕ_discrete chan twice bob).routes
        key.0
        key.1
        key.2
      ≡ false)
    × (next_hop_exists ℕ_discrete
          (handle_peer_disconnected ℕ_discrete chan twice alice).routes
          key.0
          key.1
          key.2
        ≡ true)
shared_route_lost_example =
    shared_route_lost ℕ_discrete chan actor alice bob key actor-Agree alice-apart

handle_update_lem_example :
    let after = handle_update ℕ_discrete chan waiting alice Action.add key in
    let tx = get SocketAddr-discrete bob waiting.peers in
    let target = is_target bob alice (subscribers key.0 waiting.subscriptions) in
    let slow = target && overflows chan (update_of Action.add key) tx in
    (get SocketAddr-discrete bob after.peers
      ≡ (if slow then none else if target then offered chan (update_of Action.add key) tx else tx))
    × ((v : Vni)
        → contains SocketAddr-discrete bob (subscribers v after.subscriptions)
          ≡ (not slow && contains SocketAddr-discrete bob (subscribers v waiting.subscriptions)))
handle_update_lem_example =
    handle_update_lem ℕ_discrete chan waiting alice Action.add key bob waiting-Distinct

handle_peer_disconnected_lem_example :
    let after = handle_peer_disconnected ℕ_discrete chan actor alice in
    let msgs = withdrawals bob actor.subscriptions (owned_by alice actor.route_owners) in
    let tx = get SocketAddr-discrete bob actor.peers in
    let slow = overflows_any chan msgs tx in
    (get SocketAddr-discrete bob after.peers
      ≡ ite (SocketAddr-discrete alice bob) none (if slow then none else offered_all chan msgs tx))
    × ((v : Vni)
        → contains SocketAddr-discrete bob (subscribers v after.subscriptions)
          ≡ ite
              (SocketAddr-discrete alice bob)
              false
              (not slow && contains SocketAddr-discrete bob (subscribers v actor.subscriptions)))
handle_peer_disconnected_lem_example =
    handle_peer_disconnected_lem ℕ_discrete chan actor alice bob actor-IsSubscriptions

handle_subscribe-exists_example :
    Distinct (Hop-discrete ℕ_discrete) (handle_subscribe actor bob 7).1
    × ((d : Destination ℕ) (h : NextHop)
        → contains (Hop-discrete ℕ_discrete) (d, h) (handle_subscribe actor bob 7).1
          ≡ next_hop_exists ℕ_discrete actor.routes 7 d h)
handle_subscribe-exists_example = handle_subscribe-exists ℕ_discrete actor bob 7 actor-Agree.clean
