-- ===== src/Server/Ownership/Steps.antt =====
-- The routes and the owners of the routing actor of src/server.rs through its commands.
use rustbond.Prelude.{
  ◌≡◌, ◌≢◌, refl, ap, ◌∙◌, ite, Bool, true, false, not, ◌&&◌, List, [], ◌∷◌, Option, none, some,
  arith,
}
use rustbond.Collections.Map.{get, get-insert, get-remove}
use rustbond.Collections.Map.Size.{is_some}
use rustbond.Types.Address.{Vni, Action}
use rustbond.Route.{RouteKey, RouteKey-discrete, next_hop_exists, len}
use rustbond.Route.Clean.{new-IsClean}
use rustbond.Wire.Message.{Message}
use rustbond.Server.Channel.{Mpsc}
use rustbond.Server.Peers.{SocketAddr, SocketAddr-discrete}
use rustbond.Server.Actor.{
  RoutingActor, new, owned_by, record_update, handle_subscribe, handle_unsubscribe,
  handle_peer_connected, handle_update, handle_peer_disconnected,
}
use rustbond.Server.Ownership.{
  Agree, exists_key, record_update-Agree, contains-owned_by, withdraw-Agree, get-withdraw,
}
use rustbond.Collections.Map.Weight.{total}
use rustbond.Server.Events.{
  Event, peer_connected, peer_disconnected, subscribe, unsubscribe, update, receives, receive, step,
  run,
}

-- Neither the end of a subscription nor a change of a channel touches the routes.
unsubscribe-keeps :
    {N S : Type 0} (a : RoutingActor N S) (addr : SocketAddr) (vni : Vni)
    → ((handle_unsubscribe a addr vni).routes ≡ a.routes)
      × ((handle_unsubscribe a addr vni).route_owners ≡ a.route_owners)
unfolding handle_unsubscribe
unsubscribe-keeps a addr vni = ground arith

receive-keeps :
    {N S : Type 0} (a : RoutingActor N S) (addr : SocketAddr) (tx : S)
    → ((receive a addr tx).routes ≡ a.routes) × ((receive a addr tx).route_owners ≡ a.route_owners)
unfolding receive
receive-keeps a addr tx = ground arith

-- Is the peer the owner?
abbrev pub is_owner : Option SocketAddr → SocketAddr → Bool
is_owner none addr = false
is_owner (some owner) addr = ite (SocketAddr-discrete owner addr) true false

module _ {N : Type 0} (net : Discrete N) (chan : Mpsc (Message N)) where
  open chan use {Sender}

  -- The owner of a route after an event, from the one before: updates and disconnects decide.
  unfoldable pub owner_after : RouteKey N → Option SocketAddr → Event N Sender → Option SocketAddr
  owner_after q o (update from Action.add k) = ite (RouteKey-discrete net k q) (some from) o
  owner_after q o (update from Action.remove k) = ite (RouteKey-discrete net k q) none o
  owner_after q none (peer_disconnected addr) = none
  owner_after q (some owner) (peer_disconnected addr) =
      ite (SocketAddr-discrete owner addr) none (some owner)
  owner_after q o (peer_connected addr tx) = o
  owner_after q o (subscribe addr vni) = o
  owner_after q o (unsubscribe addr vni) = o
  owner_after q o (receives addr tx) = o

  unfoldable pub owner_after_all :
      RouteKey N → Option SocketAddr → List (Event N Sender) → Option SocketAddr
  owner_after_all q o [] = o
  owner_after_all q o (e ∷ es) = owner_after_all q (owner_after q o e) es

  pub step-Agree :
      (a : RoutingActor N Sender) (e : Event N Sender)
      → Agree net a.routes a.route_owners
      → Agree net (step net chan a e).routes (step net chan a e).route_owners
  unfolding step handle_peer_connected handle_peer_disconnected handle_subscribe handle_update
  step-Agree a (peer_connected addr tx) i = i
  step-Agree a (peer_disconnected addr) i =
      withdraw-Agree net chan (owned_by addr a.route_owners) _ [] i
  step-Agree a (subscribe addr vni) i = i
  step-Agree a (unsubscribe addr vni) i = (let (r, o) = unsubscribe-keeps a addr vni in rw (r, o) i)
  step-Agree a (update from action k) i = record_update-Agree net a from action k i
  step-Agree a (receives addr tx) i = (let (r, o) = receive-keeps a addr tx in rw (r, o) i)

  pub get-step :
      (a : RoutingActor N Sender) (e : Event N Sender) (q : RouteKey N)
      → Agree net a.routes a.route_owners
      → get (RouteKey-discrete net) q (step net chan a e).route_owners
        ≡ owner_after q (get (RouteKey-discrete net) q a.route_owners) e
  unfolding step handle_peer_connected handle_peer_disconnected handle_subscribe handle_update
      record_update owner_after
  get-step a (peer_connected addr tx) q i = refl
  get-step a (peer_disconnected addr) q i =
      get-withdraw net chan q (owned_by addr a.route_owners) _ []
      ∙ ground (arith, contains-owned_by net q addr a.route_owners i.distinct)
  get-step a (subscribe addr vni) q i = refl
  get-step a (unsubscribe addr vni) q i =
      ap (get (RouteKey-discrete net) q) (unsubscribe-keeps a addr vni).1
  get-step a (update from Action.add k) q i =
      get-insert (RouteKey-discrete net) k q from a.route_owners
  get-step a (update from Action.remove k) q i =
      get-remove (RouteKey-discrete net) k q a.route_owners
  get-step a (receives addr tx) q i = ap (get (RouteKey-discrete net) q) (receive-keeps a addr tx).1

  pub new-Agree : Agree net (new {S = Sender}).routes (new {S = Sender}).route_owners
  unfolding exists_key next_hop_exists get len total
  new-Agree = record { clean = new-IsClean net; distinct = tt; owned = λ q. refl; counted = refl }

  pub run-Agree :
      (a : RoutingActor N Sender) (es : List (Event N Sender))
      → Agree net a.routes a.route_owners
      → Agree net (run net chan a es).routes (run net chan a es).route_owners
  unfolding run
  run-Agree a [] i = i
  run-Agree a (e ∷ es) i = run-Agree (step net chan a e) es (step-Agree a e i)

  -- Whatever the peers do, the server's route table has exactly the routes that have an owner,
  -- each of them once, and both have the same number of entries.
  pub run-new-Agree :
      (es : List (Event N Sender))
      → Agree net (run net chan new es).routes (run net chan new es).route_owners
  run-new-Agree es = run-Agree new es new-Agree

  get-run :
      (a : RoutingActor N Sender) (es : List (Event N Sender)) (q : RouteKey N)
      → Agree net a.routes a.route_owners
      → get (RouteKey-discrete net) q (run net chan a es).route_owners
        ≡ owner_after_all q (get (RouteKey-discrete net) q a.route_owners) es
  unfolding run owner_after_all
  get-run a [] q i = refl
  get-run a (e ∷ es) q i =
      get-run (step net chan a e) es q (step-Agree a e i)
      ∙ ap (λ o. owner_after_all q o es) (get-step a e q i)

  -- The routes of the server follow the updates and the disconnects alone: a route is in the table
  -- exactly if the last update on it was an announcement whose sender has not disconnected since,
  -- and `route_owners` names that sender.
  pub exists-run :
      (es : List (Event N Sender)) (q : RouteKey N)
      → (get (RouteKey-discrete net) q (run net chan new es).route_owners
          ≡ owner_after_all q none es)
        × (next_hop_exists net (run net chan new es).routes q.0 q.1 q.2
            ≡ is_some (owner_after_all q none es))
  unfolding exists_key get
  exists-run es q =
      let owners = get-run new es q new-Agree in
      (owners, (run-new-Agree es).owned q ∙ ap is_some owners)

  -- If the table and the owners agree, a disconnect withdraws the routes that the peer owns, and
  -- no other route.
  pub exists-peer_disconnected :
      (a : RoutingActor N Sender) (addr : SocketAddr) (q : RouteKey N)
      → Agree net a.routes a.route_owners
      → next_hop_exists net (handle_peer_disconnected net chan a addr).routes q.0 q.1 q.2 ≡ (
          next_hop_exists net a.routes q.0 q.1 q.2
          && not (is_owner (get (RouteKey-discrete net) q a.route_owners) addr))
  unfolding exists_key step owner_after
  exists-peer_disconnected a addr q i =
      let after = step-Agree a (peer_disconnected addr) i in
      ground (arith, after.owned q, i.owned q, get-step a (peer_disconnected addr) q i)

  -- If the table and the owners agree and two different peers announce the same route, the server
  -- knows only the later as its owner: when that one disconnects, the route is withdrawn, although
  -- the other still announces it; when the earlier one disconnects, the route stays.
  pub shared_route_lost :
      (a : RoutingActor N Sender) (first second : SocketAddr) (k : RouteKey N)
      → Agree net a.routes a.route_owners
      → first ≢ second
      → let announced = handle_update net chan a first Action.add k in
        let twice = handle_update net chan announced second Action.add k in
        (next_hop_exists net (handle_peer_disconnected net chan twice second).routes k.0 k.1 k.2
          ≡ false)
        × (next_hop_exists net (handle_peer_disconnected net chan twice first).routes k.0 k.1 k.2
            ≡ true)
  unfolding step owner_after exists_key
  shared_route_lost a first second k i apart =
      let announced = handle_update net chan a first Action.add k in
      let twice = handle_update net chan announced second Action.add k in
      let i' = step-Agree a (update first Action.add k) i in
      let i'' = step-Agree announced (update second Action.add k) i' in
      let owner = get-step announced (update second Action.add k) k i' in
      (
        ground (arith, owner, exists-peer_disconnected twice second k i''),
        ground (arith, owner, i''.owned k, exists-peer_disconnected twice first k i''),
      )
