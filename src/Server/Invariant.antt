-- ===== src/Server/Invariant.antt =====
-- The subscriptions of src/server.rs through all commands, and the answer to a new subscriber.
use rustbond.Prelude.{◌≡◌, refl, sym, ◌∙◌, List, [], ◌∷◌, map, arith, ℕ_discrete}
use mathlib.Core.Path.{subst}
use rustbond.Collections.Set.{contains, Distinct}
use rustbond.Collections.Set.Append.{
  contains-append, append-Distinct, contains-map_pair, map_pair-Distinct,
}
use rustbond.Collections.Map.{Map, get, remove, or_default, get_of-not-contains}
use rustbond.Types.Address.{
  Vni, Action, Destination, NextHop, Destination-discrete, NextHop-discrete,
}
use rustbond.Route.{RouteKey, VniRoutes, get_destinations_by_vni, next_hop_exists}
use rustbond.Route.Clean.{CleanVni, IsClean, inner_clean}
use rustbond.Route.Hops.{hops_of, next_hop_exists-hops_of}
use rustbond.Wire.Message.{Message}
use rustbond.Server.Channel.{Mpsc}
use rustbond.Server.Peers.{
  SocketAddr, SocketAddr-discrete, retain_nonempty, remove_subscriber, distribute_update,
}
use rustbond.Server.Delivery.{subscribers}
use rustbond.Server.Actor.{
  RoutingActor, new, collect_hops, owned_by, record_update, withdraw_owned, drop_slow,
  handle_subscribe, handle_peer_connected, handle_update, handle_peer_disconnected,
}
use rustbond.Server.Events.{
  Event, peer_connected, peer_disconnected, subscribe, unsubscribe, update, receives, receive, step,
  run,
}
use rustbond.Server.Delivery.Updates.{
  update_of, record_update-subscriptions, handle_update-distribute,
}
use rustbond.Server.Subscribers.{
  IsSubscriptions, remove_subscriber-IsSubscriptions, retain_nonempty-IsSubscriptions,
  remove_slow-IsSubscriptions, handle_subscribe-IsSubscriptions, handle_unsubscribe-IsSubscriptions,
}
use rustbond.Server.Disconnect.Handler.{withdraw-subscriptions}

module _ {N : Type 0} (net : Discrete N) (chan : Mpsc (Message N)) where
  open chan use {Sender}

  pub receive-subscriptions :
      (a : RoutingActor N Sender) (addr : SocketAddr) (tx : Sender)
      → (receive a addr tx).subscriptions ≡ a.subscriptions
  unfolding receive
  receive-subscriptions a addr tx = ground arith

  drop_slow-IsSubscriptions :
      (a : RoutingActor N Sender) (state : Map SocketAddr Sender × List SocketAddr)
      → IsSubscriptions a.subscriptions
      → IsSubscriptions (drop_slow net chan a state).subscriptions
  unfolding drop_slow
  drop_slow-IsSubscriptions a (peers, slow) i =
      remove_slow-IsSubscriptions {S = Sender} slow peers a.subscriptions i

  withdraw-IsSubscriptions :
      (keys : List (RouteKey N)) (a : RoutingActor N Sender) (slow : List SocketAddr)
      → IsSubscriptions a.subscriptions
      → IsSubscriptions (withdraw_owned net chan keys a slow).0.subscriptions
  withdraw-IsSubscriptions keys a slow i =
      subst IsSubscriptions (sym (withdraw-subscriptions net chan keys a slow)) i

  peer_disconnected-IsSubscriptions :
      (a : RoutingActor N Sender) (addr : SocketAddr)
      → IsSubscriptions a.subscriptions
      → IsSubscriptions (handle_peer_disconnected net chan a addr).subscriptions
  unfolding handle_peer_disconnected
  peer_disconnected-IsSubscriptions a addr i =
      let owned = owned_by addr a.route_owners in
      let gone : RoutingActor N Sender = record a {
        peers = remove SocketAddr-discrete addr a.peers;
        subscriptions = retain_nonempty (remove_subscriber addr a.subscriptions);
      } in
      let (after, slow) : RoutingActor N Sender × List SocketAddr =
        withdraw_owned net chan owned gone [] in
      drop_slow-IsSubscriptions after (after.peers, slow)
        (withdraw-IsSubscriptions owned gone [] (
          retain_nonempty-IsSubscriptions (remove_subscriber addr a.subscriptions)
            (remove_subscriber-IsSubscriptions addr a.subscriptions i)))

  update-IsSubscriptions :
      (a : RoutingActor N Sender) (from : SocketAddr) (action : Action) (k : RouteKey N)
      → IsSubscriptions a.subscriptions
      → IsSubscriptions (handle_update net chan a from action k).subscriptions
  update-IsSubscriptions a from action k i =
      let subs = subscribers k.0 a.subscriptions in
      rw (handle_update-distribute net chan from action k a) (
        drop_slow-IsSubscriptions (record_update net a from action k)
          (distribute_update chan from (update_of action k) subs (a.peers, []))
          (rw (record_update-subscriptions net chan a from action k) i))

  pub step-IsSubscriptions :
      (a : RoutingActor N Sender) (e : Event N Sender)
      → IsSubscriptions a.subscriptions
      → IsSubscriptions (step net chan a e).subscriptions
  unfolding step handle_peer_connected
  step-IsSubscriptions a (peer_connected addr tx) i = i
  step-IsSubscriptions a (peer_disconnected addr) i = peer_disconnected-IsSubscriptions a addr i
  step-IsSubscriptions a (subscribe addr vni) i = handle_subscribe-IsSubscriptions a addr vni i
  step-IsSubscriptions a (unsubscribe addr vni) i = handle_unsubscribe-IsSubscriptions a addr vni i
  step-IsSubscriptions a (update from action k) i = update-IsSubscriptions a from action k i
  step-IsSubscriptions a (receives addr tx) i = rw (receive-subscriptions a addr tx) i

  run-IsSubscriptions :
      (a : RoutingActor N Sender) (es : List (Event N Sender))
      → IsSubscriptions a.subscriptions
      → IsSubscriptions (run net chan a es).subscriptions
  unfolding run
  run-IsSubscriptions a [] i = i
  run-IsSubscriptions a (e ∷ es) i =
      run-IsSubscriptions (step net chan a e) es (step-IsSubscriptions a e i)

  -- Whatever the peers do, no VNI and no subscriber of a VNI is kept twice.
  pub run-new-IsSubscriptions :
      (es : List (Event N Sender)) → IsSubscriptions (run net chan new es).subscriptions
  run-new-IsSubscriptions es = run-IsSubscriptions new es (record { vnis = tt; peers = tt })

-- The equality of the pairs that `handle_subscribe` answers.
pub Hop-discrete : {N : Type 0} → Discrete N → Discrete (Destination N × NextHop)
Hop-discrete net = hlevel (Destination-discrete net, NextHop-discrete)

module _ {N : Type 0} (net : Discrete N) where
  contains-collect :
      (d : Destination N) (h : NextHop) (m : VniRoutes N)
      → CleanVni net m
      → contains (Hop-discrete net) (d, h) (collect_hops m)
        ≡ contains NextHop-discrete h (or_default [] (get (Destination-discrete net) d m))
  unfolding contains collect_hops get
  contains-collect d h [] c = refl
  contains-collect d h ((e, hops) ∷ m) c = ground (
    arith,
    contains-append (Hop-discrete net) (d, h) (map (λ x. (e, x)) hops) (collect_hops m),
    contains-map_pair (Destination-discrete net) NextHop-discrete (Hop-discrete net) e d h hops,
    contains-collect d h m (c.0.1, c.1.1),
    get_of-not-contains (Destination-discrete net) e m,
  )

  collect-Distinct :
      (m : VniRoutes N) → CleanVni net m → Distinct (Hop-discrete net) (collect_hops m)
  unfolding collect_hops contains
  collect-Distinct [] c = tt
  collect-Distinct ((e, hops) ∷ m) c =
      append-Distinct (Hop-discrete net) (map (λ x. (e, x)) hops) (collect_hops m)
        (map_pair-Distinct (Destination-discrete net) NextHop-discrete (Hop-discrete net) e hops
          c.1.0.0)
        (collect-Distinct m (c.0.1, c.1.1))
        λ p here. ground (
          arith,
          contains-map_pair (Destination-discrete net) NextHop-discrete (Hop-discrete net) e p.0 p.1
              hops,
          contains-collect p.0 p.1 m (c.0.1, c.1.1),
          get_of-not-contains (Destination-discrete net) e m,
        )

  -- From a well-formed table, a new subscriber is answered exactly the routes that the VNI has,
  -- each of them once.
  pub handle_subscribe-exists :
      {S : Type 0} (a : RoutingActor N S) (addr : SocketAddr) (vni : Vni)
      → IsClean net a.routes
      → Distinct (Hop-discrete net) (handle_subscribe a addr vni).1
        × ((d : Destination N) (h : NextHop)
            → contains (Hop-discrete net) (d, h) (handle_subscribe a addr vni).1
              ≡ next_hop_exists net a.routes vni d h)
  unfolding handle_subscribe get_destinations_by_vni hops_of
  handle_subscribe-exists a addr vni c =
      let inner = inner_clean net a.routes vni c in
      (
        collect-Distinct (or_default [] (get ℕ_discrete vni a.routes.routes)) inner,
        λ d h.
            contains-collect d h (or_default [] (get ℕ_discrete vni a.routes.routes)) inner
            ∙ sym (next_hop_exists-hops_of net a.routes vni d h),
      )
