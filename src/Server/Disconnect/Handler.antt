-- ===== src/Server/Disconnect/Handler.antt =====
-- `handle_peer_disconnected` of src/server.rs.
use rustbond.Prelude.{
  ◌≡◌, refl, ite, false, not, ◌&&◌, ◌||◌, List, [], ◌∷◌, none, inl, inr, arith, ℕ_discrete,
  Option-cases, if◌then◌else◌,
}
use rustbond.Collections.Set.{contains}
use rustbond.Collections.Map.{get, remove, get-remove}
use rustbond.Types.Address.{Vni, Action}
use rustbond.Route.{RouteKey, RouteKey-discrete, remove_next_hop}
use rustbond.Wire.Message.{Message}
use rustbond.Server.Channel.{Mpsc}
use rustbond.Server.Peers.{SocketAddr, SocketAddr-discrete, distribute_remove}
use rustbond.Server.Actor.{
  RoutingActor, owned_by, withdraw_one, withdraw_owned, drop_slow, handle_peer_disconnected,
}
use rustbond.Server.Delivery.{subscribers, get-remove_slow, subscribers-remove_slow}
use rustbond.Server.Delivery.Updates.{update_of}
use rustbond.Server.Subscribers.{
  IsSubscriptions, subscribers-Distinct, remove_subscriber-IsSubscriptions,
  retain_nonempty-IsSubscriptions,
}
use rustbond.Server.Disconnect.{
  withdrawals, offered_all, overflows_any, distribute_remove_lem, offered_all-none,
  overflows_any-none, subscribed-left, withdrawals-left, left,
}

module _ {N : Type 0} (net : Discrete N) (chan : Mpsc (Message N)) where
  open chan use {Sender}

  withdraw_one-distribute :
      (a : RoutingActor N Sender) (k : RouteKey N) (slow : List SocketAddr)
      → withdraw_one net chan a k slow
        ≡ distribute_remove chan
            (update_of Action.remove k)
            (subscribers k.0 a.subscriptions)
            (a.peers, slow)
  unfolding withdraw_one distribute_remove
  withdraw_one-distribute a k slow = elim (Option-cases (get ℕ_discrete k.0 a.subscriptions)) [
    | inl p ↦ rw (p, withdraw_one)
    | inr (subs, p) ↦ rw (p, withdraw_one)
  ]

  pub withdraw-subscriptions :
      (ks : List (RouteKey N)) (a : RoutingActor N Sender) (slow : List SocketAddr)
      → (withdraw_owned net chan ks a slow).0.subscriptions ≡ a.subscriptions
  unfolding withdraw_owned
  withdraw-subscriptions [] a slow = refl
  withdraw-subscriptions (k ∷ ks) a slow = withdraw-subscriptions ks _ _

  withdraw-peers :
      (q : SocketAddr) (ks : List (RouteKey N)) (a : RoutingActor N Sender) (slow : List SocketAddr)
      → IsSubscriptions a.subscriptions
      → let after = withdraw_owned net chan ks a slow in
        let msgs = withdrawals q a.subscriptions ks in
        (get SocketAddr-discrete q after.0.peers
          ≡ offered_all chan msgs (get SocketAddr-discrete q a.peers))
        × (contains SocketAddr-discrete q after.1 ≡ (
            contains SocketAddr-discrete q slow
            || overflows_any chan msgs (get SocketAddr-discrete q a.peers)))
  unfolding withdraw_owned withdrawals offered_all overflows_any
  withdraw-peers q [] a slow i = (refl, ground arith)
  withdraw-peers q (k ∷ ks) a slow i =
      let subs = subscribers k.0 a.subscriptions in
      let msg : Message N = update_of Action.remove k in
      let one = withdraw_one-distribute a k slow in
      let (got, reported) =
        distribute_remove_lem chan msg q subs a.peers slow
          (subscribers-Distinct k.0 a.subscriptions i) in
      let next : RoutingActor N Sender = record a {
        routes = (remove_next_hop net a.routes k.0 k.1 k.2).0;
        route_owners = remove (RouteKey-discrete net) k a.route_owners;
        peers = (withdraw_one net chan a k slow).0;
      } in
      let (got', reported') = withdraw-peers q ks next (withdraw_one net chan a k slow).1 i in
      (ground (arith, one, got, got'), ground (arith, one, got, reported, reported'))

  -- If no VNI and no subscriber of a VNI is kept twice, nothing stays of the peer that left, no
  -- channel and no subscription. Every other peer is offered the withdrawals of the routes that it
  -- owned, those in VNIs that they subscribed to, in one order for all; a peer whose channel is
  -- full for one of them loses its channel and all its subscriptions, and no other subscription
  -- changes.
  pub handle_peer_disconnected_lem :
      (a : RoutingActor N Sender) (addr q : SocketAddr)
      → IsSubscriptions a.subscriptions
      → let after = handle_peer_disconnected net chan a addr in
        let msgs = withdrawals q a.subscriptions (owned_by addr a.route_owners) in
        let tx = get SocketAddr-discrete q a.peers in
        let slow = overflows_any chan msgs tx in
        (get SocketAddr-discrete q after.peers
          ≡ ite (SocketAddr-discrete addr q) none (if slow then none else offered_all chan msgs tx))
        × ((v : Vni)
            → contains SocketAddr-discrete q (subscribers v after.subscriptions)
              ≡ ite
                  (SocketAddr-discrete addr q)
                  false
                  (not slow && contains SocketAddr-discrete q (subscribers v a.subscriptions)))
  unfolding handle_peer_disconnected drop_slow contains
  handle_peer_disconnected_lem a addr q i =
      let ks = owned_by addr a.route_owners in
      let gone : RoutingActor N Sender = record a {
        peers = remove SocketAddr-discrete addr a.peers;
        subscriptions = left addr a.subscriptions;
      } in
      let i' =
        retain_nonempty-IsSubscriptions _
          (remove_subscriber-IsSubscriptions addr a.subscriptions i) in
      let (after, slow) : RoutingActor N Sender × List SocketAddr =
        withdraw_owned net chan ks gone [] in
      let (got, reported) = withdraw-peers q ks gone [] i' in
      let removed = get-remove SocketAddr-discrete addr q a.peers in
      let kept = withdraw-subscriptions ks gone [] in
      let facts = offered_all-none chan (withdrawals q gone.subscriptions ks) in
      let facts' = overflows_any-none chan (withdrawals q gone.subscriptions ks) in
      elim (SocketAddr-discrete addr q) [
        | yes p ↦ (
          ground
              (arith, got, removed, facts, get-remove_slow q slow after.peers after.subscriptions),
          λ v. ground (
            arith,
            kept,
            subscribers-remove_slow q v slow after.peers after.subscriptions,
            subscribed-left addr q v a.subscriptions i,
          ),
        )
        | no p ↦
            let same_msgs = withdrawals-left addr q a.subscriptions ks i p in
            (
              ground (
                arith,
                got,
                reported,
                removed,
                same_msgs,
                get-remove_slow q slow after.peers after.subscriptions,
              ),
              λ v. ground (
                arith,
                kept,
                reported,
                removed,
                same_msgs,
                subscribers-remove_slow q v slow after.peers after.subscriptions,
                subscribed-left addr q v a.subscriptions i,
              ),
            )
      ]
