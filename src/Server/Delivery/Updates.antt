-- ===== src/Server/Delivery/Updates.antt =====
-- `handle_update` of src/server.rs: what each peer's channel and subscriptions become.
use rustbond.Prelude.{
  ◌≡◌, ◌≢◌, refl, true, not, ◌&&◌, List, [], ◌∷◌, ◌++◌, none, some, inl, inr, arith, ℕ_discrete,
  Option-cases, if◌then◌else◌,
}
use rustbond.Collections.Set.{contains, Distinct}
use rustbond.Collections.Map.{Map, get}
use rustbond.Types.Address.{Vni, Action}
use rustbond.Route.{RouteKey}
use rustbond.Wire.Message.{Message}
use rustbond.Server.Channel.{sent, Mpsc}
use rustbond.Server.Peers.{SocketAddr, SocketAddr-discrete, distribute_update}
use rustbond.Server.Actor.{RoutingActor, record_update, drop_slow, handle_update}
use rustbond.Server.Delivery.{
  subscribers, is_target, offered, overflows, distribute_update_lem, get-remove_slow,
  subscribers-remove_slow,
}

-- The message of an update.
abbrev pub update_of : {N : Type 0} → Action → RouteKey N → Message N
update_of action (vni, dest, hop) = Message.update action vni dest hop

module _ {N : Type 0} (net : Discrete N) (chan : Mpsc (Message N)) where
  open chan use {Sender, try_send, queued, try_send-sent}

  -- A VNI without subscriptions has no subscribers.
  pub handle_update-distribute :
      (from : SocketAddr) (action : Action) (k : RouteKey N) (a : RoutingActor N Sender)
      → handle_update net chan a from action k
        ≡ drop_slow net chan (record_update net a from action k) (
            distribute_update chan from
              (update_of action k)
              (subscribers k.0 a.subscriptions)
              (a.peers, []))
  unfolding handle_update distribute_update
  handle_update-distribute from action k a =
      elim (Option-cases (get ℕ_discrete k.0 a.subscriptions)) [
        | inl p ↦ rw (p, handle_update)
        | inr (subs, p) ↦ rw (p, handle_update)
      ]

  pub record_update-subscriptions :
      (a : RoutingActor N Sender) (from : SocketAddr) (action : Action) (k : RouteKey N)
      → (record_update net a from action k).subscriptions ≡ a.subscriptions
  unfolding record_update
  record_update-subscriptions a from Action.add k = refl
  record_update-subscriptions a from Action.remove k = refl

  -- If the VNI keeps no subscriber twice, an update is offered once to the channel of every other
  -- subscriber of its VNI and to no other channel; a subscriber whose channel is full loses its
  -- channel and all its subscriptions, and no other subscription changes.
  pub handle_update_lem :
      (a : RoutingActor N Sender) (from : SocketAddr) (action : Action) (k : RouteKey N)
      (q : SocketAddr)
      → Distinct SocketAddr-discrete (subscribers k.0 a.subscriptions)
      → let after = handle_update net chan a from action k in
        let tx = get SocketAddr-discrete q a.peers in
        let target = is_target q from (subscribers k.0 a.subscriptions) in
        let slow = target && overflows chan (update_of action k) tx in
        (get SocketAddr-discrete q after.peers
          ≡ (if slow then none else if target then offered chan (update_of action k) tx else tx))
        × ((v : Vni)
            → contains SocketAddr-discrete q (subscribers v after.subscriptions)
              ≡ (not slow && contains SocketAddr-discrete q (subscribers v a.subscriptions)))
  unfolding drop_slow contains
  handle_update_lem a from action k q d =
      let subs = subscribers k.0 a.subscriptions in
      let (peers', slow) : Map SocketAddr Sender × List SocketAddr =
        distribute_update chan from (update_of action k) subs (a.peers, []) in
      let (got, reported) =
        distribute_update_lem chan (update_of action k) q from subs a.peers [] d in
      rw (handle_update-distribute from action k a, record_update-subscriptions a from action k)
        (
          ground (arith, got, reported, get-remove_slow q slow peers' a.subscriptions),
          λ v. ground (arith, reported, subscribers-remove_slow q v slow peers' a.subscriptions),
        )

  -- A subscriber other than the sender, kept once, whose registered channel takes the update,
  -- finds it there behind the messages that wait already.
  pub handle_update-sent :
      (a : RoutingActor N Sender) (from : SocketAddr) (action : Action) (k : RouteKey N)
      (q : SocketAddr) (tx : Sender)
      → Distinct SocketAddr-discrete (subscribers k.0 a.subscriptions)
      → contains SocketAddr-discrete q (subscribers k.0 a.subscriptions) ≡ true
      → q ≢ from
      → get SocketAddr-discrete q a.peers ≡ some tx
      → (try_send tx (update_of action k)).0 ≡ sent
      → (tx' : Sender) × (get SocketAddr-discrete q (handle_update net chan a from action k).peers
          ≡ some tx')
        × (queued tx' ≡ queued tx ++ (update_of action k ∷ []))
  handle_update-sent a from action k q tx d subscribed apart registered taken = (
    (try_send tx (update_of action k)).1,
    ground (arith, (handle_update_lem a from action k q d).0),
    try_send-sent tx (update_of action k) taken,
  )
