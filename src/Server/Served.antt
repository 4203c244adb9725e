-- ===== src/Server/Served.antt =====
-- Whose routes, subscriptions and channels the routing actor of src/server.rs keeps.
pub mod Connections
pub mod Everyone
use rustbond.Prelude.{
  ◌≡◌, ◌≢◌, refl, sym, ap, ◌∙◌, ite, Bool, true, false, not, ◌&&◌, ◌||◌, Option, none, some, inl,
  inr, arith, ℕ_discrete, Option-cases, if◌then◌else◌,
}
use rustbond.Collections.Set.{contains}
use rustbond.Collections.Map.{get, get-insert}
use rustbond.Collections.Map.Size.{is_some}
use rustbond.Types.Address.{Vni, Action}
use rustbond.Route.{RouteKey, RouteKey-discrete}
use rustbond.Wire.Message.{Message}
use rustbond.Server.Channel.{Mpsc}
use rustbond.Server.Peers.{SocketAddr, SocketAddr-discrete}
use rustbond.Server.Actor.{
  RoutingActor, new, handle_subscribe, handle_unsubscribe, handle_peer_connected, handle_update,
  handle_peer_disconnected, owned_by,
}
use rustbond.Server.Events.{
  Event, peer_connected, peer_disconnected, subscribe, unsubscribe, update, receives, receive, step,
}
use rustbond.Server.Ownership.{Agree}
use rustbond.Server.Ownership.Steps.{owner_after, step-Agree, get-step, new-Agree}
use rustbond.Server.Delivery.{subscribers, is_target, overflows}
use rustbond.Server.Delivery.Updates.{handle_update_lem, update_of}
use rustbond.Server.Disconnect.{withdrawals, overflows_any, offered_all, offered_all-none}
use rustbond.Server.Disconnect.Handler.{handle_peer_disconnected_lem}
use rustbond.Server.Subscribers.{
  IsSubscriptions, subscribers-Distinct, handle_subscribe-subscribers,
  handle_unsubscribe-subscribers,
}
use rustbond.Server.Invariant.{step-IsSubscriptions, receive-subscriptions}

-- The address that an event comes from.
abbrev pub sender_of : {N S : Type 0} → Event N S → SocketAddr
sender_of (peer_connected addr tx) = addr
sender_of (peer_disconnected addr) = addr
sender_of (subscribe addr vni) = addr
sender_of (unsubscribe addr vni) = addr
sender_of (update addr action key) = addr
sender_of (receives addr tx) = addr

module _ {N : Type 0} (net : Discrete N) (chan : Mpsc (Message N)) where
  open chan use {Sender}

  -- All that is kept is of the peers that are given.
  pub record IsOf (P : SocketAddr → Bool) (a : RoutingActor N Sender) : Type 0 where
    pub agree : Agree net a.routes a.route_owners
    pub subscriptions : IsSubscriptions a.subscriptions
    pub owners :
        (q : RouteKey N) (addr : SocketAddr)
        → get (RouteKey-discrete net) q a.route_owners ≡ some addr
        → P addr ≡ true
    pub subscribed :
        (v : Vni) (addr : SocketAddr)
        → contains SocketAddr-discrete addr (subscribers v a.subscriptions) ≡ true
        → P addr ≡ true
    pub channels :
        (addr : SocketAddr) → is_some (get SocketAddr-discrete addr a.peers) ≡ true → P addr ≡ true

  module _ (P : SocketAddr → Bool) (a : RoutingActor N Sender) (i : IsOf P a) where
    owners-step :
        (e : Event N Sender) (q : RouteKey N) (addr : SocketAddr)
        → P (sender_of e) ≡ true
        → get (RouteKey-discrete net) q (step net chan a e).route_owners ≡ some addr
        → P addr ≡ true
    unfolding owner_after
    owners-step (peer_connected from tx) q addr p h =
        ground (arith, get-step net chan a (peer_connected from tx) q i.agree, i.owners q addr, h)
    owners-step (peer_disconnected from) q addr p h =
        elim (Option-cases (get (RouteKey-discrete net) q a.route_owners)) [
          | inl n ↦ ground (arith, get-step net chan a (peer_disconnected from) q i.agree, n, h)
          | inr (o, n) ↦
              ground (
                arith,
                get-step net chan a (peer_disconnected from) q i.agree,
                n,
                i.owners q o n,
                h,
              )
        ]
    owners-step (subscribe from vni) q addr p h =
        ground (arith, get-step net chan a (subscribe from vni) q i.agree, i.owners q addr, h)
    owners-step (unsubscribe from vni) q addr p h =
        ground (arith, get-step net chan a (unsubscribe from vni) q i.agree, i.owners q addr, h)
    owners-step (update from Action.add k) q addr p h =
        ground
          (arith, get-step net chan a (update from Action.add k) q i.agree, i.owners q addr, h, p)
    owners-step (update from Action.remove k) q addr p h =
        ground
          (arith, get-step net chan a (update from Action.remove k) q i.agree, i.owners q addr, h)
    owners-step (receives from tx) q addr p h =
        ground (arith, get-step net chan a (receives from tx) q i.agree, i.owners q addr, h)

    subscribed-step :
        (e : Event N Sender) (v : Vni) (addr : SocketAddr)
        → P (sender_of e) ≡ true
        → contains SocketAddr-discrete addr (subscribers v (step net chan a e).subscriptions) ≡ true
        → P addr ≡ true
    unfolding step handle_peer_connected
    subscribed-step (peer_connected from tx) v addr p h = i.subscribed v addr h
    subscribed-step (peer_disconnected from) v addr p h = ground (
      arith,
      (handle_peer_disconnected_lem net chan a from addr i.subscriptions).1 v,
      i.subscribed v addr,
      h,
    )
    subscribed-step (subscribe from vni) v addr p h =
        ground (arith, handle_subscribe-subscribers a from vni addr v, i.subscribed v addr, h, p)
    subscribed-step (unsubscribe from vni) v addr p h =
        ground (arith, handle_unsubscribe-subscribers a from vni addr v, i.subscribed v addr, h)
    subscribed-step (update from action k) v addr p h =
        let once = subscribers-Distinct k.0 a.subscriptions i.subscriptions in
        ground (
          arith,
          (handle_update_lem net chan a from action k addr once).1 v,
          i.subscribed v addr,
          h,
        )
    subscribed-step (receives from tx) v addr p h = i.subscribed v addr (
        ap (λ m. contains SocketAddr-discrete addr (subscribers v m))
          (sym (receive-subscriptions net chan a from tx))
        ∙ h)

    channels-step :
        (e : Event N Sender) (addr : SocketAddr)
        → P (sender_of e) ≡ true
        → is_some (get SocketAddr-discrete addr (step net chan a e).peers) ≡ true
        → P addr ≡ true
    unfolding step handle_peer_connected handle_subscribe handle_unsubscribe receive
    channels-step (peer_connected from tx) addr p h =
        ground (arith, get-insert SocketAddr-discrete from addr tx a.peers, i.channels addr, h, p)
    channels-step (peer_disconnected from) addr p h =
        elim (Option-cases (get SocketAddr-discrete addr a.peers)) [
          | inl n ↦ ground (
            arith,
            (handle_peer_disconnected_lem net chan a from addr i.subscriptions).0,
            offered_all-none chan (withdrawals addr a.subscriptions (owned_by from a.route_owners)),
            n,
            h,
          )
          | inr (tx, n) ↦ ground (arith, i.channels addr, n)
        ]
    channels-step (subscribe from vni) addr p h = i.channels addr h
    channels-step (unsubscribe from vni) addr p h = ground (arith, i.channels addr, h)
    channels-step (update from action k) addr p h =
        let once = subscribers-Distinct k.0 a.subscriptions i.subscriptions in
        elim (Option-cases (get SocketAddr-discrete addr a.peers)) [
          | inl n ↦ ground (arith, (handle_update_lem net chan a from action k addr once).0, n, h)
          | inr (tx, n) ↦ ground (arith, i.channels addr, n)
        ]
    channels-step (receives from tx) addr p h =
        elim (Option-cases (get SocketAddr-discrete from a.peers)) [
          | inl n ↦ ground (arith, n, i.channels addr, h)
          | inr (old, n) ↦
              ground (
                arith,
                n,
                get-insert SocketAddr-discrete from addr tx a.peers,
                i.channels addr,
                h,
                p,
              )
        ]

    -- An event of a peer leaves nothing of another.
    pub step-IsOf : (e : Event N Sender) → P (sender_of e) ≡ true → IsOf P (step net chan a e)
    step-IsOf e p = record {
      agree = step-Agree net chan a e i.agree;
      subscriptions = step-IsSubscriptions net chan a e i.subscriptions;
      owners = λ q addr. owners-step e q addr p;
      subscribed = λ v addr. subscribed-step e v addr p;
      channels = λ addr. channels-step e addr p;
    }

    -- All others than this one.
    abbrev pub without : SocketAddr → SocketAddr → Bool
    without addr x = ite (SocketAddr-discrete addr x) false (P x)

    pub peer_disconnected-IsOf :
        (addr : SocketAddr)
        → P addr ≡ true
        → IsOf (without addr) (handle_peer_disconnected net chan a addr)
    unfolding step owner_after
    peer_disconnected-IsOf addr p =
        let after = step-IsOf (peer_disconnected addr) p in
        record {
          agree = after.agree;
          subscriptions = after.subscriptions;
          owners = λ q x h. ground (
            arith,
            get-step net chan a (peer_disconnected addr) q i.agree,
            after.owners q x h,
            h,
          );
          subscribed = λ v x h. ground (
            arith,
            (handle_peer_disconnected_lem net chan a addr x i.subscriptions).1 v,
            after.subscribed v x h,
            h,
          );
          channels = λ x h. ground (
            arith,
            (handle_peer_disconnected_lem net chan a addr x i.subscriptions).0,
            after.channels x h,
            h,
          );
        }
