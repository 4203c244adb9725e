-- ===== src/Server/Ownership.antt =====
-- Route ownership in the routing actor of src/server.rs: the route table and `route_owners` agree,
-- and follow the updates and the disconnects alone.
pub mod Steps
use rustbond.Prelude.{
  ℕ, suc, ◌+◌, ◌≡◌, refl, sym, ap, ◌∙◌, ite, Bool, true, false, not, ◌&&◌, List, [], ◌∷◌, Option,
  none, some, inl, inr, arith, length, is_empty, ℕ_discrete, Option-cases, if◌then◌else◌,
}
use rustbond.Collections.Set.{Set, contains, Distinct}
use rustbond.Collections.Set
use rustbond.Collections.Map.{
  Map, keys, get, insert, remove, or_default, get-insert, get-remove, insert-Distinct,
  remove-Distinct, get_of-not-contains,
}
use rustbond.Collections.Map.Size.{is_some, length-insert, length-remove}
use rustbond.Types.Address.{
  Vni, Action, Destination, NextHop, Destination-discrete, NextHop-discrete,
}
use rustbond.Route.{
  RouteKey, RouteKey-discrete, RouteTable, add_next_hop, remove_next_hop, next_hop_exists, len,
}
use rustbond.Route.Clean.{IsClean, new-IsClean, add-IsClean, remove-IsClean}
use rustbond.Route.History.{same, add_next_hop_lem, remove_next_hop_lem}
use rustbond.Wire.Message.{Message}
use rustbond.Server.Channel.{Mpsc}
use rustbond.Server.Peers.{SocketAddr, SocketAddr-discrete}
use rustbond.Server.Actor.{
  RoutingActor, new, owned_by, record_update, withdraw_owned, handle_subscribe, handle_unsubscribe,
  handle_peer_connected, handle_update, handle_peer_disconnected,
}
use rustbond.Server.Events.{
  Event, peer_connected, peer_disconnected, subscribe, unsubscribe, update, receives, receive, step,
  run,
}

module _ {N : Type 0} (net : Discrete N) where
  unfoldable pub exists_key : RouteTable N → RouteKey N → Bool
  exists_key t (v, d, h) = next_hop_exists net t v d h

  abbrev pub Owners : Type 0
  Owners = Map (RouteKey N) SocketAddr

  -- The table has exactly the routes that have an owner, and as many.
  pub record Agree (t : RouteTable N) (owners : Owners) : Type 0 where
    pub clean : IsClean net t
    pub distinct : Distinct (RouteKey-discrete net) (keys owners)
    pub owned : (q : RouteKey N) → exists_key t q ≡ is_some (get (RouteKey-discrete net) q owners)
    pub counted : len t ≡ length owners

  same-RouteKey :
      (k q : RouteKey N)
      → same net k.0 k.1 k.2 q.0 q.1 q.2 ≡ ite (RouteKey-discrete net k q) true false
  unfolding same
  same-RouteKey k q = ground arith

  add-Agree :
      (t : RouteTable N) (m : Owners) (k : RouteKey N) (from : SocketAddr)
      → Agree t m
      → Agree (add_next_hop net t k.0 k.1 k.2).0 (insert (RouteKey-discrete net) k from m)
  unfolding exists_key
  add-Agree t m k from i =
      let (flag, exists, count) = add_next_hop_lem net t k.0 k.1 k.2 in
      record {
        clean = add-IsClean net t k.0 k.1 k.2 i.clean;
        distinct = insert-Distinct (RouteKey-discrete net) k from m i.distinct;
        owned = λ q. ground (
          arith,
          exists q.0 q.1 q.2,
          same-RouteKey k q,
          get-insert (RouteKey-discrete net) k q from m,
          i.owned q,
        );
        counted =
            ground
              (arith, count, length-insert (RouteKey-discrete net) k from m, i.owned k, i.counted);
      }

  remove-Agree :
      (t : RouteTable N) (m : Owners) (k : RouteKey N)
      → Agree t m
      → Agree (remove_next_hop net t k.0 k.1 k.2).0 (remove (RouteKey-discrete net) k m)
  unfolding exists_key
  remove-Agree t m k i =
      let (flag, left, exists, count) = remove_next_hop_lem net t k.0 k.1 k.2 i.clean in
      record {
        clean = remove-IsClean net t k.0 k.1 k.2 i.clean;
        distinct = remove-Distinct (RouteKey-discrete net) k m i.distinct;
        owned = λ q. ground (
          arith,
          exists q.0 q.1 q.2,
          same-RouteKey k q,
          get-remove (RouteKey-discrete net) k q m,
          i.owned q,
        );
        counted = ground (
          arith,
          count,
          length-remove (RouteKey-discrete net) k m i.distinct,
          i.owned k,
          i.counted,
        );
      }

  -- The two kinds of update, on a route table and its owners.
  pub record_update-Agree :
      {S : Type 0} (a : RoutingActor N S) (from : SocketAddr) (action : Action) (k : RouteKey N)
      → Agree a.routes a.route_owners
      → Agree
          (record_update net a from action k).routes
          (record_update net a from action k).route_owners
  unfolding record_update
  record_update-Agree a from Action.add k i = add-Agree a.routes a.route_owners k from i
  record_update-Agree a from Action.remove k i = remove-Agree a.routes a.route_owners k i

  pub contains-owned_by :
      (q : RouteKey N) (addr : SocketAddr) (m : Owners)
      → Distinct (RouteKey-discrete net) (keys m)
      → contains (RouteKey-discrete net) q (owned_by addr m)
        ≡ elim (get (RouteKey-discrete net) q m) [
          | none ↦ false
          | some owner ↦ ite (SocketAddr-discrete owner addr) true false
        ]
  unfolding owned_by get contains
  contains-owned_by q addr [] d = refl
  contains-owned_by q addr ((k, owner) ∷ m) d =
      ground
        (arith, contains-owned_by q addr m d.1, get_of-not-contains (RouteKey-discrete net) k m)

  module _ (chan : Mpsc (Message N)) where
    open chan use {Sender}

    pub withdraw-Agree :
        (ks : List (RouteKey N)) (a : RoutingActor N Sender) (slow : List SocketAddr)
        → Agree a.routes a.route_owners
        → Agree
            (withdraw_owned net chan ks a slow).0.routes
            (withdraw_owned net chan ks a slow).0.route_owners
    unfolding withdraw_owned
    withdraw-Agree [] a slow i = i
    withdraw-Agree (k ∷ ks) a slow i =
        withdraw-Agree ks _ _ (remove-Agree a.routes a.route_owners k i)

    pub get-withdraw :
        (q : RouteKey N) (ks : List (RouteKey N)) (a : RoutingActor N Sender)
        (slow : List SocketAddr)
        → get (RouteKey-discrete net) q (withdraw_owned net chan ks a slow).0.route_owners ≡ (
            if contains (RouteKey-discrete net) q ks
            then none
            else get (RouteKey-discrete net) q a.route_owners)
    unfolding withdraw_owned contains
    get-withdraw q [] a slow = refl
    get-withdraw q (k ∷ ks) a slow =
        get-withdraw q ks _ _
        ∙ ground (arith, get-remove (RouteKey-discrete net) k q a.route_owners)
