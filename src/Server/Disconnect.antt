-- ===== src/Server/Disconnect.antt =====
-- `handle_peer_disconnected` of src/server.rs: the peer that left, and what the others receive.
pub mod Handler
use rustbond.Prelude.{
  ◌≡◌, ◌≢◌, refl, ap, ◌∙◌, ite, Bool, false, not, ◌&&◌, ◌||◌, List, [], ◌∷◌, ◌++◌, Option, none,
  inl, inr, arith, ℕ_discrete, Option-cases, if◌then◌else◌,
}
use rustbond.Collections.Set.{contains, Distinct, contains-remove}
use rustbond.Collections.Set.Append.{contains-append}
use rustbond.Collections.Map.{Map, get, remove, get-remove}
use rustbond.Types.Address.{Vni, Action}
use rustbond.Route.{RouteKey, RouteKey-discrete, remove_next_hop}
use rustbond.Wire.Message.{Message}
use rustbond.Server.Channel.{Mpsc}
use rustbond.Server.Peers.{
  SocketAddr, SocketAddr-discrete, Subscriptions, remove_subscriber, retain_nonempty, offer,
  distribute_remove,
}
use rustbond.Server.Actor.{
  RoutingActor, owned_by, withdraw_one, withdraw_owned, drop_slow, handle_peer_disconnected,
}
use rustbond.Server.Delivery.{
  subscribers, subscribers-remove_subscriber, offered, overflows, get-offer, offer-overflows,
  get-remove_slow, subscribers-remove_slow,
}
use rustbond.Server.Delivery.Updates.{update_of}
use rustbond.Server.Subscribers.{
  IsSubscriptions, subscribers-Distinct, subscribers-retain_nonempty,
  remove_subscriber-IsSubscriptions, retain_nonempty-IsSubscriptions,
}

-- The withdrawals that concern a peer, in the order of the routes.
unfoldable pub withdrawals :
    {N : Type 0} → SocketAddr → Subscriptions → List (RouteKey N) → List (Message N)
withdrawals q m [] = []
withdrawals q m (k ∷ ks) =
    let rest = withdrawals q m ks in
    if contains SocketAddr-discrete q (subscribers k.0 m)
    then update_of Action.remove k ∷ rest
    else rest

module _ {N : Type 0} (chan : Mpsc (Message N)) where
  open chan use {Sender}

  -- A channel after several messages were offered to it, and whether it was full for one of them.
  unfoldable pub offered_all : List (Message N) → Option Sender → Option Sender
  offered_all [] tx = tx
  offered_all (msg ∷ msgs) tx = offered_all msgs (offered chan msg tx)

  unfoldable pub overflows_any : List (Message N) → Option Sender → Bool
  overflows_any [] tx = false
  overflows_any (msg ∷ msgs) tx = overflows chan msg tx || overflows_any msgs (offered chan msg tx)

  pub distribute_remove_lem :
      (msg : Message N) (q : SocketAddr) (subs : List SocketAddr) (peers : Map SocketAddr Sender)
      (slow : List SocketAddr)
      → Distinct SocketAddr-discrete subs
      → (get SocketAddr-discrete q (distribute_remove chan msg subs (peers, slow)).0 ≡ (
          if contains SocketAddr-discrete q subs
          then offered chan msg (get SocketAddr-discrete q peers)
          else get SocketAddr-discrete q peers))
        × (contains SocketAddr-discrete q (distribute_remove chan msg subs (peers, slow)).1 ≡ (
            contains SocketAddr-discrete q slow
            || contains SocketAddr-discrete q subs
              && overflows chan msg (get SocketAddr-discrete q peers)))
  unfolding distribute_remove contains
  distribute_remove_lem msg q [] peers slow d = (ground arith, ground arith)
  distribute_remove_lem msg q (addr ∷ subs) peers slow d =
      let (peers', is_full) = offer chan msg addr peers in
      let known = contains SocketAddr-discrete addr slow in
      let slow' = if is_full then if known then slow else slow ++ (addr ∷ []) else slow in
      let (got, reported) = distribute_remove_lem msg q subs peers' slow' d.1 in
      let sent_one = get-offer chan msg addr q peers in
      let full_one = offer-overflows chan msg addr peers in
      let appended = contains-append SocketAddr-discrete q slow (addr ∷ []) in
      (
        ground (arith, got, sent_one, d.0),
        ground (arith, reported, sent_one, full_one, appended, d.0),
      )

  pub offered_all-none : (msgs : List (Message N)) → offered_all msgs none ≡ none
  unfolding offered_all
  offered_all-none [] = refl
  offered_all-none (msg ∷ msgs) = offered_all-none msgs

  pub overflows_any-none : (msgs : List (Message N)) → overflows_any msgs none ≡ false
  unfolding overflows_any
  overflows_any-none [] = refl
  overflows_any-none (msg ∷ msgs) = overflows_any-none msgs

-- The subscriptions without those of the peer that left.
abbrev pub left : SocketAddr → Subscriptions → Subscriptions
left addr m = retain_nonempty (remove_subscriber addr m)

pub subscribed-left :
    (addr q : SocketAddr) (v : Vni) (m : Subscriptions)
    → IsSubscriptions m
    → contains SocketAddr-discrete q (subscribers v (left addr m))
      ≡ ite (SocketAddr-discrete addr q) false (contains SocketAddr-discrete q (subscribers v m))
subscribed-left addr q v m i =
    ap (contains SocketAddr-discrete q) (
      subscribers-retain_nonempty v (remove_subscriber addr m)
        (remove_subscriber-IsSubscriptions addr m i)
      ∙ subscribers-remove_subscriber addr v m)
    ∙ contains-remove SocketAddr-discrete addr q (subscribers v m)

pub withdrawals-left :
    {N : Type 0} (addr q : SocketAddr) (m : Subscriptions) (ks : List (RouteKey N))
    → IsSubscriptions m
    → addr ≢ q
    → withdrawals q (left addr m) ks ≡ withdrawals q m ks
unfolding withdrawals
withdrawals-left addr q m [] i apart = refl
withdrawals-left addr q m (k ∷ ks) i apart =
    ground (arith, subscribed-left addr q k.0 m i, withdrawals-left addr q m ks i apart)
