-- ===== src/Server/Delivery.antt =====
-- Who receives an update from the routing actor of src/server.rs, and what becomes of a peer that
-- does not keep up.
pub mod Updates
use rustbond.Prelude.{
  ◌≡◌, ◌≢◌, refl, sym, ap, ◌∙◌, ite, Bool, true, false, not, ◌&&◌, ◌||◌, List, [], ◌∷◌, ◌++◌,
  Option, none, some, inl, inr, if_pos, if_neg, arith, is_empty, ℕ_discrete, Option-cases,
  if◌then◌else◌,
}
use rustbond.Collections.Set.{Set, contains, Distinct, contains-remove}
use rustbond.Collections.Set
use rustbond.Collections.Set.Append.{contains-append}
use rustbond.Collections.Map.{Map, keys, get, insert, remove, or_default, get-insert, get-remove}
use rustbond.Types.Address.{Vni, Action}
use rustbond.Route.{RouteKey}
use rustbond.Wire.Message.{Message}
use rustbond.Server.Channel.{TrySend, Mpsc}
use rustbond.Server.Peers.{
  SocketAddr, SocketAddr-discrete, Subscriptions, remove_subscriber, remove_slow, offer,
  distribute_update, distribute_remove,
}

-- The subscribers of a VNI.
abbrev pub subscribers : Vni → Subscriptions → Set SocketAddr
subscribers v m = or_default [] (get ℕ_discrete v m)

-- Is the address one of a list, other than the sender's?
abbrev pub is_target : SocketAddr → SocketAddr → List SocketAddr → Bool
is_target q from subs = ite (SocketAddr-discrete q from) false (contains SocketAddr-discrete q subs)

pub subscribers-remove_subscriber :
    (addr : SocketAddr) (v : Vni) (m : Subscriptions)
    → subscribers v (remove_subscriber addr m)
      ≡ Set.remove SocketAddr-discrete addr (subscribers v m)
unfolding remove_subscriber get Set.remove
subscribers-remove_subscriber addr v [] = refl
subscribers-remove_subscriber addr v ((w, subs) ∷ m) =
    ground (arith, subscribers-remove_subscriber addr v m)

module _ {S : Type 0} where
  pub get-remove_slow :
      (q : SocketAddr) (slow : List SocketAddr) (peers : Map SocketAddr S) (m : Subscriptions)
      → get SocketAddr-discrete q (remove_slow slow (peers, m)).0
        ≡ (if contains SocketAddr-discrete q slow then none else get SocketAddr-discrete q peers)
  unfolding remove_slow contains
  get-remove_slow q [] peers m = refl
  get-remove_slow q (addr ∷ slow) peers m =
      get-remove_slow q slow (remove SocketAddr-discrete addr peers) (remove_subscriber addr m)
      ∙ ground (arith, get-remove SocketAddr-discrete addr q peers)

  pub subscribers-remove_slow :
      (q : SocketAddr) (v : Vni) (slow : List SocketAddr) (peers : Map SocketAddr S)
      (m : Subscriptions)
      → contains SocketAddr-discrete q (subscribers v (remove_slow slow (peers, m)).1) ≡ (
          not (contains SocketAddr-discrete q slow)
          && contains SocketAddr-discrete q (subscribers v m))
  unfolding remove_slow contains
  subscribers-remove_slow q v [] peers m = refl
  subscribers-remove_slow q v (addr ∷ slow) peers m =
      subscribers-remove_slow q v slow (remove SocketAddr-discrete addr peers)
        (remove_subscriber addr m)
      ∙ ground (
        arith,
        subscribers-remove_subscriber addr v m,
        contains-remove SocketAddr-discrete addr q (subscribers v m),
      )

module _ {N : Type 0} (chan : Mpsc (Message N)) (msg : Message N) where
  open chan use {Sender, try_send}

  -- A channel after a message was offered to it.
  abbrev pub offered : Option Sender → Option Sender
  offered none = none
  offered (some tx) = some (try_send tx msg).1

  -- Was it full?
  abbrev pub overflows : Option Sender → Bool
  overflows none = false
  overflows (some tx) = elim (try_send tx msg).0 [ TrySend.full ↦ true | _ ↦ false ]

  pub get-offer :
      (addr q : SocketAddr) (peers : Map SocketAddr Sender)
      → get SocketAddr-discrete q (offer chan msg addr peers).0
        ≡ ite
            (SocketAddr-discrete addr q)
            (offered (get SocketAddr-discrete addr peers))
            (get SocketAddr-discrete q peers)
  unfolding offer
  get-offer addr q peers = elim (Option-cases (get SocketAddr-discrete addr peers)) [
    | inl p ↦ rw (p, offer) (ground arith)
    | inr (tx, p) ↦ rw (p, offer) (get-insert SocketAddr-discrete addr q (try_send tx msg).1 peers)
  ]

  pub offer-overflows :
      (addr : SocketAddr) (peers : Map SocketAddr Sender)
      → (offer chan msg addr peers).1 ≡ overflows (get SocketAddr-discrete addr peers)
  unfolding offer
  offer-overflows addr peers = ground arith

  -- The loop of `handle_update`, peer by peer: a target is offered the message once, any other
  -- peer's channel is left alone, and the targets whose channel was full are reported.
  pub distribute_update_lem :
      (q from : SocketAddr) (subs : List SocketAddr) (peers : Map SocketAddr Sender)
      (slow : List SocketAddr)
      → Distinct SocketAddr-discrete subs
      → (get SocketAddr-discrete q (distribute_update chan from msg subs (peers, slow)).0 ≡ (
          if is_target q from subs
          then offered (get SocketAddr-discrete q peers)
          else get SocketAddr-discrete q peers))
        × (contains SocketAddr-discrete q (distribute_update chan from msg subs (peers, slow)).1 ≡ (
            contains SocketAddr-discrete q slow
            || is_target q from subs && overflows (get SocketAddr-discrete q peers)))
  unfolding distribute_update contains
  distribute_update_lem q from [] peers slow d = (ground arith, ground arith)
  distribute_update_lem q from (addr ∷ subs) peers slow d = elim (SocketAddr-discrete addr from) [
    | yes p ↦
        let (got, reported) = distribute_update_lem q from subs peers slow d.1 in
        (ground (arith, got), ground (arith, reported))
    | no p ↦
        let peers' = (offer chan msg addr peers).0 in
        let slow' = if (offer chan msg addr peers).1 then slow ++ (addr ∷ []) else slow in
        let (got, reported) = distribute_update_lem q from subs peers' slow' d.1 in
        let sent_one = get-offer addr q peers in
        let full_one = offer-overflows addr peers in
        let appended = contains-append SocketAddr-discrete q slow (addr ∷ []) in
        (
          ground (arith, got, sent_one, d.0),
          ground (arith, reported, sent_one, full_one, appended, d.0),
        )
  ]
