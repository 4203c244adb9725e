-- ===== src/Server/Peers.antt =====
-- The peers of src/server.rs as the routing actor keeps them: subscriptions, and the loops that send
-- a message to the subscribers of a VNI.
use rustbond.Prelude.{
  ℕ, ite, Bool, true, false, List, [], ◌∷◌, ◌++◌, none, some, is_empty, ℕ_discrete, if◌then◌else◌,
}
use rustbond.Collections.Set.{Set, contains}
use rustbond.Collections.Set
use rustbond.Collections.Map.{Map, get, insert, remove}
use rustbond.Types.Address.{IpAddr, IpAddr-discrete, Vni}
use rustbond.Wire.Message.{Message}
use rustbond.Server.Channel.{TrySend, Mpsc}

-- `std::net::SocketAddr`, without the IPv6 flow label and scope.
pub record SocketAddr : Type 0 where
  pub ip : IpAddr
  pub port : ℕ

pub SocketAddr-discrete : Discrete SocketAddr
SocketAddr-discrete = hlevel (IpAddr-discrete, ℕ_discrete)

abbrev pub Subscriptions : Type 0
Subscriptions = Map Vni (Set SocketAddr)

-- `for subs in self.subscriptions.values_mut() { subs.remove(&addr); }`
unfoldable pub remove_subscriber : SocketAddr → Subscriptions → Subscriptions
remove_subscriber addr [] = []
remove_subscriber addr ((vni, subs) ∷ m) =
    (vni, Set.remove SocketAddr-discrete addr subs) ∷ remove_subscriber addr m

-- `self.subscriptions.retain(|_, peers| !peers.is_empty())`
unfoldable pub retain_nonempty : Subscriptions → Subscriptions
retain_nonempty [] = []
retain_nonempty ((vni, subs) ∷ m) =
    let rest = retain_nonempty m in if is_empty subs then rest else (vni, subs) ∷ rest

-- The loop `for addr in slow_consumers`.
unfoldable pub remove_slow :
    {S : Type 0}
    → List SocketAddr
    → Map SocketAddr S × Subscriptions
    → Map SocketAddr S × Subscriptions
remove_slow [] state = state
remove_slow (addr ∷ slow) (peers, subscriptions) =
    remove_slow slow (remove SocketAddr-discrete addr peers, remove_subscriber addr subscriptions)

module _ {N : Type 0} (chan : Mpsc (Message N)) where
  open chan use {Sender, try_send}

  -- One subscriber's turn in the loops that distribute a message: its channel after `try_send`, if
  -- it is registered, and whether the channel was full.
  unfoldable pub offer :
      Message N → SocketAddr → Map SocketAddr Sender → Map SocketAddr Sender × Bool
  offer msg addr peers = elim (get SocketAddr-discrete addr peers) [
    | none ↦ (peers, false)
    | some tx ↦
        let (outcome, tx') = try_send tx msg in
        (
          insert SocketAddr-discrete addr tx' peers,
          elim outcome [ TrySend.full ↦ true | _ ↦ false ],
        )
  ]

  -- The loop `for &addr in subs` of `handle_update`; `slow` is `slow_consumers`.
  unfoldable pub distribute_update :
      SocketAddr
      → Message N
      → List SocketAddr
      → Map SocketAddr Sender × List SocketAddr
      → Map SocketAddr Sender × List SocketAddr
  distribute_update from msg [] state = state
  distribute_update from msg (addr ∷ subs) (peers, slow) =
      let (peers', is_full) = offer msg addr peers in
      distribute_update from msg subs (
        ite (SocketAddr-discrete addr from) (peers, slow)
          (peers', if is_full then slow ++ (addr ∷ []) else slow))

  -- The loop `for sub_addr in subs` of `handle_peer_disconnected`.
  unfoldable pub distribute_remove :
      Message N
      → List SocketAddr
      → Map SocketAddr Sender × List SocketAddr
      → Map SocketAddr Sender × List SocketAddr
  distribute_remove msg [] state = state
  distribute_remove msg (addr ∷ subs) (peers, slow) =
      let (peers', is_full) = offer msg addr peers in
      let known = contains SocketAddr-discrete addr slow in
      distribute_remove msg subs
        (peers', if is_full then if known then slow else slow ++ (addr ∷ []) else slow)
