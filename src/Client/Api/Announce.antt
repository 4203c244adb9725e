-- ===== src/Client/Api/Announce.antt =====
-- `announce` and `withdraw` of src/client.rs: the table of announced routes, the outcome, and the
-- commands to the peers.
use rustbond.Prelude.{
  ◌≡◌, refl, ite, Bool, true, false, not, ◌&&◌, ◌||◌, [], ◌∷◌, ◌++◌, Option, none, some, arith,
  if◌then◌else◌, ℕ_discrete,
}
use rustbond.Collections.Map.{Map, get}
use rustbond.Types.Address.{
  Vni, Action, Destination, NextHop, ConnectionState-discrete, established,
}
use rustbond.Types.Convert.{ok, err, not_established, route_already_announced, route_not_found}
use rustbond.Route.{RouteTable, next_hop_exists}
use rustbond.Route.Clean.{IsClean}
use rustbond.Route.History.{same, add_next_hop_lem, remove_next_hop_lem}
use rustbond.Wire.Message.{Message}
use rustbond.Peer.Session.{PeerCommand, send_update}
use rustbond.Client.Tracker.{ServerId}
use rustbond.Client.Api.{
  Handle, Client, send_command, send_established, send_everywhere, announce, withdraw,
}

module _ {N : Type 0} where
  -- Does the peer get what is sent to the established peers?
  abbrev pub is_ready : Handle N → Bool
  is_ready peer = ite (ConnectionState-discrete peer.state established) peer.is_open false

  abbrev pub any_ready : Map ServerId (Handle N) → Bool
  any_ready [] = false
  any_ready ((s, peer) ∷ peers) = is_ready peer || any_ready peers

  -- A peer with one command more, if it gets it.
  abbrev pub told_if : Bool → PeerCommand N → Option (Handle N) → Option (Handle N)
  told_if b command none = none
  told_if b command (some peer) =
      some (if b then record peer { commands = peer.commands ++ (command ∷ []) } else peer)

  abbrev pub ready_or : (Handle N → Bool) → Option (Handle N) → Bool
  ready_or f none = false
  ready_or f (some peer) = f peer

  pub send_established-any :
      (command : PeerCommand N) (peers : Map ServerId (Handle N))
      → (send_established command peers).1 ≡ any_ready peers
  unfolding send_established send_command
  send_established-any command [] = refl
  send_established-any command ((s, peer) ∷ peers) =
      ground (arith, send_established-any command peers)

  -- What is sent to the peers leaves them ready.
  pub any_ready-send_established :
      (command : PeerCommand N) (peers : Map ServerId (Handle N))
      → any_ready (send_established command peers).0 ≡ any_ready peers
  unfolding send_established send_command
  any_ready-send_established command [] = refl
  any_ready-send_established command ((s, peer) ∷ peers) =
      ground (arith, any_ready-send_established command peers)

  pub get-send_established :
      (command : PeerCommand N) (s : ServerId) (peers : Map ServerId (Handle N))
      → get ℕ_discrete s (send_established command peers).0
        ≡ told_if (ready_or is_ready (get ℕ_discrete s peers)) command (get ℕ_discrete s peers)
  unfolding send_established send_command get
  get-send_established command s [] = refl
  get-send_established command s ((s', peer) ∷ peers) =
      ground (arith, get-send_established command s peers)

  pub get-send_everywhere :
      (command : PeerCommand N) (s : ServerId) (peers : Map ServerId (Handle N))
      → get ℕ_discrete s (send_everywhere command peers)
        ≡ told_if
            (ready_or (λ p. p.is_open) (get ℕ_discrete s peers))
            command
            (get ℕ_discrete s peers)
  unfolding send_everywhere send_command get
  get-send_everywhere command s [] = refl
  get-send_everywhere command s ((s', peer) ∷ peers) =
      ground (arith, get-send_everywhere command s peers)

module _ {N : Type 0} (net : Discrete N) where
  same-exists :
      (t : RouteTable N) (v : Vni) (d : Destination N) (h : NextHop) (w : Vni) (e : Destination N)
      (g : NextHop)
      → same net v d h w e g ≡ true
      → next_hop_exists net t v d h ≡ next_hop_exists net t w e g
  unfolding same
  same-exists t v d h w e g p = ground (arith, p)

  -- `announce` refuses exactly a route that is announced already, and answers NotEstablished
  -- exactly if the route is new and no established peer takes the command. In every case the
  -- announced routes are then those from before and this one; each established peer that takes
  -- commands is sent the ADD if the route is new, and no other peer is sent anything.
  pub announce_lem :
      (c : Client N) (v : Vni) (d : Destination N) (h : NextHop)
      → let known = next_hop_exists net c.announced_routes v d h in
        let after = announce net c v d h in
        (after.1 ≡ (
          if known
          then err route_already_announced
          else if any_ready c.peers
          then ok tt
          else err not_established))
        × ((w : Vni) (e : Destination N) (g : NextHop)
            → next_hop_exists net after.0.announced_routes w e g
              ≡ (same net v d h w e g || next_hop_exists net c.announced_routes w e g))
        × ((s : ServerId)
            → get ℕ_discrete s after.0.peers
              ≡ told_if
                  (not known && ready_or is_ready (get ℕ_discrete s c.peers))
                  (send_update (Message.update Action.add v d h))
                  (get ℕ_discrete s c.peers))
  unfolding announce
  announce_lem c v d h =
      let command : PeerCommand N = send_update (Message.update Action.add v d h) in
      let (new, found, size) = add_next_hop_lem net c.announced_routes v d h in
      let any = send_established-any command c.peers in
      (
        ground (arith, any),
        λ w e g. ground (arith, found w e g, same-exists c.announced_routes v d h w e g),
        λ s. ground (arith, get-send_established command s c.peers),
      )

  -- If the table of announced routes is well formed, `withdraw` refuses exactly a route that is
  -- not announced; the announced routes are then those from before without this one, and every
  -- peer that takes commands, established or not, is sent the REMOVE if the route was announced,
  -- and nothing otherwise.
  pub withdraw_lem :
      (c : Client N) (v : Vni) (d : Destination N) (h : NextHop)
      → IsClean net c.announced_routes
      → let known = next_hop_exists net c.announced_routes v d h in
        let after = withdraw net c v d h in
        (after.1 ≡ (if known then ok tt else err route_not_found))
        × ((w : Vni) (e : Destination N) (g : NextHop)
            → next_hop_exists net after.0.announced_routes w e g
              ≡ (not (same net v d h w e g) && next_hop_exists net c.announced_routes w e g))
        × ((s : ServerId)
            → get ℕ_discrete s after.0.peers
              ≡ told_if
                  (known && ready_or (λ p. p.is_open) (get ℕ_discrete s c.peers))
                  (send_update (Message.update Action.remove v d h))
                  (get ℕ_discrete s c.peers))
  unfolding withdraw
  withdraw_lem c v d h clean =
      let command : PeerCommand N = send_update (Message.update Action.remove v d h) in
      let (removed, left, found, size) = remove_next_hop_lem net c.announced_routes v d h clean in
      (
        ground arith,
        λ w e g. ground (arith, found w e g, same-exists c.announced_routes v d h w e g),
        λ s. ground (arith, get-send_everywhere command s c.peers),
      )
