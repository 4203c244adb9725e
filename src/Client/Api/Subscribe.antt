-- ===== src/Client/Api/Subscribe.antt =====
-- `subscribe` and `unsubscribe` of src/client.rs.
use rustbond.Prelude.{◌≡◌, refl, ite, true, false, arith, ℕ_discrete, if◌then◌else◌}
use rustbond.Collections.Set.{contains, contains-insert, contains-remove}
use rustbond.Collections.Map.{get}
use rustbond.Types.Address.{Vni}
use rustbond.Types.Convert.{ok, err, not_established}
use rustbond.Peer.Session.{PeerCommand}
use rustbond.Client.Tracker.{ServerId}
use rustbond.Client.Api.{Client, subscribe, unsubscribe}
use rustbond.Client.Api.Announce.{
  is_ready, any_ready, told_if, ready_or, send_established-any, get-send_established,
  get-send_everywhere,
}

module _ {N : Type 0} where
  -- `subscribe` keeps the VNI, even where it answers NotEstablished, which it does exactly if no
  -- established peer takes the command; only established peers are told.
  pub subscribe_lem :
      (c : Client N) (v : Vni)
      → let after = subscribe c v in
        (after.1 ≡ (if any_ready c.peers then ok tt else err not_established))
        × ((w : Vni)
            → contains ℕ_discrete w after.0.subscriptions
              ≡ ite (ℕ_discrete v w) true (contains ℕ_discrete w c.subscriptions))
        × ((s : ServerId)
            → get ℕ_discrete s after.0.peers
              ≡ told_if
                  (ready_or is_ready (get ℕ_discrete s c.peers))
                  (PeerCommand.subscribe v)
                  (get ℕ_discrete s c.peers))
  unfolding subscribe
  subscribe_lem c v = (
    ground (arith, send_established-any (PeerCommand.subscribe v) c.peers),
    λ w. contains-insert ℕ_discrete v w c.subscriptions,
    λ s. get-send_established (PeerCommand.subscribe v) s c.peers,
  )

  -- `unsubscribe` always succeeds: the VNI is kept no longer, and every peer that takes commands
  -- is told, established or not.
  pub unsubscribe_lem :
      (c : Client N) (v : Vni)
      → let after = unsubscribe c v in
        (after.1 ≡ ok tt)
        × ((w : Vni)
            → contains ℕ_discrete w after.0.subscriptions
              ≡ ite (ℕ_discrete v w) false (contains ℕ_discrete w c.subscriptions))
        × ((s : ServerId)
            → get ℕ_discrete s after.0.peers
              ≡ told_if
                  (ready_or (λ p. p.is_open) (get ℕ_discrete s c.peers))
                  (PeerCommand.unsubscribe v)
                  (get ℕ_discrete s c.peers))
  unfolding unsubscribe
  unsubscribe_lem c v = (
    refl,
    λ w. contains-remove ℕ_discrete v w c.subscriptions,
    λ s. get-send_everywhere (PeerCommand.unsubscribe v) s c.peers,
  )
