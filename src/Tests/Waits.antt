-- ===== src/Tests/Waits.antt =====
-- The theorems on the client of src/client.rs that concern its servers, at concrete values.
use rustbond.Prelude.{
  ℕ, ◌≡◌, ◌↔◌, refl, ite, true, false, List, [], ◌∷◌, some, ℕ_discrete, if◌then◌else◌,
}
use rustbond.Collections.Set.{contains, Distinct}
use rustbond.Collections.Map.{get}
use rustbond.Types.Address.{Vni, ConnectionState, connecting, established, closed, retry}
use rustbond.Types.Convert.{ok, err, not_established}
use rustbond.Route.{Route, Route-discrete}
use rustbond.Peer.Session.{PeerCommand}
use rustbond.Client.Tracker.{ServerId}
use rustbond.Client.Dedup.{key_of, at_start, run}
use rustbond.Client.Dedup.Seen.{announces}
use rustbond.Client.Api.{client_state, subscribe, unsubscribe}
use rustbond.Client.Api.Announce.{any_ready, is_ready, ready_or, told_if}
use rustbond.Client.Api.Subscribe.{subscribe_lem, unsubscribe_lem}
use rustbond.Client.Wait.{
  Wake, wait_any_established, wait_all_established, every_closed, some_closed, look_any,
}
use rustbond.Client.Wait.Outcome.{
  IsWait, is_established, every_established, wait_any_established_lem, wait_all_established_lem,
}
use rustbond.Client.Connect.{MetalBondClient, connect, get_received_routes}
use rustbond.Client.Connect.Servers.{IsConnected, connect_lem}
use rustbond.Client.Connect.State.{IsStateOf, client_state_lem}
use rustbond.Client.Connect.Listing.{get_received_routes-run}
use rustbond.Prelude.{any}
use rustbond.Tests.Clients.{client, steps}

-- First no peer is established, then the second.
abbrev before : List ConnectionState
before = connecting ∷ retry ∷ []

abbrev changes : List Wake
changes =
    record { dropped = false; seen = []; next = connecting ∷ established ∷ [] }
    ∷ record { dropped = true; seen = closed ∷ established ∷ []; next = closed ∷ closed ∷ [] }
    ∷ []

waited : wait_any_established before changes ≡ some (ok tt)
unfolding wait_any_established look_any
waited = refl

wait_any_established_lem_example :
    IsWait (any is_established) every_closed before changes (wait_any_established before changes)
wait_any_established_lem_example = wait_any_established_lem before changes

wait_all_established_lem_example :
    IsWait every_established some_closed before changes (wait_all_established before changes)
wait_all_established_lem_example = wait_all_established_lem before changes

connect_lem_example :
    (c : MetalBondClient ℕ) × (connect ("[::1]:4711" ∷ "[::1]:4712" ∷ []) ≡ some c)
    × IsConnected ("[::1]:4711" ∷ "[::1]:4712" ∷ []) c
connect_lem_example = connect_lem ("[::1]:4711" ∷ "[::1]:4712" ∷ []) refl

client_state_lem_example : IsStateOf client.peers (client_state client)
client_state_lem_example = client_state_lem client

get_received_routes-run_example :
    let after = run ℕ_discrete at_start steps in
    ((r : Route ℕ)
      → (contains (Route-discrete ℕ_discrete) r (get_received_routes after.shared 7) ≡ true)
        ↔ ((s : ServerId) × (announces ℕ_discrete s (key_of 7 r) after.seen ≡ true)))
    × Distinct (Route-discrete ℕ_discrete) (get_received_routes after.shared 7)
get_received_routes-run_example = get_received_routes-run ℕ_discrete steps 7

subscribe_lem_example :
    let after = subscribe client 7 in
    (after.1 ≡ (if any_ready client.peers then ok tt else err not_established))
    × ((w : Vni)
        → contains ℕ_discrete w after.0.subscriptions
          ≡ ite (ℕ_discrete 7 w) true (contains ℕ_discrete w client.subscriptions))
    × ((s : ServerId)
        → get ℕ_discrete s after.0.peers
          ≡ told_if
              (ready_or is_ready (get ℕ_discrete s client.peers))
              (PeerCommand.subscribe 7)
              (get ℕ_discrete s client.peers))
subscribe_lem_example = subscribe_lem client 7

unsubscribe_lem_example :
    let after = unsubscribe client 7 in
    (after.1 ≡ ok tt)
    × ((w : Vni)
        → contains ℕ_discrete w after.0.subscriptions
          ≡ ite (ℕ_discrete 7 w) false (contains ℕ_discrete w client.subscriptions))
    × ((s : ServerId)
        → get ℕ_discrete s after.0.peers
          ≡ told_if
              (ready_or (λ p. p.is_open) (get ℕ_discrete s client.peers))
              (PeerCommand.unsubscribe 7)
              (get ℕ_discrete s client.peers))
unsubscribe_lem_example = unsubscribe_lem client 7
