-- ===== src/Tests/Clients.antt =====
-- Applications of the theorems on src/client.rs.
use rustbond.Prelude.{
  ℕ, ◌≡◌, ◌↔◌, refl, arith, true, false, not, ◌&&◌, ◌||◌, List, [], ◌∷◌, ℕ_discrete, if◌then◌else◌,
}
use rustbond.Route
use rustbond.Client.Api.{Client, announce, withdraw}
use rustbond.Client.Api.Announce.{
  announce_lem, any_ready, is_ready, ready_or, told_if, withdraw_lem,
}
use rustbond.Client.Dedup.{
  track, step, take_first, handle_add, handle_remove, remove_server_routes, announced, withdrawn,
  dropped, Step, tracks, calls, Running, at_start, run,
}
use rustbond.Client.Dedup.Calls.{on, tracked}
use rustbond.Client.Dedup.Interleaved.{owed, IsBalanced, run-at_start-IsBalanced}
use rustbond.Client.Dedup.Seen.{announces}
use rustbond.Client.Dedup.Steady.{is_calm, undisturbed}
use rustbond.Client.Dedup.Installed.{installed-run}
use rustbond.Client.Dedup.Race.{overtaken_call}
use rustbond.Client.Tracker.Servers.{IsTracker, servers_of}
use rustbond.Collections.Set.{contains}
use rustbond.Client.Tracker.{ServerId, add_origin, remove_origin, remove_server, retain_others}
use rustbond.Collections.Map.WriteBack.{write_back}
use rustbond.Collections.Set
use rustbond.Collections.Map.{get, insert, remove}
use rustbond.Handler.{add_route, installed}
use rustbond.Peer.Session.{send_update}
use rustbond.Route.{Route, RouteKey, RouteKey-discrete, next_hop_exists}
use rustbond.Route.Clean.{IsClean}
use rustbond.Route.History.{adds, changes, changes-new-IsClean, same}
use rustbond.Tests.Data.{dest, hop}
use rustbond.Types.Address.{
  Action, Destination, Destination-discrete, Ipv6Addr-discrete, NextHop, NextHop-discrete, Vni,
  established, retry,
}
use rustbond.Types.Convert.{err, not_established, ok, route_already_announced, route_not_found}
use rustbond.Wire.Message.{Message}

abbrev pub key : RouteKey ℕ
key = (7, dest 1, hop 1)

abbrev pub steps : List (Step ℕ)
steps =
    tracks 0 (announced 0 key)
    ∷ calls 0
    ∷ tracks 1 (announced 1 key)
    ∷ tracks 0 (withdrawn 0 key)
    ∷ tracks 2 (dropped 2)
    ∷ []

steps-undisturbed : undisturbed ℕ_discrete key at_start steps ≡ true
unfolding undisturbed is_calm on run step track take_first handle_add handle_remove
    remove_server_routes add_origin remove_origin remove_server retain_others write_back get insert
    remove Set.insert Set.remove ℕ_discrete RouteKey-discrete Destination-discrete NextHop-discrete
    Ipv6Addr-discrete
steps-undisturbed = refl

none_owed : on ℕ_discrete key (owed (run ℕ_discrete at_start steps).pending) ≡ []
unfolding on run step track take_first handle_add handle_remove remove_server_routes add_origin
    remove_origin remove_server retain_others write_back get insert remove Set.insert Set.remove
    ℕ_discrete RouteKey-discrete Destination-discrete NextHop-discrete Ipv6Addr-discrete
none_owed = refl

installed-run_example :
    let r = run ℕ_discrete at_start steps in
    (installed ℕ_discrete key r.shared.calls ≡ true)
    ↔ ((s : ServerId) × (announces ℕ_discrete s key r.seen ≡ true))
installed-run_example = installed-run ℕ_discrete key steps steps-undisturbed none_owed

run-at_start-IsBalanced_example : IsBalanced ℕ_discrete (run ℕ_discrete at_start steps)
run-at_start-IsBalanced_example = run-at_start-IsBalanced ℕ_discrete steps

-- One server announces one route.
abbrev announcing : Running ℕ
announcing = record {
  shared = record { origins = record { inner = (key, 0 ∷ []) ∷ [] }; calls = add_route key ∷ [] };
  pending = [];
  seen = announced 0 key ∷ [];
}

announcing-IsTracker : IsTracker ℕ_discrete announcing.shared.origins
unfolding contains
announcing-IsTracker = record { distinct = (refl, tt); origins = ((refl, (refl, tt)), tt) }

announcing_server : servers_of ℕ_discrete announcing.shared.origins key ≡ 0 ∷ []
unfolding servers_of get
announcing_server = ground arith

overtaken_call_example :
    let updates =
      λ (last : List (Step ℕ)). tracks 0 (withdrawn 0 key) ∷ tracks 1 (announced 1 key) ∷ last in
    let in_order = run ℕ_discrete announcing (updates (calls 0 ∷ calls 1 ∷ [])) in
    let late = run ℕ_discrete announcing (updates (calls 1 ∷ calls 0 ∷ [])) in
    ((tracked ℕ_discrete key in_order.shared ≡ true) × (tracked ℕ_discrete key late.shared ≡ true))
    × ((in_order.pending ≡ []) × (late.pending ≡ []))
    × (installed ℕ_discrete key in_order.shared.calls ≡ true)
    × (installed ℕ_discrete key late.shared.calls ≡ false)
overtaken_call_example =
    overtaken_call ℕ_discrete announcing 0 1 key announcing-IsTracker announcing_server refl
      (omega arith)

-- One server is connected, the other is not.
abbrev pub client : Client ℕ
client = record {
  peers =
      (0, record { state = established; is_open = true; commands = [] })
      ∷ (1, record { state = retry; is_open = true; commands = [] })
      ∷ [];
  subscriptions = [];
  announced_routes = changes ℕ_discrete Route.new (adds 7 (dest 1) (hop 1) ∷ []);
}

client-IsClean : IsClean ℕ_discrete client.announced_routes
client-IsClean = changes-new-IsClean ℕ_discrete (adds 7 (dest 1) (hop 1) ∷ [])

announce_lem_example :
    let known = next_hop_exists ℕ_discrete client.announced_routes 7 (dest 1) (hop 2) in
    let after = announce ℕ_discrete client 7 (dest 1) (hop 2) in
    (after.1 ≡ (
      if known
      then err route_already_announced
      else if any_ready client.peers
      then ok tt
      else err not_established))
    × ((w : Vni) (e : Destination ℕ) (g : NextHop)
        → next_hop_exists ℕ_discrete after.0.announced_routes w e g ≡ (
            same ℕ_discrete 7 (dest 1) (hop 2) w e g
            || next_hop_exists ℕ_discrete client.announced_routes w e g))
    × ((s : ServerId)
        → get ℕ_discrete s after.0.peers
          ≡ told_if
              (not known && ready_or is_ready (get ℕ_discrete s client.peers))
              (send_update (Message.update Action.add 7 (dest 1) (hop 2)))
              (get ℕ_discrete s client.peers))
announce_lem_example = announce_lem ℕ_discrete client 7 (dest 1) (hop 2)

withdraw_lem_example :
    let known = next_hop_exists ℕ_discrete client.announced_routes 7 (dest 1) (hop 1) in
    let after = withdraw ℕ_discrete client 7 (dest 1) (hop 1) in
    (after.1 ≡ (if known then ok tt else err route_not_found))
    × ((w : Vni) (e : Destination ℕ) (g : NextHop)
        → next_hop_exists ℕ_discrete after.0.announced_routes w e g ≡ (
            not (same ℕ_discrete 7 (dest 1) (hop 1) w e g)
            && next_hop_exists ℕ_discrete client.announced_routes w e g))
    × ((s : ServerId)
        → get ℕ_discrete s after.0.peers
          ≡ told_if
              (known && ready_or (λ p. p.is_open) (get ℕ_discrete s client.peers))
              (send_update (Message.update Action.remove 7 (dest 1) (hop 1)))
              (get ℕ_discrete s client.peers))
withdraw_lem_example = withdraw_lem ℕ_discrete client 7 (dest 1) (hop 1) client-IsClean
