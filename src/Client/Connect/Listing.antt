-- ===== src/Client/Connect/Listing.antt =====
-- What a client of src/client.rs tells of the routes that it has received.
use rustbond.Prelude.{◌≡◌, ◌↔◌, ◌∙◌, refl, sym, true, not, List, [], ◌∷◌, arith, is_empty}
use rustbond.Collections.Set.{Set, contains, Distinct}
use rustbond.Collections.Map.{Map, keys, get, or_default}
use rustbond.Collections.Map.Members.{AllValues}
use rustbond.Types.Address.{Vni}
use rustbond.Route.{Route, Route-discrete, RouteKey, RouteKey-discrete}
use rustbond.Client.Tracker.{ServerId, get_all}
use rustbond.Client.Tracker.Servers.{IsServers, IsTracker, servers_of}
use rustbond.Client.Dedup.{Shared, key_of, Step, at_start, run}
use rustbond.Client.Dedup.Calls.{tracked}
use rustbond.Client.Dedup.Interleaved.{run-at_start-IsBalanced}
use rustbond.Client.Dedup.Seen.{announces}
use rustbond.Client.Dedup.Installed.{tracked-run}
use rustbond.Client.Connect.{routes_of_vni, get_received_routes}

module _ {N : Type 0} (net : Discrete N) where
  contains-routes_of_vni :
      (v : Vni) (r : Route N) (m : Map (RouteKey N) (Set ServerId))
      → contains (Route-discrete net) r (routes_of_vni v m)
        ≡ contains (RouteKey-discrete net) (key_of v r) (keys m)
  unfolding routes_of_vni contains
  contains-routes_of_vni v r [] = refl
  contains-routes_of_vni v r (((w, d, h), servers) ∷ m) =
      ground (arith, contains-routes_of_vni v r m)

  routes_of_vni-Distinct :
      (v : Vni) (m : Map (RouteKey N) (Set ServerId))
      → Distinct (RouteKey-discrete net) (keys m)
      → Distinct (Route-discrete net) (routes_of_vni v m)
  unfolding routes_of_vni contains
  routes_of_vni-Distinct v [] d = tt
  routes_of_vni-Distinct v (((w, d, h), servers) ∷ m) e =
      let r : Route N = record { destination = d; next_hop = h } in
      ground (arith, e.0, routes_of_vni-Distinct v m e.1, contains-routes_of_vni v r m)

  contains-keys_servers :
      (k : RouteKey N) (m : Map (RouteKey N) (Set ServerId))
      → AllValues IsServers m
      → contains (RouteKey-discrete net) k (keys m)
        ≡ not (is_empty (or_default [] (get (RouteKey-discrete net) k m)))
  unfolding contains get
  contains-keys_servers k [] a = refl
  contains-keys_servers k ((j, servers) ∷ m) a = ground (arith, a.0, contains-keys_servers k m a.1)

  contains-get_received_routes :
      (st : Shared N) (v : Vni) (r : Route N)
      → IsTracker net st.origins
      → contains (Route-discrete net) r (get_received_routes st v) ≡ tracked net (key_of v r) st
  unfolding get_received_routes get_all servers_of tracked
  contains-get_received_routes st v r i = ground (
    arith,
    contains-routes_of_vni v r st.origins.inner,
    contains-keys_servers (key_of v r) st.origins.inner i.origins,
  )

  -- Whatever the client's tasks do, in whatever order of their steps, `get_received_routes` lists
  -- exactly the routes of the VNI that some server announces, by the updates that the tracker has
  -- seen and the calls of `remove_server_routes`, each of them once.
  pub get_received_routes-run :
      (ss : List (Step N)) (v : Vni)
      → let after = run net at_start ss in
        ((r : Route N)
          → (contains (Route-discrete net) r (get_received_routes after.shared v) ≡ true)
            ↔ ((s : ServerId) × (announces net s (key_of v r) after.seen ≡ true)))
        × Distinct (Route-discrete net) (get_received_routes after.shared v)
  unfolding get_received_routes get_all
  get_received_routes-run ss v =
      let after = run net at_start ss in
      let i = (run-at_start-IsBalanced net ss).tracker in
      (
        λ r.
            let same = contains-get_received_routes after.shared v r i in
            let (there, back) = tracked-run net ss (key_of v r) in
            (λ h. there (sym same ∙ h), λ h. same ∙ back h),
        routes_of_vni-Distinct v after.shared.origins.inner i.distinct,
      )
