-- ===== src/Client/Dedup.antt =====
-- `DeduplicatingHandler` and `remove_server_routes` of src/client.rs: the calls that the user's
-- `RouteHandler` receives. The tracker's lock is released before a call is made, so that a method
-- gives the calls that it still has to make, and another server's steps may come between.
pub mod Calls
pub mod Interleaved
pub mod Seen
pub mod Steady
pub mod Alone
pub mod Installed
pub mod Race
use rustbond.Prelude.{
  ℕ, map, Bool, true, false, List, [], ◌∷◌, ◌++◌, Option, none, some, ◌==◌, any, if◌then◌else◌,
}
use rustbond.Types.Address.{Vni}
use rustbond.Route.{RouteKey, Route}
use rustbond.Handler.{Call, add_route, remove_route}
use rustbond.Client.Tracker.{
  ServerId, RouteOriginTracker, new, add_origin, remove_origin, remove_server,
}

-- The part of `ClientSharedState` that route updates change, with the calls of the user's handler
-- that were made, the latest first.
pub record Shared (N : Type 0) : Type 0 where
  pub origins : RouteOriginTracker N
  pub calls : List (Call N)

abbrev pub init : {N : Type 0} → Shared N
init = record { origins = new; calls = [] }

-- The key of a route, and the route of a key: `route.destination`, `route.next_hop`, `Route::new`.
abbrev pub key_of : {N : Type 0} → Vni → Route N → RouteKey N
key_of vni route = (vni, route.destination, route.next_hop)

abbrev pub route_of : {N : Type 0} → RouteKey N → Route N
route_of (vni, dest, hop) = record { destination = dest; next_hop = hop }

module _ {N : Type 0} (net : Discrete N) where
  -- `add_route` of the handler of the server: the tracker's change, and the call that follows.
  unfoldable pub handle_add : Shared N → ServerId → RouteKey N → Shared N × List (Call N)
  handle_add st server key =
      let (origins', first) = add_origin net st.origins key server in
      (record st { origins = origins' }, if first then add_route key ∷ [] else [])

  -- `remove_route` of the handler of the server, in the same way.
  unfoldable pub handle_remove : Shared N → ServerId → RouteKey N → Shared N × List (Call N)
  handle_remove st server key =
      let (origins', last) = remove_origin net st.origins key server in
      (record st { origins = origins' }, if last then remove_route key ∷ [] else [])

-- `remove_server_routes` of the client: the tracker's change, the calls that follow, and the routes
-- that it returns.
unfoldable pub remove_server_routes :
    {N : Type 0} → Shared N → ServerId → Shared N × List (Call N) × List (Route N)
remove_server_routes st server =
    let (origins', removed) = remove_server st.origins server in
    (record st { origins = origins' }, map (λ key. remove_route key) removed, map route_of removed)

-- What reaches the client: an update from a server, or a call of `remove_server_routes`.
pub data Event (N : Type 0) : Type 0 where
  announced withdrawn : ServerId → RouteKey N → Event N
  dropped : ServerId → Event N

-- A step of one of the client's tasks, by the task's number: it takes an event to the tracker, or
-- makes the next of the calls that it still has to make.
pub data Step (N : Type 0) : Type 0 where
  tracks : ℕ → Event N → Step N
  calls : ℕ → Step N

-- The client between two steps: the calls that are still to be made, each with the task that makes
-- it, the oldest first; and the events that the tracker has seen, the latest first.
pub record Running (N : Type 0) : Type 0 where
  pub shared : Shared N
  pub pending : List (ℕ × Call N)
  pub seen : List (Event N)

abbrev pub at_start : {N : Type 0} → Running N
at_start = record { shared = init; pending = []; seen = [] }

-- Has the task calls to make?
abbrev pub is_busy : {N : Type 0} → ℕ → List (ℕ × Call N) → Bool
is_busy t = any (λ p. p.0 == t)

-- The first call of the task, and the other calls.
unfoldable pub take_first :
    {N : Type 0} → ℕ → List (ℕ × Call N) → Option (Call N × List (ℕ × Call N))
take_first t [] = none
take_first t ((u, c) ∷ pending) =
    let rest = take_first t pending in
    if u == t
    then some (c, pending)
    else elim rest [ none ↦ none | some r ↦ some (r.0, (u, c) ∷ r.1) ]

module _ {N : Type 0} (net : Discrete N) where
  -- The tracker's part of an event.
  unfoldable pub track : Shared N → Event N → Shared N × List (Call N)
  track st (announced s k) = handle_add net st s k
  track st (withdrawn s k) = handle_remove net st s k
  track st (dropped s) = let (st', made, routes) = remove_server_routes st s in (st', made)

  -- One step. A task that has calls to make takes no event, and one that has none makes no call.
  unfoldable pub step : Running N → Step N → Running N
  unfolding track take_first
  step r (tracks t e) =
      let (st', made) = track r.shared e in
      if is_busy t r.pending
      then r
      else record { shared = st'; pending = r.pending ++ map (λ c. (t, c)) made; seen = e ∷ r.seen }
  step r (calls t) = elim (take_first t r.pending) [
    | none ↦ r
    | some next ↦ record r {
      shared = record r.shared { calls = next.0 ∷ r.shared.calls };
      pending = next.1;
    }
  ]

  unfoldable pub run : Running N → List (Step N) → Running N
  run r [] = r
  run r (s ∷ ss) = run (step r s) ss
