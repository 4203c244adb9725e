-- ===== src/Client/Tracker.antt =====
-- `RouteOriginTracker` of src/client.rs: which servers announced each route. Its lock is held
-- through each method, so that a method is one step.
pub mod Servers
pub mod Retain
use rustbond.Prelude.{
  ℕ, ◌≡◌, Bool, false, true, List, [], ◌∷◌, map, Option, none, some, length, is_empty, ◌==◌,
  if◌then◌else◌, ℕ_discrete,
}
use rustbond.Collections.Set.{Set}
use rustbond.Collections.Set
use rustbond.Collections.Map.{Map, get, insert, remove, or_default}
use rustbond.Collections.Map.WriteBack.{write_back}
use rustbond.Route.{RouteKey, RouteKey-discrete}

-- `struct ServerId(pub usize)`
abbrev pub ServerId : Type 0
ServerId = ℕ

pub record RouteOriginTracker (N : Type 0) : Type 0 where
  pub inner : Map (RouteKey N) (Set ServerId)

-- `RouteOriginTracker::new`
abbrev pub new : {N : Type 0} → RouteOriginTracker N
new = record { inner = [] }

-- The closure that `remove_server` hands to `retain`, with the loop: what stays, and `to_notify`.
unfoldable pub retain_others :
    {N : Type 0}
    → ServerId
    → Map (RouteKey N) (Set ServerId)
    → Map (RouteKey N) (Set ServerId) × List (RouteKey N)
retain_others server [] = ([], [])
retain_others server ((key, servers) ∷ m) =
    let (kept, to_notify) = retain_others server m in
    let servers' = Set.remove ℕ_discrete server servers in
    if is_empty servers' then (kept, key ∷ to_notify) else ((key, servers') ∷ kept, to_notify)

module _ {N : Type 0} where
  unfoldable pub remove_server :
      RouteOriginTracker N → ServerId → RouteOriginTracker N × List (RouteKey N)
  unfolding retain_others
  remove_server t server =
      let (kept, to_notify) = retain_others server t.inner in (record t { inner = kept }, to_notify)

  unfoldable pub len : RouteOriginTracker N → ℕ
  len t = length t.inner

  unfoldable pub tracker_is_empty : RouteOriginTracker N → Bool
  tracker_is_empty t = len t == 0

  unfoldable pub get_all : RouteOriginTracker N → List (RouteKey N × Set ServerId)
  get_all t = t.inner

module _ {N : Type 0} (net : Discrete N) where
  -- The tracker with the server, and whether it is the first to announce the route.
  unfoldable pub add_origin :
      RouteOriginTracker N → RouteKey N → ServerId → RouteOriginTracker N × Bool
  add_origin t key server =
      let servers = or_default [] (get (RouteKey-discrete net) key t.inner) in
      let servers' = Set.insert ℕ_discrete server servers in
      (record t { inner = insert (RouteKey-discrete net) key servers' t.inner }, is_empty servers)

  -- The tracker without the server, and whether all servers have now withdrawn the route.
  unfoldable pub remove_origin :
      RouteOriginTracker N → RouteKey N → ServerId → RouteOriginTracker N × Bool
  remove_origin t key server = elim (get (RouteKey-discrete net) key t.inner) [
    | none ↦ (t, false)
    | some servers ↦
        let servers' = Set.remove ℕ_discrete server servers in
        (
          record t { inner = write_back (RouteKey-discrete net) key servers' t.inner },
          is_empty servers',
        )
  ]

  unfoldable pub get_servers : RouteOriginTracker N → RouteKey N → Option (Set ServerId)
  get_servers t key = get (RouteKey-discrete net) key t.inner
