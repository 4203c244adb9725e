-- ===== src/Client/Dedup/Calls.antt =====
-- The calls that the methods of src/client.rs make on one route, against the tracker's change.
use rustbond.Prelude.{
  ◌≡◌, refl, ite, Bool, true, false, not, List, [], ◌∷◌, ◌++◌, map, arith, is_empty, ℕ_discrete,
  if◌then◌else◌,
}
use rustbond.Collections.Set.{contains, Distinct}
use rustbond.Collections.Set
use rustbond.Route.{RouteKey, RouteKey-discrete}
use rustbond.Handler.{Call, add_route, remove_route, installed}
use rustbond.Client.Tracker.{ServerId, remove_server}
use rustbond.Client.Tracker.Servers.{
  IsTracker, servers_of, servers_of-add, first-servers_of, servers_of-remove, last-servers_of,
  add-IsTracker, remove-IsTracker,
}
use rustbond.Client.Tracker.Retain.{remove_server_lem, remove_server-IsTracker}
use rustbond.Client.Dedup.{
  Shared, handle_add, handle_remove, remove_server_routes, Event, announced, withdrawn, dropped,
  track,
}

-- The one call that takes a route from installed or not to what it should be.
abbrev pub change : Bool → Bool → List Bool
change true true = []
change true false = false ∷ []
change false true = true ∷ []
change false false = []

-- The latest call on a route tells whether it is installed.
abbrev pub latest : List Bool → Bool
latest [] = false
latest (b ∷ bs) = b

module _ {N : Type 0} (net : Discrete N) where
  -- The calls on a route, in their order: true where it is added, false where it is removed.
  unfoldable pub on : RouteKey N → List (Call N) → List Bool
  on q [] = []
  on q (add_route k ∷ cs) = let rest = on q cs in ite (RouteKey-discrete net k q) (true ∷ rest) rest
  on q (remove_route k ∷ cs) =
      let rest = on q cs in ite (RouteKey-discrete net k q) (false ∷ rest) rest

  -- Does some server announce the route, by the tracker?
  unfoldable pub tracked : RouteKey N → Shared N → Bool
  tracked q st = not (is_empty (servers_of net st.origins q))

  on-removes :
      (q : RouteKey N) (removed : List (RouteKey N))
      → Distinct (RouteKey-discrete net) removed
      → on q (map (λ key. remove_route key) removed)
        ≡ (if contains (RouteKey-discrete net) q removed then false ∷ [] else [])
  unfolding on contains
  on-removes q [] d = refl
  on-removes q (k ∷ removed) d = ground (arith, d.0, on-removes q removed d.1)

  add-on :
      (st : Shared N) (s : ServerId) (k q : RouteKey N)
      → on q (handle_add net st s k).1 ≡ change (tracked q st) (tracked q (handle_add net st s k).0)
  unfolding on tracked handle_add
  add-on st s k q = ground (
    arith,
    servers_of-add net st.origins k q s,
    first-servers_of net st.origins k s,
    Set.is_empty-insert ℕ_discrete s (servers_of net st.origins k),
  )

  remove-on :
      (st : Shared N) (s : ServerId) (k q : RouteKey N)
      → IsTracker net st.origins
      → on q (handle_remove net st s k).1
        ≡ change (tracked q st) (tracked q (handle_remove net st s k).0)
  unfolding on tracked handle_remove
  remove-on st s k q i = ground (
    arith,
    servers_of-remove net st.origins k q s,
    last-servers_of net st.origins k s i,
    Set.is_empty-remove ℕ_discrete s (servers_of net st.origins k),
  )

  drop-on :
      (st : Shared N) (s : ServerId) (q : RouteKey N)
      → IsTracker net st.origins
      → on q (remove_server_routes st s).1
        ≡ change (tracked q st) (tracked q (remove_server_routes st s).0)
  unfolding tracked remove_server_routes
  drop-on st s q i =
      let (after, reported, distinct) = remove_server_lem net s st.origins i in
      ground (
        arith,
        on-removes q (remove_server st.origins s).1 distinct,
        after q,
        reported q,
        Set.is_empty-remove ℕ_discrete s (servers_of net st.origins q),
      )

  -- Whatever the tracker is told, the calls on a route are the one that its change asks for.
  pub track-on :
      (st : Shared N) (e : Event N) (q : RouteKey N)
      → IsTracker net st.origins
      → on q (track net st e).1 ≡ change (tracked q st) (tracked q (track net st e).0)
  unfolding track
  track-on st (announced s k) q i = add-on st s k q
  track-on st (withdrawn s k) q i = remove-on st s k q i
  track-on st (dropped s) q i = drop-on st s q i

  pub track-IsTracker :
      (st : Shared N) (e : Event N)
      → IsTracker net st.origins
      → IsTracker net (track net st e).0.origins
  unfolding track handle_add handle_remove remove_server_routes
  track-IsTracker st (announced s k) i = add-IsTracker net st.origins k s i
  track-IsTracker st (withdrawn s k) i = remove-IsTracker net st.origins k s i
  track-IsTracker st (dropped s) i = remove_server-IsTracker net s st.origins i

  -- The tracker makes no call itself.
  pub track-calls : (st : Shared N) (e : Event N) → (track net st e).0.calls ≡ st.calls
  unfolding track handle_add handle_remove remove_server_routes
  track-calls st (announced s k) = refl
  track-calls st (withdrawn s k) = refl
  track-calls st (dropped s) = refl

  pub installed-on : (q : RouteKey N) (cs : List (Call N)) → installed net q cs ≡ latest (on q cs)
  unfolding installed on
  installed-on q [] = refl
  installed-on q (add_route k ∷ cs) = ground (arith, installed-on q cs)
  installed-on q (remove_route k ∷ cs) = ground (arith, installed-on q cs)

  pub on-append : (q : RouteKey N) (cs ds : List (Call N)) → on q (cs ++ ds) ≡ on q cs ++ on q ds
  unfolding on
  on-append q [] ds = refl
  on-append q (add_route k ∷ cs) ds = ground (arith, on-append q cs ds)
  on-append q (remove_route k ∷ cs) ds = ground (arith, on-append q cs ds)
