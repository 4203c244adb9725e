-- ===== src/Client/Tracker/Retain.antt =====
-- `remove_server` of `RouteOriginTracker`: the loop of `retain`, route by route.
use rustbond.Prelude.{◌≡◌, refl, false, not, ◌&&◌, [], ◌∷◌, arith, is_empty, ℕ_discrete}
use rustbond.Collections.Set.{Set, contains, Distinct}
use rustbond.Collections.Set
use rustbond.Collections.Map.{Map, keys, get, or_default, get_of-not-contains}
use rustbond.Collections.Map.Members.{AllValues}
use rustbond.Route.{RouteKey, RouteKey-discrete}
use rustbond.Client.Tracker.{ServerId, RouteOriginTracker, retain_others, remove_server}
use rustbond.Client.Tracker.Servers.{IsServers, IsTracker, servers_of}

module _ {N : Type 0} (net : Discrete N) (s : ServerId) where
  kept_absent :
      (q : RouteKey N) (m : Map (RouteKey N) (Set ServerId))
      → contains (RouteKey-discrete net) q (keys m) ≡ false
      → (contains (RouteKey-discrete net) q (keys (retain_others s m).0) ≡ false)
        × (contains (RouteKey-discrete net) q (retain_others s m).1 ≡ false)
  unfolding retain_others contains
  kept_absent q [] h = (refl, refl)
  kept_absent q ((k, servers) ∷ m) h = ground (arith, kept_absent q m)

  get-retain :
      (q : RouteKey N) (m : Map (RouteKey N) (Set ServerId))
      → Distinct (RouteKey-discrete net) (keys m)
      → or_default [] (get (RouteKey-discrete net) q (retain_others s m).0)
        ≡ Set.remove ℕ_discrete s (or_default [] (get (RouteKey-discrete net) q m))
  unfolding retain_others get Set.remove
  get-retain q [] d = refl
  get-retain q ((k, servers) ∷ m) d = ground (
    arith,
    get-retain q m d.1,
    kept_absent k m d.0,
    get_of-not-contains (RouteKey-discrete net) k (retain_others s m).0,
  )

  contains-notify :
      (q : RouteKey N) (m : Map (RouteKey N) (Set ServerId))
      → Distinct (RouteKey-discrete net) (keys m)
      → AllValues IsServers m
      → contains (RouteKey-discrete net) q (retain_others s m).1 ≡ (
          not (is_empty (or_default [] (get (RouteKey-discrete net) q m)))
          && is_empty (Set.remove ℕ_discrete s (or_default [] (get (RouteKey-discrete net) q m))))
  unfolding retain_others get contains
  contains-notify q [] d a = refl
  contains-notify q ((k, servers) ∷ m) d a = ground (
    arith,
    contains-notify q m d.1 a.1,
    kept_absent k m d.0,
    get_of-not-contains (RouteKey-discrete net) k m,
  )

  retain-Distinct :
      (m : Map (RouteKey N) (Set ServerId))
      → Distinct (RouteKey-discrete net) (keys m)
      → Distinct (RouteKey-discrete net) (keys (retain_others s m).0)
        × Distinct (RouteKey-discrete net) (retain_others s m).1
  unfolding retain_others
  retain-Distinct [] d = (tt, tt)
  retain-Distinct ((k, servers) ∷ m) d = ground (arith, retain-Distinct m d.1, kept_absent k m d.0)

  retain-IsServers :
      (m : Map (RouteKey N) (Set ServerId))
      → AllValues IsServers m
      → AllValues IsServers (retain_others s m).0
  unfolding retain_others
  retain-IsServers [] a = tt
  retain-IsServers ((k, servers) ∷ m) a =
      ground (arith, retain-IsServers m a.1, Set.remove-Distinct ℕ_discrete s servers a.0.1)

  module _ (t : RouteOriginTracker N) (i : IsTracker net t) where
    pub remove_server-IsTracker : IsTracker net (remove_server t s).0
    unfolding remove_server
    remove_server-IsTracker = record {
      distinct = (retain-Distinct t.inner i.distinct).0;
      origins = retain-IsServers t.inner i.origins;
    }

    -- In a well-formed tracker, `remove_server` takes the server from every route, and reports,
    -- each once, the routes that it was the last one to announce.
    pub remove_server_lem :
        ((q : RouteKey N)
          → servers_of net (remove_server t s).0 q ≡ Set.remove ℕ_discrete s (servers_of net t q))
        × ((q : RouteKey N)
            → contains (RouteKey-discrete net) q (remove_server t s).1 ≡ (
                not (is_empty (servers_of net t q))
                && is_empty (servers_of net (remove_server t s).0 q)))
        × Distinct (RouteKey-discrete net) (remove_server t s).1
    unfolding remove_server servers_of
    remove_server_lem = (
      λ q. get-retain q t.inner i.distinct,
      λ q.
          ground (
            arith,
            contains-notify q t.inner i.distinct i.origins,
            get-retain q t.inner i.distinct,
          ),
      (retain-Distinct t.inner i.distinct).1,
    )
