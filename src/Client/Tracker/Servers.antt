-- ===== src/Client/Tracker/Servers.antt =====
-- What each method of `RouteOriginTracker` does to the servers of a route.
use rustbond.Prelude.{
  ◌≡◌, refl, ite, false, not, ◌&&◌, [], inl, inr, arith, is_empty, ℕ_discrete, Option-cases,
}
use rustbond.Collections.Set.{Set, contains, Distinct}
use rustbond.Collections.Set
use rustbond.Collections.Map.{keys, get, or_default, get-insert, insert-Distinct}
use rustbond.Collections.Map.Members.{AllValues, get-AllValues, insert-AllValues}
use rustbond.Collections.Map.WriteBack.{get-write_back, write_back-Distinct, write_back-AllValues}
use rustbond.Route.{RouteKey, RouteKey-discrete}
use rustbond.Client.Tracker.{ServerId, RouteOriginTracker, new, add_origin, remove_origin}

-- At least one server, and none twice.
abbrev pub IsServers : Set ServerId → Type 0
IsServers servers = (is_empty servers ≡ false) × Distinct ℕ_discrete servers

module _ {N : Type 0} (net : Discrete N) where
  unfoldable pub servers_of : RouteOriginTracker N → RouteKey N → Set ServerId
  servers_of t key = or_default [] (get (RouteKey-discrete net) key t.inner)

  -- No route is kept without a server.
  pub record IsTracker (t : RouteOriginTracker N) : Type 0 where
    pub distinct : Distinct (RouteKey-discrete net) (keys t.inner)
    pub origins : AllValues IsServers t.inner

  pub new-IsTracker : IsTracker new
  new-IsTracker = record { distinct = tt; origins = tt }

  pub servers_of-Distinct :
      (t : RouteOriginTracker N) (k : RouteKey N)
      → IsTracker t
      → Distinct ℕ_discrete (servers_of t k)
  unfolding servers_of
  servers_of-Distinct t k i = elim (Option-cases (get (RouteKey-discrete net) k t.inner)) [
    | inl p ↦ rw p tt
    | inr (s, p) ↦ rw p (get-AllValues (RouteKey-discrete net) IsServers k t.inner s i.origins p).1
  ]

  pub servers_of-add :
      (t : RouteOriginTracker N) (k q : RouteKey N) (s : ServerId)
      → servers_of (add_origin net t k s).0 q
        ≡ ite
            (RouteKey-discrete net k q)
            (Set.insert ℕ_discrete s (servers_of t k))
            (servers_of t q)
  unfolding servers_of add_origin
  servers_of-add t k q s = ground (
    arith,
    get-insert (RouteKey-discrete net) k q
        (Set.insert ℕ_discrete s (or_default [] (get (RouteKey-discrete net) k t.inner))) t.inner,
  )

  pub first-servers_of :
      (t : RouteOriginTracker N) (k : RouteKey N) (s : ServerId)
      → (add_origin net t k s).1 ≡ is_empty (servers_of t k)
  unfolding servers_of add_origin
  first-servers_of t k s = refl

  pub servers_of-remove :
      (t : RouteOriginTracker N) (k q : RouteKey N) (s : ServerId)
      → servers_of (remove_origin net t k s).0 q
        ≡ ite
            (RouteKey-discrete net k q)
            (Set.remove ℕ_discrete s (servers_of t k))
            (servers_of t q)
  unfolding servers_of remove_origin Set.remove
  servers_of-remove t k q s = elim (Option-cases (get (RouteKey-discrete net) k t.inner)) [
    | inl p ↦ rw (p, remove_origin) (ground arith)
    | inr (servers, p) ↦
        rw (p, remove_origin)
          (ground (
            arith,
            get-write_back (RouteKey-discrete net) k q (Set.remove ℕ_discrete s servers) t.inner,
          ))
  ]

  -- The last server withdraws a route exactly if the route had a server and then has none.
  pub last-servers_of :
      (t : RouteOriginTracker N) (k : RouteKey N) (s : ServerId)
      → IsTracker t
      → (remove_origin net t k s).1
        ≡ (not (is_empty (servers_of t k)) && is_empty (Set.remove ℕ_discrete s (servers_of t k)))
  unfolding servers_of remove_origin
  last-servers_of t k s i = elim (Option-cases (get (RouteKey-discrete net) k t.inner)) [
    | inl p ↦ rw (p, remove_origin) refl
    | inr (servers, p) ↦
        rw (p, remove_origin)
          (ground
            (arith, get-AllValues (RouteKey-discrete net) IsServers k t.inner servers i.origins p))
  ]

  pub add-IsTracker :
      (t : RouteOriginTracker N) (k : RouteKey N) (s : ServerId)
      → IsTracker t
      → IsTracker (add_origin net t k s).0
  unfolding add_origin
  add-IsTracker t k s i =
      let dec = RouteKey-discrete net in
      let servers = or_default [] (get dec k t.inner) in
      let distinct : Distinct ℕ_discrete servers = unfold servers_of in servers_of-Distinct t k i in
      record {
        distinct = insert-Distinct dec k _ t.inner i.distinct;
        origins = insert-AllValues dec IsServers k _ t.inner i.origins (
          Set.is_empty-insert ℕ_discrete s servers,
          Set.insert-Distinct ℕ_discrete s servers distinct,
        );
      }

  pub remove-IsTracker :
      (t : RouteOriginTracker N) (k : RouteKey N) (s : ServerId)
      → IsTracker t
      → IsTracker (remove_origin net t k s).0
  unfolding remove_origin
  remove-IsTracker t k s i = elim (Option-cases (get (RouteKey-discrete net) k t.inner)) [
    | inl p ↦ rw (p, remove_origin) i
    | inr (servers, p) ↦
        let dec = RouteKey-discrete net in
        let old = get-AllValues dec IsServers k t.inner servers i.origins p in
        rw (p, remove_origin)
          (record {
            distinct = write_back-Distinct dec k _ t.inner i.distinct;
            origins =
                write_back-AllValues dec IsServers k _ t.inner i.origins
                  (λ e. (e, Set.remove-Distinct ℕ_discrete s servers old.1));
          })
  ]
