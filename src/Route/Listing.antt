-- ===== src/Route/Listing.antt =====
-- The listing functions of src/route.rs: each route of the table appears, and appears once.
use rustbond.Prelude.{
  suc, ◌≡◌, refl, sym, ap, ite, ◌∙◌, false, [], ◌∷◌, map, arith, length, length-append, length-map,
  ℕ_discrete,
}
use rustbond.Collections.Set.{Set, contains, Distinct}
use rustbond.Collections.Set.Append.{
  contains-append, append-Distinct, contains-map_pair, map_pair-Distinct,
}
use rustbond.Collections.Map.{Map, keys, get, or_default, get_of-not-contains}
use rustbond.Collections.Map.Members.{AllValues}
use rustbond.Collections.Map.Weight.{total}
use rustbond.Types.Address.{Vni, Destination, NextHop, Destination-discrete, NextHop-discrete}
use rustbond.Route.{
  Route, Route-discrete, RouteTable, VniRoutes, list_hops, list_vni, list_all, len, get_all_routes,
  get_routes_by_vni, next_hop_exists,
}
use rustbond.Route.Hops.{hops_of, next_hop_exists-hops_of}
use rustbond.Route.Clean.{CleanVni, CleanEntry, IsClean, inner_clean}

-- The equality of the pairs that `get_all_routes` lists.
pub Entry-discrete : {N : Type 0} → Discrete N → Discrete (Vni × Route N)
Entry-discrete net = hlevel (ℕ_discrete, Route-discrete net)

module _ {N : Type 0} (net : Discrete N) where
  contains-list_hops :
      (d : Destination N) (r : Route N) (hops : Set NextHop)
      → contains (Route-discrete net) r (list_hops d hops)
        ≡ ite
            (Destination-discrete net d r.destination)
            (contains NextHop-discrete r.next_hop hops)
            false
  unfolding contains list_hops
  contains-list_hops d r [] = ground arith
  contains-list_hops d r (h ∷ hops) = ground (arith, contains-list_hops d r hops)

  list_hops-Distinct :
      (d : Destination N) (hops : Set NextHop)
      → Distinct NextHop-discrete hops
      → Distinct (Route-discrete net) (list_hops d hops)
  unfolding list_hops
  list_hops-Distinct d [] c = tt
  list_hops-Distinct d (h ∷ hops) c = (
    ground (arith, contains-list_hops d (record { destination = d; next_hop = h }) hops),
    list_hops-Distinct d hops c.1,
  )

  contains-list_vni :
      (r : Route N) (m : VniRoutes N)
      → CleanVni net m
      → contains (Route-discrete net) r (list_vni m)
        ≡ contains NextHop-discrete r.next_hop
            (or_default [] (get (Destination-discrete net) r.destination m))
  unfolding contains list_vni get
  contains-list_vni r [] c = refl
  contains-list_vni r ((d, hops) ∷ m) c = ground (
    arith,
    contains-append (Route-discrete net) r (list_hops d hops) (list_vni m),
    contains-list_hops d r hops,
    contains-list_vni r m (c.0.1, c.1.1),
    get_of-not-contains (Destination-discrete net) d m,
  )

  list_vni-Distinct :
      (m : VniRoutes N) → CleanVni net m → Distinct (Route-discrete net) (list_vni m)
  unfolding list_vni contains
  list_vni-Distinct [] c = tt
  list_vni-Distinct ((d, hops) ∷ m) c =
      append-Distinct (Route-discrete net) (list_hops d hops) (list_vni m)
        (list_hops-Distinct d hops c.1.0.0) (list_vni-Distinct m (c.0.1, c.1.1))
        λ r here. ground (
          arith,
          contains-list_hops d r hops,
          contains-list_vni r m (c.0.1, c.1.1),
          get_of-not-contains (Destination-discrete net) d m,
        )

  contains-list_all :
      (v : Vni) (r : Route N) (m : Map Vni (VniRoutes N))
      → Distinct ℕ_discrete (keys m)
      → AllValues (CleanEntry net) m
      → contains (Entry-discrete net) (v, r) (list_all m)
        ≡ contains NextHop-discrete r.next_hop (
            or_default []
              (get (Destination-discrete net) r.destination (or_default [] (get ℕ_discrete v m))))
  unfolding contains list_all get
  contains-list_all v r [] d c = refl
  contains-list_all v r ((w, inner) ∷ m) d c = ground (
    arith,
    contains-append (Entry-discrete net) (v, r) (map (λ x. (w, x)) (list_vni inner)) (list_all m),
    contains-map_pair ℕ_discrete (Route-discrete net) (Entry-discrete net) w v r (list_vni inner),
    contains-list_vni r inner c.0.0,
    contains-list_all v r m d.1 c.1,
    get_of-not-contains ℕ_discrete w m,
  )

  list_all-Distinct :
      (m : Map Vni (VniRoutes N))
      → Distinct ℕ_discrete (keys m)
      → AllValues (CleanEntry net) m
      → Distinct (Entry-discrete net) (list_all m)
  unfolding list_all contains get
  list_all-Distinct [] d c = tt
  list_all-Distinct ((w, inner) ∷ m) d c =
      append-Distinct (Entry-discrete net) (map (λ x. (w, x)) (list_vni inner)) (list_all m)
        (map_pair-Distinct ℕ_discrete (Route-discrete net) (Entry-discrete net) w (list_vni inner)
          (list_vni-Distinct inner c.0.0))
        (list_all-Distinct m d.1 c.1)
        λ e here. ground (
          arith,
          contains-map_pair ℕ_discrete (Route-discrete net) (Entry-discrete net) w e.0 e.1
              (list_vni inner),
          contains-list_all e.0 e.1 m d.1 c.1,
          get_of-not-contains ℕ_discrete w m,
        )

  -- From a well-formed table, `get_all_routes` lists exactly the routes that are found, each of
  -- them once.
  pub get_all_routes-exists :
      (t : RouteTable N)
      → IsClean net t
      → Distinct (Entry-discrete net) (get_all_routes t)
        × ((v : Vni) (r : Route N)
            → contains (Entry-discrete net) (v, r) (get_all_routes t)
              ≡ next_hop_exists net t v r.destination r.next_hop)
  unfolding get_all_routes hops_of
  get_all_routes-exists t c = (
    list_all-Distinct t.routes c.vnis c.entries,
    λ v r.
        contains-list_all v r t.routes c.vnis c.entries
        ∙ sym (next_hop_exists-hops_of net t v r.destination r.next_hop),
  )

  get_routes_by_vni-list_vni :
      (t : RouteTable N) (v : Vni)
      → get_routes_by_vni t v ≡ list_vni (or_default [] (get ℕ_discrete v t.routes))
  unfolding get_routes_by_vni list_vni
  get_routes_by_vni-list_vni t v = ground arith

  -- From a well-formed table, `get_routes_by_vni` lists exactly the routes that are found in the
  -- VNI, each of them once.
  pub get_routes_by_vni-exists :
      (t : RouteTable N) (v : Vni)
      → IsClean net t
      → Distinct (Route-discrete net) (get_routes_by_vni t v)
        × ((r : Route N)
            → contains (Route-discrete net) r (get_routes_by_vni t v)
              ≡ next_hop_exists net t v r.destination r.next_hop)
  unfolding hops_of
  get_routes_by_vni-exists t v c =
      let inner = or_default [] (get ℕ_discrete v t.routes) in
      let clean = inner_clean net t v c in
      rw (get_routes_by_vni-list_vni t v) (
        list_vni-Distinct inner clean,
        λ r.
            contains-list_vni r inner clean
            ∙ sym (next_hop_exists-hops_of net t v r.destination r.next_hop),
      )

  length-list_hops :
      (d : Destination N) (hops : Set NextHop) → length (list_hops d hops) ≡ length hops
  unfolding list_hops
  length-list_hops d [] = refl
  length-list_hops d (h ∷ hops) = ap suc (length-list_hops d hops)

  length-list_vni : (m : VniRoutes N) → length (list_vni m) ≡ total length m
  unfolding list_vni total
  length-list_vni [] = refl
  length-list_vni ((d, hops) ∷ m) = omega (
    arith,
    length-append (list_hops d hops) (list_vni m),
    length-list_hops d hops,
    length-list_vni m,
  )

  length-list_all : (m : Map Vni (VniRoutes N)) → length (list_all m) ≡ total (total length) m
  unfolding list_all total
  length-list_all [] = refl
  length-list_all ((v, inner) ∷ m) = omega (
    arith,
    length-append (map (λ r. (v, r)) (list_vni inner)) (list_all m),
    length-map {B = Vni × Route N} (list_vni inner) (λ r. (v, r)),
    length-list_vni inner,
    length-list_all m,
  )

  -- `len` is the number of routes listed.
  pub length-get_all_routes : (t : RouteTable N) → length (get_all_routes t) ≡ len t
  unfolding get_all_routes len
  length-get_all_routes t = length-list_all t.routes
