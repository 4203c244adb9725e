-- ===== src/Route/Clean.antt =====
-- Well-formed route tables of src/route.rs: no key twice, and no empty entry at any level.
use rustbond.Prelude.{◌≡◌, false, [], some, inl, inr, ℕ_discrete, Option-cases, is_empty}
use rustbond.Collections.Set.{Set, Distinct}
use rustbond.Collections.Set
use rustbond.Collections.Map.{
  keys, get, insert, or_default, is_empty-insert, insert-Distinct, remove-Distinct,
}
use rustbond.Collections.Map.Members.{AllValues, get-AllValues, insert-AllValues, remove-AllValues}
use rustbond.Collections.Map.WriteBack.{write_back, write_back-Distinct, write_back-AllValues}
use rustbond.Types.Address.{Vni, Destination, NextHop, Destination-discrete, NextHop-discrete}
use rustbond.Route.{
  RouteTable, VniRoutes, new, add_next_hop, remove_hop, remove_next_hop, remove_vni,
}

abbrev pub CleanHops : Set NextHop → Type 0
CleanHops hops = Distinct NextHop-discrete hops × (is_empty hops ≡ false)

module _ {N : Type 0} (net : Discrete N) where
  -- The routes of one VNI, except that there may be none.
  abbrev pub CleanVni : VniRoutes N → Type 0
  CleanVni m = Distinct (Destination-discrete net) (keys m) × AllValues CleanHops m

  abbrev pub CleanEntry : VniRoutes N → Type 0
  CleanEntry m = CleanVni m × (is_empty m ≡ false)

  pub record IsClean (t : RouteTable N) : Type 0 where
    pub vnis : Distinct ℕ_discrete (keys t.routes)
    pub entries : AllValues CleanEntry t.routes

  pub inner_clean :
      (t : RouteTable N) (v : Vni)
      → IsClean t
      → CleanVni (or_default [] (get ℕ_discrete v t.routes))
  inner_clean t v c = elim (Option-cases (get ℕ_discrete v t.routes)) [
    | inl p ↦ rw p (tt, tt)
    | inr (m, p) ↦ rw p (get-AllValues ℕ_discrete CleanEntry v t.routes m c.entries p).0
  ]

  pub hops_clean :
      (m : VniRoutes N) (d : Destination N)
      → CleanVni m
      → Distinct NextHop-discrete (or_default [] (get (Destination-discrete net) d m))
  hops_clean m d c = elim (Option-cases (get (Destination-discrete net) d m)) [
    | inl p ↦ rw p tt
    | inr (hops, p) ↦ rw p (get-AllValues (Destination-discrete net) CleanHops d m hops c.1 p).0
  ]

  pub new-IsClean : IsClean new
  new-IsClean = record { vnis = tt; entries = tt }

  -- One hop more keeps the routes of a VNI well formed, and leaves some.
  insert_hop-CleanVni :
      (m : VniRoutes N) (d : Destination N) (h : NextHop)
      → CleanVni m
      → CleanEntry (
          insert
            (Destination-discrete net)
            d
            (Set.insert NextHop-discrete h (or_default [] (get (Destination-discrete net) d m)))
            m)
  insert_hop-CleanVni m d h c =
      let dest = Destination-discrete net in
      let hops = or_default [] (get dest d m) in
      let hops' = Set.insert NextHop-discrete h hops in
      (
        (
          insert-Distinct dest d hops' m c.0,
          insert-AllValues dest CleanHops d hops' m c.1 (
            Set.insert-Distinct NextHop-discrete h hops (hops_clean m d c),
            Set.is_empty-insert NextHop-discrete h hops,
          ),
        ),
        is_empty-insert dest d hops' m,
      )

  pub add-IsClean :
      (t : RouteTable N) (v : Vni) (d : Destination N) (h : NextHop)
      → IsClean t
      → IsClean (add_next_hop net t v d h).0
  unfolding add_next_hop
  add-IsClean t v d h c = record {
    vnis = insert-Distinct ℕ_discrete v _ t.routes c.vnis;
    entries =
        insert-AllValues ℕ_discrete CleanEntry v _ t.routes c.entries
          (insert_hop-CleanVni _ d h (inner_clean t v c));
  }

  remove_hop-CleanVni :
      (m : VniRoutes N) (d : Destination N) (h : NextHop) (hops : Set NextHop)
      → CleanVni m
      → Distinct NextHop-discrete hops
      → CleanVni (write_back (Destination-discrete net) d (Set.remove NextHop-discrete h hops) m)
  remove_hop-CleanVni m d h hops c distinct = (
    write_back-Distinct (Destination-discrete net) d _ m c.0,
    write_back-AllValues (Destination-discrete net) CleanHops d _ m c.1
        (λ e. (Set.remove-Distinct NextHop-discrete h hops distinct, e)),
  )

  remove_hop-IsClean :
      (t : RouteTable N) (v : Vni) (d : Destination N) (h : NextHop) (m : VniRoutes N)
      (hops : Set NextHop)
      → IsClean t
      → CleanVni m
      → Distinct NextHop-discrete hops
      → IsClean (remove_hop net t v d h m hops).0
  unfolding remove_hop
  remove_hop-IsClean t v d h m hops c inner distinct = record {
    vnis = write_back-Distinct ℕ_discrete v _ t.routes c.vnis;
    entries =
        write_back-AllValues ℕ_discrete CleanEntry v _ t.routes c.entries
          (λ e. (remove_hop-CleanVni m d h hops inner distinct, e));
  }

  -- The two `if let` of `remove_next_hop`: nothing changes unless both find an entry.
  pub remove_cases :
      (P : RouteTable N → Type 0) (t : RouteTable N) (v : Vni) (d : Destination N) (h : NextHop)
      → P t
      → ((m : VniRoutes N) (hops : Set NextHop)
          → get ℕ_discrete v t.routes ≡ some m
          → get (Destination-discrete net) d m ≡ some hops
          → P (remove_hop net t v d h m hops).0)
      → P (remove_next_hop net t v d h).0
  unfolding remove_next_hop
  remove_cases P t v d h missing found = elim (Option-cases (get ℕ_discrete v t.routes)) [
    | inl p ↦ rw (p, remove_next_hop) missing
    | inr (m, p) ↦ elim (Option-cases (get (Destination-discrete net) d m)) [
      | inl q ↦ rw (p, q, remove_next_hop) missing
      | inr (hops, q) ↦ rw (p, q, remove_next_hop) (found m hops p q)
    ]
  ]

  pub remove-IsClean :
      (t : RouteTable N) (v : Vni) (d : Destination N) (h : NextHop)
      → IsClean t
      → IsClean (remove_next_hop net t v d h).0
  remove-IsClean t v d h c = remove_cases IsClean t v d h c λ m hops p q.
      let inner = get-AllValues ℕ_discrete CleanEntry v t.routes m c.entries p in
      let clean = get-AllValues (Destination-discrete net) CleanHops d m hops inner.0.1 q in
      remove_hop-IsClean t v d h m hops c inner.0 clean.0

  pub remove_vni-IsClean : (t : RouteTable N) (v : Vni) → IsClean t → IsClean (remove_vni t v).0
  unfolding remove_vni
  remove_vni-IsClean t v c = elim (Option-cases (get ℕ_discrete v t.routes)) [
    | inl p ↦ rw (p, remove_vni) c
    | inr (m, p) ↦
        rw (p, remove_vni)
          (record {
            vnis = remove-Distinct ℕ_discrete v t.routes c.vnis;
            entries = remove-AllValues ℕ_discrete CleanEntry v t.routes c.entries;
          })
  ]
