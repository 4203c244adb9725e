-- ===== src/Route/Hops.antt =====
-- The route table of src/route.rs read as a function: the next hops of a destination in a VNI.
use rustbond.Prelude.{◌≡◌, refl, ite, not, [], inl, inr, arith, length, ℕ_discrete, Option-cases}
use rustbond.Collections.Set.{Set, contains, contains-insert, contains-remove}
use rustbond.Collections.Set
use rustbond.Collections.Map.{get, insert, or_default, get-insert}
use rustbond.Collections.Map.WriteBack.{write_back, get-write_back}
use rustbond.Types.Address.{Vni, Destination, NextHop, Destination-discrete, NextHop-discrete}
use rustbond.Route.{RouteTable, add_next_hop, remove_next_hop, next_hop_exists}

module _ {N : Type 0} (net : Discrete N) where
  -- The next hops of a destination in a VNI; none if either has no entry.
  unfoldable pub hops_of : RouteTable N → Vni → Destination N → Set NextHop
  hops_of t v d =
      or_default [] (get (Destination-discrete net) d (or_default [] (get ℕ_discrete v t.routes)))

  pub next_hop_exists-hops_of :
      (t : RouteTable N) (v : Vni) (d : Destination N) (h : NextHop)
      → next_hop_exists net t v d h ≡ contains NextHop-discrete h (hops_of t v d)
  unfolding next_hop_exists hops_of get contains
  next_hop_exists-hops_of t v d h = ground arith

  pub hops_of-add :
      (t : RouteTable N) (v w : Vni) (d e : Destination N) (h : NextHop)
      → hops_of (add_next_hop net t v d h).0 w e
        ≡ ite
            (ℕ_discrete v w)
            (ite
              (Destination-discrete net d e)
              (Set.insert NextHop-discrete h (hops_of t v d))
              (hops_of t w e))
            (hops_of t w e)
  unfolding add_next_hop hops_of
  hops_of-add t v w d e h =
      let inner = or_default [] (get ℕ_discrete v t.routes) in
      let dest = Destination-discrete net in
      let hops = Set.insert NextHop-discrete h (or_default [] (get dest d inner)) in
      ground (
        arith,
        get-insert ℕ_discrete v w (insert dest d hops inner) t.routes,
        get-insert dest d e hops inner,
      )

  pub added-hops_of :
      (t : RouteTable N) (v : Vni) (d : Destination N) (h : NextHop)
      → (add_next_hop net t v d h).1 ≡ not (contains NextHop-discrete h (hops_of t v d))
  unfolding add_next_hop hops_of
  added-hops_of t v d h = refl

  pub hops_of-remove :
      (t : RouteTable N) (v w : Vni) (d e : Destination N) (h : NextHop)
      → hops_of (remove_next_hop net t v d h).0 w e
        ≡ ite
            (ℕ_discrete v w)
            (ite
              (Destination-discrete net d e)
              (Set.remove NextHop-discrete h (hops_of t v d))
              (hops_of t w e))
            (hops_of t w e)
  unfolding remove_next_hop hops_of get Set.remove
  hops_of-remove t v w d e h = elim (Option-cases (get ℕ_discrete v t.routes)) [
    | inl p ↦ rw (p, remove_next_hop) (ground arith)
    | inr (inner, p) ↦ elim (Option-cases (get (Destination-discrete net) d inner)) [
      | inl q ↦ rw (p, q, remove_next_hop) (ground arith)
      | inr (hops, q) ↦
          let dest = Destination-discrete net in
          let hops' = Set.remove NextHop-discrete h hops in
          rw (p, q, remove_next_hop)
            (ground (
              arith,
              get-write_back ℕ_discrete v w (write_back dest d hops' inner) t.routes,
              get-write_back dest d e hops' inner,
            ))
    ]
  ]

  pub removed-hops_of :
      (t : RouteTable N) (v : Vni) (d : Destination N) (h : NextHop)
      → ((remove_next_hop net t v d h).1 ≡ contains NextHop-discrete h (hops_of t v d))
        × ((remove_next_hop net t v d h).2 ≡ length (Set.remove NextHop-discrete h (hops_of t v d)))
  unfolding remove_next_hop hops_of get contains Set.remove
  removed-hops_of t v d h = ground arith
