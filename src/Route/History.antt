-- ===== src/Route/History.antt =====
-- The route table of src/route.rs against its history of changes: an abstract table is a set of
-- (VNI, destination, next hop) triples.
use rustbond.Prelude.{
  ◌+◌, ap, ◌||◌, if◌then◌else◌, ◌≡◌, refl, sym, ◌∙◌, ite, Bool, true, false, not, ◌&&◌, List, [],
  ◌∷◌, inl, inr, arith, length, ℕ_discrete, Option-cases,
}
use rustbond.Collections.Set.{contains, contains-insert, contains-remove}
use rustbond.Collections.Map.{get, get-remove}
use rustbond.Types.Address.{Vni, Destination, NextHop, Destination-discrete, NextHop-discrete}
use rustbond.Route.{
  RouteTable, new, add_next_hop, remove_next_hop, next_hop_exists, remove_vni, clear, len,
  get_routes_by_vni,
}
use rustbond.Route.Hops.{
  hops_of, next_hop_exists-hops_of, hops_of-add, added-hops_of, hops_of-remove, removed-hops_of,
}
use rustbond.Route.Count.{len-add, len-remove}
use rustbond.Route.Clean.{IsClean, new-IsClean, add-IsClean, remove-IsClean, remove_vni-IsClean}

-- A change of the table: one of its methods with `&mut self`.
pub data Change (N : Type 0) : Type 0 where
  adds removes : Vni → Destination N → NextHop → Change N
  removes_vni : Vni → Change N
  clears : Change N

module _ {N : Type 0} (net : Discrete N) where
  unfoldable pub change : RouteTable N → Change N → RouteTable N
  change t (adds v d h) = (add_next_hop net t v d h).0
  change t (removes v d h) = (remove_next_hop net t v d h).0
  change t (removes_vni v) = (remove_vni t v).0
  change t clears = clear t

  unfoldable pub changes : RouteTable N → List (Change N) → RouteTable N
  changes t [] = t
  changes t (c ∷ cs) = changes (change t c) cs

  -- Are these the same route in the same VNI?
  unfoldable pub same : Vni → Destination N → NextHop → Vni → Destination N → NextHop → Bool
  same v d h w e g =
      ite (ℕ_discrete v w)
        (ite (Destination-discrete net d e) (ite (NextHop-discrete h g) true false) false) false

  -- The abstract table: whether a triple is in it, after a change, from whether it was before.
  unfoldable pub member : Vni → Destination N → NextHop → Bool → Change N → Bool
  member w e g b (adds v d h) = elim (same v d h w e g) [ true ↦ true | false ↦ b ]
  member w e g b (removes v d h) = elim (same v d h w e g) [ true ↦ false | false ↦ b ]
  member w e g b (removes_vni v) = ite (ℕ_discrete v w) false b
  member w e g b clears = false

  unfoldable pub members : Vni → Destination N → NextHop → Bool → List (Change N) → Bool
  members w e g b [] = b
  members w e g b (c ∷ cs) = members w e g (member w e g b c) cs

  hops_of-remove_vni :
      (t : RouteTable N) (v w : Vni) (e : Destination N)
      → hops_of net (remove_vni t v).0 w e ≡ ite (ℕ_discrete v w) [] (hops_of net t w e)
  unfolding remove_vni hops_of get
  hops_of-remove_vni t v w e = elim (Option-cases (get ℕ_discrete v t.routes)) [
    | inl p ↦ rw (p, remove_vni) (ground arith)
    | inr (m, p) ↦ rw (p, remove_vni) (ground (arith, get-remove ℕ_discrete v w t.routes))
  ]

  exists-change :
      (t : RouteTable N) (c : Change N) (w : Vni) (e : Destination N) (g : NextHop)
      → contains NextHop-discrete g (hops_of net (change t c) w e)
        ≡ member w e g (contains NextHop-discrete g (hops_of net t w e)) c
  unfolding change member same contains clear hops_of get
  exists-change t (adds v d h) w e g =
      ground (
        arith,
        hops_of-add net t v w d e h,
        contains-insert NextHop-discrete h g (hops_of net t v d),
      )
  exists-change t (removes v d h) w e g = ground (
    arith,
    hops_of-remove net t v w d e h,
    contains-remove NextHop-discrete h g (hops_of net t v d),
  )
  exists-change t (removes_vni v) w e g = ground (arith, hops_of-remove_vni t v w e)
  exists-change t clears w e g = refl

  exists-changes :
      (t : RouteTable N) (cs : List (Change N)) (w : Vni) (e : Destination N) (g : NextHop)
      → next_hop_exists net (changes t cs) w e g ≡ members w e g (next_hop_exists net t w e g) cs
  unfolding changes members
  exists-changes t [] w e g = refl
  exists-changes t (c ∷ cs) w e g =
      let before = next_hop_exists-hops_of net t w e g in
      let after = next_hop_exists-hops_of net (change t c) w e g in
      let step = after ∙ exists-change t c w e g ∙ ap (λ b. member w e g b c) (sym before) in
      exists-changes (change t c) cs w e g ∙ ap (λ b. members w e g b cs) step

  -- Whatever changes a new table has seen, it finds exactly the routes of the abstract table that
  -- has seen the same: a route is there if the last change that concerns it added it.
  pub changes-members :
      (cs : List (Change N)) (w : Vni) (e : Destination N) (g : NextHop)
      → next_hop_exists net (changes new cs) w e g ≡ members w e g false cs
  unfolding next_hop_exists get
  changes-members cs w e g = exists-changes new cs w e g

  change-IsClean : (t : RouteTable N) (c : Change N) → IsClean net t → IsClean net (change t c)
  unfolding change clear
  change-IsClean t (adds v d h) i = add-IsClean net t v d h i
  change-IsClean t (removes v d h) i = remove-IsClean net t v d h i
  change-IsClean t (removes_vni v) i = remove_vni-IsClean net t v i
  change-IsClean t clears i = record { vnis = tt; entries = tt }

  pub changes-IsClean :
      (t : RouteTable N) (cs : List (Change N)) → IsClean net t → IsClean net (changes t cs)
  unfolding changes
  changes-IsClean t [] i = i
  changes-IsClean t (c ∷ cs) i = changes-IsClean (change t c) cs (change-IsClean t c i)

  -- No change leaves an empty entry or a key twice in the table of a new process.
  pub changes-new-IsClean : (cs : List (Change N)) → IsClean net (changes new cs)
  changes-new-IsClean cs = changes-IsClean new cs (new-IsClean net)

  -- `add_next_hop` tells whether the route is new, adds it to the routes that are found, and no
  -- other, and counts it once.
  pub add_next_hop_lem :
      (t : RouteTable N) (v : Vni) (d : Destination N) (h : NextHop)
      → ((add_next_hop net t v d h).1 ≡ not (next_hop_exists net t v d h))
        × ((w : Vni) (e : Destination N) (g : NextHop)
            → next_hop_exists net (add_next_hop net t v d h).0 w e g
              ≡ (same v d h w e g || next_hop_exists net t w e g))
        × (len (add_next_hop net t v d h).0
            ≡ len t + (if next_hop_exists net t v d h then 0 else 1))
  unfolding same
  add_next_hop_lem t v d h = (
    added-hops_of net t v d h ∙ ap not (sym (next_hop_exists-hops_of net t v d h)),
    λ w e g. ground (
      arith,
      next_hop_exists-hops_of net t w e g,
      next_hop_exists-hops_of net (add_next_hop net t v d h).0 w e g,
      hops_of-add net t v w d e h,
      contains-insert NextHop-discrete h g (hops_of net t v d),
    ),
    ground (
      arith,
      len-add net t v d h,
      added-hops_of net t v d h,
      next_hop_exists-hops_of net t v d h,
    ),
  )

  -- In a well-formed table `remove_next_hop` tells whether the route was there and how many next
  -- hops its destination has left, takes it from the routes that are found, and no other, and
  -- uncounts it.
  pub remove_next_hop_lem :
      (t : RouteTable N) (v : Vni) (d : Destination N) (h : NextHop)
      → IsClean net t
      → ((remove_next_hop net t v d h).1 ≡ next_hop_exists net t v d h)
        × ((remove_next_hop net t v d h).2
            ≡ length (hops_of net (remove_next_hop net t v d h).0 v d))
        × ((w : Vni) (e : Destination N) (g : NextHop)
            → next_hop_exists net (remove_next_hop net t v d h).0 w e g
              ≡ (not (same v d h w e g) && next_hop_exists net t w e g))
        × (len (remove_next_hop net t v d h).0 + (if next_hop_exists net t v d h then 1 else 0)
            ≡ len t)
  unfolding same
  remove_next_hop_lem t v d h i =
      let flags = removed-hops_of net t v d h in
      let found = next_hop_exists-hops_of net t v d h in
      (
        flags.0 ∙ sym found,
        ground (arith, flags.1, hops_of-remove net t v v d d h),
        λ w e g. ground (
          arith,
          next_hop_exists-hops_of net t w e g,
          next_hop_exists-hops_of net (remove_next_hop net t v d h).0 w e g,
          hops_of-remove net t v w d e h,
          contains-remove NextHop-discrete h g (hops_of net t v d),
        ),
        ground (arith, len-remove net t v d h i, flags.0, found),
      )

  -- `remove_vni` returns the routes that the VNI had, and leaves the VNI without routes and every
  -- other as it was.
  pub remove_vni_lem :
      (t : RouteTable N) (v : Vni)
      → ((remove_vni t v).1 ≡ get_routes_by_vni t v)
        × ((w : Vni) (e : Destination N) (g : NextHop)
            → next_hop_exists net (remove_vni t v).0 w e g
              ≡ ite (ℕ_discrete v w) false (next_hop_exists net t w e g))
  unfolding remove_vni get_routes_by_vni contains
  remove_vni_lem t v = (
    ground arith,
    λ w e g. ground (
      arith,
      next_hop_exists-hops_of net t w e g,
      next_hop_exists-hops_of net (remove_vni t v).0 w e g,
      hops_of-remove_vni t v w e,
    ),
  )
