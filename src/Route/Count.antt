-- ===== src/Route/Count.antt =====
-- `len` and `is_empty` of the route table of src/route.rs, after each operation.
use rustbond.Prelude.{
  ℕ, ◌+◌, ◌≡◌, ◌<◌, refl, sym, false, List, [], ◌∷◌, Option, none, some, inl, inr, arith, length,
  is_empty, ◌==◌, if◌then◌else◌, ℕ_discrete, Option-cases,
}
use mathlib.Core.Bool.{false≢true}
use rustbond.Collections.Set.{Set, contains, length-insert, length-remove}
use rustbond.Collections.Set
use rustbond.Collections.Map.{Map, get, insert, or_default}
use rustbond.Collections.Map.Members.{AllValues, get-AllValues}
use rustbond.Collections.Map.Weight.{total, weight_of, total-insert}
use rustbond.Collections.Map.WriteBack.{write_back, total-write_back}
use rustbond.Types.Address.{Vni, Destination, NextHop, Destination-discrete, NextHop-discrete}
use rustbond.Route.{
  RouteTable, VniRoutes, add_next_hop, remove_hop, remove_next_hop, len, table_is_empty,
}
use rustbond.Route.Clean.{CleanHops, CleanVni, CleanEntry, IsClean}

weight_default :
    {A : Type 0} (weight : List A → ℕ) (o : Option (List A))
    → weight [] ≡ 0
    → weight_of weight o ≡ weight (or_default [] o)
weight_default weight none z = omega arith
weight_default weight (some v) z = refl

module _ {N : Type 0} (net : Discrete N) where
  -- A hop that is added counts if it is new.
  pub len-add :
      (t : RouteTable N) (v : Vni) (d : Destination N) (h : NextHop)
      → len (add_next_hop net t v d h).0 ≡ len t + (if (add_next_hop net t v d h).1 then 1 else 0)
  unfolding len add_next_hop total
  len-add t v d h =
      let dest = Destination-discrete net in
      let m = or_default [] (get ℕ_discrete v t.routes) in
      let hops = or_default [] (get dest d m) in
      let hops' = Set.insert NextHop-discrete h hops in
      ground (
        arith,
        total-insert ℕ_discrete (total length) v (insert dest d hops' m) t.routes,
        total-insert dest length d hops' m,
        length-insert NextHop-discrete h hops,
        weight_default (total length) (get ℕ_discrete v t.routes) refl,
        weight_default length (get dest d m) refl,
      )

  remove_hop-len :
      (t : RouteTable N) (v : Vni) (d : Destination N) (h : NextHop) (m : VniRoutes N)
      (hops : Set NextHop)
      → IsClean net t
      → get ℕ_discrete v t.routes ≡ some m
      → get (Destination-discrete net) d m ≡ some hops
      → len (remove_hop net t v d h m hops).0 + (if contains NextHop-discrete h hops then 1 else 0)
        ≡ len t
  unfolding len remove_hop total
  remove_hop-len t v d h m hops c p q =
      let dest = Destination-discrete net in
      let hops' = Set.remove NextHop-discrete h hops in
      let inner = get-AllValues ℕ_discrete (CleanEntry net) v t.routes m c.entries p in
      let clean = get-AllValues dest CleanHops d m hops inner.0.1 q in
      ground (
        arith,
        total-write_back ℕ_discrete (total length) v (write_back dest d hops' m) t.routes refl
            c.vnis,
        total-write_back dest length d hops' m refl inner.0.0,
        length-remove NextHop-discrete h hops clean.0,
      )

  -- A hop that is removed no longer counts; one that was not there changes nothing.
  pub len-remove :
      (t : RouteTable N) (v : Vni) (d : Destination N) (h : NextHop)
      → IsClean net t
      → len (remove_next_hop net t v d h).0 + (if (remove_next_hop net t v d h).1 then 1 else 0)
        ≡ len t
  unfolding remove_next_hop
  len-remove t v d h c = elim (Option-cases (get ℕ_discrete v t.routes)) [
    | inl p ↦ rw (p, remove_next_hop) (omega arith)
    | inr (m, p) ↦ elim (Option-cases (get (Destination-discrete net) d m)) [
      | inl q ↦ rw (p, q, remove_next_hop) (omega arith)
      | inr (hops, q) ↦ rw (p, q, remove_next_hop) (remove_hop-len t v d h m hops c p q)
    ]
  ]

  total_pos : (m : VniRoutes N) → CleanVni net m → is_empty m ≡ false → 0 < total length m
  unfolding total
  total_pos [] c e = absurd (false≢true (sym e))
  total_pos ((d, []) ∷ m) c e = absurd (false≢true (sym c.1.0.1))
  total_pos ((d, h ∷ hops) ∷ m) c e = omega arith

  -- In a well-formed table, `is_empty`, which looks only whether there is a VNI, says whether
  -- there is a route.
  pub is_empty_iff-len : (t : RouteTable N) → IsClean net t → table_is_empty t ≡ (len t == 0)
  unfolding len table_is_empty total
  is_empty_iff-len t c = go t.routes c.entries
    where
      go :
          (m : Map Vni (VniRoutes N))
          → AllValues (CleanEntry net) m
          → is_empty m ≡ (total (total length) m == 0)
      go [] a = refl
      go ((v, inner) ∷ m) a = ground (arith, total_pos inner a.0.0 a.0.1)
