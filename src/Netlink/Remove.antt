-- ===== src/Netlink/Remove.antt =====
-- `add_route` and `remove_route` of src/netlink.rs.
use rustbond.Prelude.{
  ℕ, ◌≡◌, refl, ite, Bool, true, false, List, [], ◌∷◌, Option, none, some, arith, inl, inr, ◌⊎◌,
  any, ℕ_discrete, Option-cases, Bool-cases,
}
use rustbond.Collections.Set.{contains}
use rustbond.Collections.Map.{get}
use rustbond.Types.Address.{
  Ipv4Addr, Ipv6Addr, IpAddr, IpVersion, IpNetLib, Vni, Destination, NextHop,
}
use rustbond.Types.Convert.{Error, Done, ok, err, version_of}
use rustbond.Netlink.Rtnetlink.{Rtnetlink}
use rustbond.Netlink.Config.{
  NetlinkClient, holds, remove_first, remove_route_v4, remove_route_v6, remove_route,
}
use rustbond.Netlink.Kernel.{Kernel, complete}
use rustbond.Netlink.Matches.{is_route_to}

module _ (nl : Rtnetlink) where
  module _ (test : nl.RouteMessage → Bool) where
    -- What a search for a route to delete comes to.
    pub data Search (l : List (Option nl.RouteMessage)) (s : nl.State)
        : nl.State → Done → Type 0 where
      not_found :
          complete l ≡ true
          → ((r : nl.RouteMessage) → any (holds nl.discrete r) l ≡ true → test r ≡ false)
          → Search l s s (ok tt)
      failed : (e : Error) → Search l s s (err e)
      deleted :
          (r : nl.RouteMessage) (s' : nl.State)
          → any (holds nl.discrete r) l ≡ true
          → test r ≡ true
          → nl.del r s ≡ some s'
          → Search l s s' (ok tt)

    Search-skip :
        (r : nl.RouteMessage) (l : List (Option nl.RouteMessage)) (s s' : nl.State) (d : Done)
        → test r ≡ false
        → Search l s s' d
        → Search (some r ∷ l) s s' d
    Search-skip r l s s' d h (not_found c n) = not_found c (λ x m. ground (arith, n x))
    Search-skip r l s s' d h (failed e) = failed e
    Search-skip r l s s' d h (deleted x t m p g) = deleted x t (ground (arith, m)) p g

    remove_first-Search :
        (l : List (Option nl.RouteMessage)) (s : nl.State)
        → Search l s (remove_first nl test l s).0 (remove_first nl test l s).1
    unfolding remove_first
    remove_first-Search [] s = not_found refl (λ r m. ground (arith, m))
    remove_first-Search (none ∷ l) s = failed _
    remove_first-Search (some r ∷ l) s = elim (Bool-cases (test r)) [
      | inl t ↦ elim (Option-cases (nl.del r s)) [
        | inl d ↦ rw (t, d) (failed _)
        | inr (s', d) ↦ rw (t, d) (deleted r s' (ground arith) t d)
      ]
      | inr t ↦ rw t (Search-skip r l s _ _ t (remove_first-Search l s))
    ]

pub IpAddr-cases :
    (a : IpAddr) → ((b : Ipv4Addr) × (a ≡ IpAddr.v4 b)) ⊎ ((b : Ipv6Addr) × (a ≡ IpAddr.v6 b))
IpAddr-cases (IpAddr.v4 b) = inl (b, refl)
IpAddr-cases (IpAddr.v6 b) = inr (b, refl)

module _ (nl : Rtnetlink) (k : Kernel nl) where
  -- What the removal of a route comes to: no route passes the test and nothing changes; or a
  -- request fails and nothing changes; or one route that passes it is gone, and no other.
  pub data Removal (test : nl.RouteMessage → Bool) (v : IpVersion) (s : nl.State)
      : nl.State → Done → Type 0 where
    absent :
        ((r : nl.RouteMessage)
          → contains nl.discrete r (k.routes s) ≡ true
          → k.family r ≡ v
          → test r ≡ false)
        → Removal test v s s (ok tt)
    failed : (e : Error) → Removal test v s s (err e)
    removed :
        (r : nl.RouteMessage) (s' : nl.State)
        → contains nl.discrete r (k.routes s) ≡ true
        → k.family r ≡ v
        → test r ≡ true
        → ((x : nl.RouteMessage)
            → contains nl.discrete x (k.routes s')
              ≡ ite (nl.discrete r x) false (contains nl.discrete x (k.routes s)))
        → Removal test v s s' (ok tt)

  Search-Removal :
      (test : nl.RouteMessage → Bool) (v : IpVersion) (s s' : nl.State) (d : Done)
      → Search nl test (nl.get_routes v s) s s' d
      → Removal test v s s' d
  Search-Removal test v s s' d (Search.not_found c n) =
      absent λ r m f. n r (k.all_listed v s r c m f)
  Search-Removal test v s s' d (Search.failed e) = failed e
  Search-Removal test v s s' d (Search.deleted r t m p g) =
      removed r t (k.listed v s r m).0 (k.listed v s r m).1 p (k.del_lem r s t g)

  module _ (lib : IpNetLib) where
    open lib use {IpNet, addr, prefix_len}

    remove_route-remove_first :
        (client : NetlinkClient) (vni : Vni) (table : ℕ) (dest : Destination IpNet)
        (next_hop : NextHop) (s : nl.State)
        → get ℕ_discrete vni client.config.vni_table_map ≡ some table
        → remove_route nl lib client vni dest next_hop s
          ≡ remove_first nl
              (is_route_to nl (addr dest.prefix) (prefix_len dest.prefix) table)
              (nl.get_routes (version_of (addr dest.prefix)) s)
              s
    unfolding remove_route remove_route_v4 remove_route_v6 version_of
    remove_route-remove_first client vni table dest next_hop s h =
        elim (IpAddr-cases (addr dest.prefix)) [
          | inl (b, p) ↦ rw (h, remove_route, p) refl
          | inr (b, p) ↦ rw (h, remove_route, p) refl
        ]

    -- What the removal comes to, by the program's own tests.
    pub remove_route-is_route_to :
        (client : NetlinkClient) (vni : Vni) (table : ℕ) (dest : Destination IpNet)
        (next_hop : NextHop) (s : nl.State)
        → get ℕ_discrete vni client.config.vni_table_map ≡ some table
        → let (s', outcome) = remove_route nl lib client vni dest next_hop s in
          Removal
            (is_route_to nl (addr dest.prefix) (prefix_len dest.prefix) table)
            (version_of (addr dest.prefix))
            s
            s'
            outcome
    remove_route-is_route_to client vni table dest next_hop s h =
        rw (remove_route-remove_first client vni table dest next_hop s h)
          (Search-Removal _ _ s _ _ (remove_first-Search nl _ _ s))
