-- ===== src/Netlink/RoundTrip.antt =====
-- `add_route` and then `remove_route` of src/netlink.rs.
use rustbond.Prelude.{
  ℕ, ◌<◌, ◌≡◌, refl, sym, ap, ◌∙◌, ite, Bool, true, false, Option, none, some, arith, inl, inr,
  ℕ_discrete,
}
use mathlib.Core.Path.{subst}
use rustbond.Collections.Set.{contains}
use rustbond.Collections.Map.{get}
use rustbond.Types.Address.{
  Ipv4Addr, Ipv6Addr, IpAddr, IpVersion, IpNetLib, Vni, Destination, NextHop,
}
use rustbond.Types.Convert.{Done, ok, version_of}
use rustbond.Netlink.Rtnetlink.{Rtnetlink}
use rustbond.Netlink.Config.{
  metalbond_rt_proto, NetlinkClient, changed, matches_protocol, matches_dest_v4, matches_dest_v6,
  remove_route, add_route, add_route_v4, add_route_v6,
}
use rustbond.Netlink.Kernel.{Kernel}
use rustbond.Netlink.Matches.{is_route_to, matches_table_lem}
use rustbond.Netlink.Remove.{
  IpAddr-cases, Removal, absent, failed, removed, remove_route-is_route_to,
}

module _ (nl : Rtnetlink) (k : Kernel nl) where
  -- An address that the kernel keeps as it is.
  abbrev pub IsKept : IpAddr → ℕ → Type 0
  IsKept (IpAddr.v4 a) len = Unit
  IsKept (IpAddr.v6 a) len = k.network a len ≡ a

  -- A state with one route more, which passes the test.
  record IsAdded (test : nl.RouteMessage → Bool) (v : IpVersion) (s s' : nl.State) : Type 0 where
    route : nl.RouteMessage
    of_family : k.family route ≡ v
    passes : test route ≡ true
    is_new : contains nl.discrete route (k.routes s) ≡ false
    adds :
        (x : nl.RouteMessage)
        → contains nl.discrete x (k.routes s')
          ≡ ite (nl.discrete route x) true (contains nl.discrete x (k.routes s))

  add_v4-IsAdded :
      (client : NetlinkClient) (a : Ipv4Addr) (len t : ℕ) (s s' : nl.State)
      → 0 < len
      → 0 < t
      → nl.add_v4 a len client.link_index t metalbond_rt_proto s ≡ some s'
      → IsAdded (is_route_to nl (IpAddr.v4 a) len t) IpVersion.v4 s s'
  unfolding matches_protocol matches_dest_v4
  add_v4-IsAdded client a len t s s' p q h =
      let (r, f, in_t, proto, bits, dest, new, all) =
        k.add_v4_lem a len client.link_index t s s' q h in
      record {
        route = r;
        of_family = f;
        passes = ground (arith, matches_table_lem nl k t r, in_t, proto, bits, dest p);
        is_new = new;
        adds = all;
      }

  add_v6-IsAdded :
      (client : NetlinkClient) (a gateway : Ipv6Addr) (len t : ℕ) (s s' : nl.State)
      → 0 < len
      → 0 < t
      → k.network a len ≡ a
      → nl.add_v6 a len gateway client.link_index t metalbond_rt_proto s ≡ some s'
      → IsAdded (is_route_to nl (IpAddr.v6 a) len t) IpVersion.v6 s s'
  unfolding matches_protocol matches_dest_v6
  add_v6-IsAdded client a gateway len t s s' p q kept h =
      let (r, f, in_t, proto, bits, dest, new, all) =
        k.add_v6_lem a len gateway client.link_index t s s' q h in
      record {
        route = r;
        of_family = f;
        passes = ground (arith, matches_table_lem nl k t r, in_t, proto, bits, kept, dest p);
        is_new = new;
        adds = all;
      }

  changed-ok :
      (s : nl.State) (o : Option nl.State)
      → (changed nl s o).1 ≡ ok tt
      → o ≡ some (changed nl s o).0
  changed-ok s none h = ground (arith, h)
  changed-ok s (some s') h = refl

  -- A route that is removed from what was added is the added one.
  IsAdded-Removal :
      (test : nl.RouteMessage → Bool) (v : IpVersion) (s s' s'' : nl.State) (d : Done)
      → IsAdded test v s s'
      → ((r : nl.RouteMessage)
          → contains nl.discrete r (k.routes s) ≡ true
          → k.family r ≡ v
          → test r ≡ false)
      → Removal nl k test v s' s'' d
      → d ≡ ok tt
      → (x : nl.RouteMessage)
      → contains nl.discrete x (k.routes s'') ≡ contains nl.discrete x (k.routes s)
  IsAdded-Removal test v s s' s'' d a none_before (absent n) h x =
      ground (arith, a.passes, a.adds a.route, n a.route, a.of_family)
  IsAdded-Removal test v s s' s'' d a none_before (failed e) h x = ground (arith, h)
  IsAdded-Removal test v s s' s'' d a none_before (removed r t m f p after) h x =
      ground (arith, a.is_new, a.adds r, a.adds x, none_before r, m, f, p, after x)

  -- `add_route` for an address and a table.
  abbrev add_at : NetlinkClient → IpAddr → ℕ → Ipv6Addr → ℕ → nl.State → nl.State × Done
  add_at client (IpAddr.v4 a) = add_route_v4 nl client a
  add_at client (IpAddr.v6 a) = add_route_v6 nl client a

  add_at-IsAdded :
      (client : NetlinkClient) (a : IpAddr) (len : ℕ) (gateway : Ipv6Addr) (t : ℕ) (s : nl.State)
      → 0 < len
      → 0 < t
      → IsKept a len
      → (add_at client a len gateway t s).1 ≡ ok tt
      → IsAdded (is_route_to nl a len t) (version_of a) s (add_at client a len gateway t s).0
  unfolding add_route_v4 add_route_v6 version_of
  add_at-IsAdded client (IpAddr.v4 a) len gateway t s p q kept done =
      add_v4-IsAdded client a len t s _ p q (changed-ok s _ done)
  add_at-IsAdded client (IpAddr.v6 a) len gateway t s p q kept done =
      add_v6-IsAdded client a gateway len t s _ p q kept (changed-ok s _ done)

  module _ (lib : IpNetLib) where
    open lib use {IpNet, addr, prefix_len}

    add_route-add_at :
        (client : NetlinkClient) (vni : Vni) (table : ℕ) (dest : Destination IpNet)
        (next_hop : NextHop) (s : nl.State)
        → get ℕ_discrete vni client.config.vni_table_map ≡ some table
        → add_route nl lib client vni dest next_hop s
          ≡ add_at client
              (addr dest.prefix)
              (prefix_len dest.prefix)
              next_hop.target_address
              table
              s
    unfolding add_route
    add_route-add_at client vni table dest next_hop s h = elim (IpAddr-cases (addr dest.prefix)) [
      | inl (a, p) ↦ rw (h, add_route, p) refl
      | inr (a, p) ↦ rw (h, add_route, p) refl
    ]

    -- If the kernel has no route that `remove_route` could take for this one, the prefix is not
    -- empty, the table of the VNI is not 0, the kernel keeps the prefix's address as it is, and
    -- both requests succeed, then adding a route and removing it leaves the routes as they were.
    pub remove_route-add_route :
        (client : NetlinkClient) (vni : Vni) (table : ℕ) (dest : Destination IpNet)
        (next_hop : NextHop) (s s' s'' : nl.State)
        → get ℕ_discrete vni client.config.vni_table_map ≡ some table
        → 0 < prefix_len dest.prefix
        → 0 < table
        → IsKept (addr dest.prefix) (prefix_len dest.prefix)
        → ((r : nl.RouteMessage)
            → contains nl.discrete r (k.routes s) ≡ true
            → k.family r ≡ version_of (addr dest.prefix)
            → is_route_to nl (addr dest.prefix) (prefix_len dest.prefix) table r ≡ false)
        → add_route nl lib client vni dest next_hop s ≡ (s', ok tt)
        → remove_route nl lib client vni dest next_hop s' ≡ (s'', ok tt)
        → (x : nl.RouteMessage)
        → contains nl.discrete x (k.routes s'') ≡ contains nl.discrete x (k.routes s)
    remove_route-add_route client vni table dest next_hop s s' s'' h p q kept before add remove =
        let same = sym (add_route-add_at client vni table dest next_hop s h) ∙ add in
        let test = is_route_to nl (addr dest.prefix) (prefix_len dest.prefix) table in
        let version = version_of (addr dest.prefix) in
        let added =
          add_at-IsAdded client (addr dest.prefix) (prefix_len dest.prefix) next_hop.target_address
            table s p q kept (ap (λ r. r.1) same) in
        let removal = remove_route-is_route_to nl k lib client vni table dest next_hop s' h in
        IsAdded-Removal test version s s' s'' (ok tt)
          (subst (λ r. IsAdded test version s r.0) same added) before
          (subst (λ r. Removal nl k test version s' r.0 r.1) remove removal) refl
