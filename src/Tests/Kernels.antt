-- ===== src/Tests/Kernels.antt =====
-- The theorems on src/netlink.rs at concrete routes.
use rustbond.Prelude.{ℕ, ◌≡◌, ap, refl, true, false, ◌&&◌, not, [], ◌∷◌, some, arith, ℕ_discrete}
use rustbond.Collections.Set.{contains, insert, remove}
use rustbond.Collections.Map.{get}
use rustbond.Types.Address.{IpAddr, IpAddr-discrete, Ipv6Addr-discrete, Destination}
use rustbond.Types.Convert.{ok, version_of}
use rustbond.Netlink.Config.{
  NetlinkClient, matches_table, matches_protocol, matches_dest_v6, add_route, remove_route,
  cleanup_stale_routes, add_route_v6, remove_route_v6, remove_first, cleanup_tables,
  cleanup_routes_for_table, to_delete, delete_all,
}
use rustbond.Netlink.Matches.{is_route_to, is_shown_in}
use rustbond.Netlink.RoundTrip.{remove_route-add_route}
use rustbond.Netlink.Cleanup.{cleanup_stale_routes-keeps, cleanup_stale_routes_lem}
use rustbond.Tests.Data.{host, hop, nets}
use rustbond.Tests.Tables.{KernelRoute, KernelRoute-discrete, linux, kernel, delete_old-CanDelete}

-- The low eight bits of 356 are 100.
abbrev tables : NetlinkClient
tables = record {
  config = record { vni_table_map = (1, 356) ∷ (2, 200) ∷ []; link_name = "ip6tnl0" };
  link_index = 7;
}

abbrev old : KernelRoute
old = (IpAddr.v6 (host 9), 64, 200, 254)

abbrev other : KernelRoute
other = (IpAddr.v6 (host 8), 64, 100, 254)

abbrev prefix : Destination (IpAddr × ℕ)
prefix = record { prefix = (IpAddr.v6 (host 5), 64) }

abbrev added : KernelRoute
added = (IpAddr.v6 (host 5), 64, 200, 254)

other_table : (matches_table linux 356 other ≡ true) × (matches_table linux 200 other ≡ false)
unfolding matches_table ℕ_discrete
other_table = (refl, refl)

added_route : add_route linux nets tables 2 prefix (hop 3) (old ∷ []) ≡ (old ∷ added ∷ [], ok tt)
unfolding add_route add_route_v6 get insert contains ℕ_discrete KernelRoute-discrete IpAddr-discrete
added_route = refl

removed_route :
    remove_route linux nets tables 2 prefix (hop 3) (old ∷ added ∷ []) ≡ (old ∷ [], ok tt)
unfolding remove_route remove_route_v6 remove_first get contains remove matches_table
    matches_protocol matches_dest_v6 ℕ_discrete version_of Ipv6Addr-discrete KernelRoute-discrete
    IpAddr-discrete
removed_route = refl

cleaned : cleanup_stale_routes linux tables (old ∷ other ∷ []) ≡ ([], ok tt)
unfolding cleanup_stale_routes cleanup_tables cleanup_routes_for_table to_delete delete_all contains
    remove matches_table matches_protocol version_of ℕ_discrete KernelRoute-discrete IpAddr-discrete
cleaned = refl

-- VNI 2 has the table 200.
table_of_2 : get ℕ_discrete 2 tables.config.vni_table_map ≡ some 200
unfolding get ℕ_discrete
table_of_2 = refl

none_before :
    (r : KernelRoute)
    → contains KernelRoute-discrete r (old ∷ []) ≡ true
    → version_of r.0 ≡ version_of (IpAddr.v6 (host 5))
    → is_route_to linux (IpAddr.v6 (host 5)) 64 200 r ≡ false
unfolding contains matches_dest_v6 KernelRoute-discrete IpAddr-discrete Ipv6Addr-discrete ℕ_discrete
none_before r h f = ground (arith, h)

remove_route-add_route_example :
    contains KernelRoute-discrete added (old ∷ []) ≡ contains KernelRoute-discrete added (old ∷ [])
remove_route-add_route_example =
    remove_route-add_route linux kernel nets tables 2 200 prefix (hop 3) (old ∷ [])
      (old ∷ added ∷ []) (old ∷ []) table_of_2 (omega arith) (omega arith) refl none_before
      added_route removed_route added

-- A route that the kernel made itself has the protocol 2.
abbrev foreign : KernelRoute
foreign = (IpAddr.v6 (host 5), 64, 200, 2)

foreign_protocol : matches_protocol linux foreign ≡ false
unfolding matches_protocol ℕ_discrete
foreign_protocol = refl

foreign_kept :
    (is_shown_in linux kernel tables.config.vni_table_map foreign && matches_protocol linux foreign)
    ≡ false
foreign_kept = ground (arith, foreign_protocol)

cleanup_stale_routes-keeps_example :
    contains KernelRoute-discrete foreign (cleanup_stale_routes linux tables (old ∷ foreign ∷ [])).0
    ≡ contains KernelRoute-discrete foreign (old ∷ foreign ∷ [])
cleanup_stale_routes-keeps_example =
    cleanup_stale_routes-keeps linux kernel tables (old ∷ foreign ∷ []) foreign foreign_kept

done : (cleanup_stale_routes linux tables (old ∷ other ∷ [])).1 ≡ ok tt
done = ap (λ r. r.1) cleaned

cleanup_stale_routes_lem_example :
    contains KernelRoute-discrete old (cleanup_stale_routes linux tables (old ∷ other ∷ [])).0 ≡ (
      contains KernelRoute-discrete old (old ∷ other ∷ [])
      && not
          (is_shown_in linux kernel tables.config.vni_table_map old && matches_protocol linux old))
cleanup_stale_routes_lem_example =
    cleanup_stale_routes_lem linux kernel delete_old-CanDelete tables (old ∷ other ∷ []) old done
