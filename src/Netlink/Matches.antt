-- ===== src/Netlink/Matches.antt =====
-- The tests of src/netlink.rs on routes, against the tables that the routes are in.
use rustbond.Prelude.{ℕ, ◌%◌, ◌^◌, ◌<◌, ◌≡◌, ◌≢◌, refl, Bool, ◌&&◌, ◌||◌, [], ◌∷◌, arith, ◌==◌}
use rustbond.Collections.Map.{Map}
use rustbond.Types.Address.{IpAddr, Vni}
use rustbond.Prelude.{any}
use rustbond.Netlink.Rtnetlink.{Rtnetlink}
use rustbond.Netlink.Config.{matches_table, matches_protocol, matches_dest_v4, matches_dest_v6}
use rustbond.Netlink.Kernel.{Kernel, shown_table}

module _ (nl : Rtnetlink) where
  -- The routes that `remove_route` looks for.
  abbrev pub is_route_to : IpAddr → ℕ → ℕ → nl.RouteMessage → Bool
  is_route_to (IpAddr.v4 a) len t r =
      matches_table nl t r && matches_protocol nl r && matches_dest_v4 nl a len r
  is_route_to (IpAddr.v6 a) len t r =
      matches_table nl t r && matches_protocol nl r && matches_dest_v6 nl a len r

  -- The message shows this address and this length of the prefix.
  abbrev pub has_prefix : IpAddr → ℕ → nl.RouteMessage → Bool
  has_prefix (IpAddr.v4 a) len r = matches_dest_v4 nl a len r
  has_prefix (IpAddr.v6 a) len r = matches_dest_v6 nl a len r

  -- The routes that `cleanup_stale_routes` looks for.
  abbrev pub is_stale : Map Vni ℕ → nl.RouteMessage → Bool
  is_stale tables r = any (λ e. matches_table nl e.1 r && matches_protocol nl r) tables

  module _ (k : Kernel nl) where
    -- A route matches a table exactly if it is in this table, or in a table that the header shows
    -- as the low eight bits of this one.
    pub matches_table_lem :
        (t : ℕ) (r : nl.RouteMessage)
        → matches_table nl t r ≡ (t == k.table r || shown_table (k.table r) == t % 2 ^ 8)
    unfolding matches_table
    matches_table_lem t r = ground (arith, k.header_lem r, k.attribute_lem r t)

    pub matches_table-small :
        (t : ℕ) (r : nl.RouteMessage) → t < 256 → t ≢ 252 → matches_table nl t r ≡ (t == k.table r)
    matches_table-small t r h n = ground (arith, matches_table_lem t r)

    -- In this table, or in one that the header shows as the low eight bits of this one.
    abbrev pub is_shown_as : ℕ → nl.RouteMessage → Bool
    is_shown_as t r = t == k.table r || shown_table (k.table r) == t % 2 ^ 8

    pub is_route_to_lem :
        (a : IpAddr) (len t : ℕ) (r : nl.RouteMessage)
        → is_route_to a len t r ≡ (is_shown_as t r && matches_protocol nl r && has_prefix a len r)
    is_route_to_lem (IpAddr.v4 a) len t r = ground (arith, matches_table_lem t r)
    is_route_to_lem (IpAddr.v6 a) len t r = ground (arith, matches_table_lem t r)

    -- In a table that is configured, or that the header shows as the low eight bits of one.
    abbrev pub is_shown_in : Map Vni ℕ → nl.RouteMessage → Bool
    is_shown_in tables r = any (λ e. is_shown_as e.1 r) tables

    pub is_stale_lem :
        (tables : Map Vni ℕ) (r : nl.RouteMessage)
        → is_stale tables r ≡ (is_shown_in tables r && matches_protocol nl r)
    is_stale_lem [] r = refl
    is_stale_lem ((vni, t) ∷ tables) r =
        ground (arith, matches_table_lem t r, is_stale_lem tables r)
