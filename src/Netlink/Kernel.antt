-- ===== src/Netlink/Kernel.antt =====
-- The routing tables of Linux, as a user of the crate `rtnetlink` sees them: what a route message
-- shows of a route, and what the requests do to the routes. The routes are of the two families that
-- src/netlink.rs reads.
use rustbond.Prelude.{
  ℕ, ◌≡◌, ◌<◌, ite, Bool, true, false, List, [], ◌∷◌, Option, none, some, ltb, ◌==◌, if◌then◌else◌,
  any, ℕ_discrete,
}
use rustbond.Collections.Set.{Set, contains}
use rustbond.Types.Address.{Ipv4Addr, Ipv4Addr-discrete, Ipv6Addr, Ipv6Addr-discrete, IpVersion}
use rustbond.Netlink.Rtnetlink.{Rtnetlink}
use rustbond.Netlink.Config.{metalbond_rt_proto, holds}

-- The listing has ended without an error.
abbrev pub complete : {A : Type 0} → List (Option A) → Bool
complete [] = true
complete (none ∷ rest) = false
complete (some a ∷ rest) = complete rest

-- The header has one byte for the table; 252 stands for all that need more.
abbrev pub shown_table : ℕ → ℕ
shown_table t = if ltb t 256 then t else 252

pub record Kernel (nl : Rtnetlink) : Type 0 where
  pub routes : nl.State → Set nl.RouteMessage
  pub family : nl.RouteMessage → IpVersion
  pub table : nl.RouteMessage → ℕ
  -- the address without its bits behind the prefix
  pub network : Ipv6Addr → ℕ → Ipv6Addr
  pub header_lem : (r : nl.RouteMessage) → nl.header_table r ≡ shown_table (table r)
  pub attribute_lem :
      (r : nl.RouteMessage) (t : ℕ)
      → any (λ attr. holds ℕ_discrete t (nl.as_table attr)) (nl.attributes r) ≡ (t == table r)
  -- what is listed is there, and all is listed unless there is an error
  pub listed :
      (v : IpVersion) (s : nl.State) (r : nl.RouteMessage)
      → any (holds nl.discrete r) (nl.get_routes v s) ≡ true
      → (contains nl.discrete r (routes s) ≡ true) × (family r ≡ v)
  pub all_listed :
      (v : IpVersion) (s : nl.State) (r : nl.RouteMessage)
      → complete (nl.get_routes v s) ≡ true
      → contains nl.discrete r (routes s) ≡ true
      → family r ≡ v
      → any (holds nl.discrete r) (nl.get_routes v s) ≡ true
  pub del_lem :
      (r : nl.RouteMessage) (s s' : nl.State)
      → nl.del r s ≡ some s'
      → (x : nl.RouteMessage)
      → contains nl.discrete x (routes s')
        ≡ ite (nl.discrete r x) false (contains nl.discrete x (routes s))
  -- A route that is added is new, and in the table that was asked for, unless this is 0, which
  -- stands for the main table. A prefix of length 0 has no attribute for the destination. IPv4
  -- prefixes with further bits are refused, those of IPv6 are cut.
  pub add_v4_lem :
      (dest : Ipv4Addr) (len link t : ℕ) (s s' : nl.State)
      → 0 < t
      → nl.add_v4 dest len link t metalbond_rt_proto s ≡ some s'
      → (r : nl.RouteMessage) × (family r ≡ IpVersion.v4)
        × (table r ≡ t)
        × (nl.other_protocol r ≡ some metalbond_rt_proto)
        × (nl.destination_prefix_length r ≡ len)
        × (0 < len
            → any (λ attr. holds Ipv4Addr-discrete dest (nl.as_inet attr)) (nl.attributes r) ≡ true)
        × (contains nl.discrete r (routes s) ≡ false)
        × ((x : nl.RouteMessage)
            → contains nl.discrete x (routes s')
              ≡ ite (nl.discrete r x) true (contains nl.discrete x (routes s)))
  pub add_v6_lem :
      (dest : Ipv6Addr) (len : ℕ) (gateway : Ipv6Addr) (link t : ℕ) (s s' : nl.State)
      → 0 < t
      → nl.add_v6 dest len gateway link t metalbond_rt_proto s ≡ some s'
      → (r : nl.RouteMessage) × (family r ≡ IpVersion.v6)
        × (table r ≡ t)
        × (nl.other_protocol r ≡ some metalbond_rt_proto)
        × (nl.destination_prefix_length r ≡ len)
        × (0 < len
            → any
                (λ attr. holds Ipv6Addr-discrete (network dest len) (nl.as_inet6 attr))
                (nl.attributes r)
              ≡ true)
        × (contains nl.discrete r (routes s) ≡ false)
        × ((x : nl.RouteMessage)
            → contains nl.discrete x (routes s')
              ≡ ite (nl.discrete r x) true (contains nl.discrete x (routes s)))

-- Every route that is there can be deleted: no one else interferes and the program may.
abbrev pub CanDelete : (nl : Rtnetlink) → Kernel nl → Type 0
CanDelete nl k =
    (r : nl.RouteMessage) (s : nl.State)
    → contains nl.discrete r (k.routes s) ≡ true
    → (s' : nl.State) × (nl.del r s ≡ some s')
