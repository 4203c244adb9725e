-- ===== src/Netlink/Rtnetlink.antt =====
-- The crates `rtnetlink` and `netlink_packet_route`, as far as src/netlink.rs uses them. A request
-- gives the kernel's new state, or none if it fails. What a request streams is the list of what
-- `try_next` returns, with none for an error.
use Prim.Native.String.{String}
use rustbond.Prelude.{ℕ, Bool, Option, List}
use rustbond.Types.Address.{Ipv4Addr, Ipv6Addr, IpVersion}

pub record Rtnetlink : Type 1 where
  pub State : Type 0
  -- `rtnetlink::new_connection()`: is there one?
  pub new_connection : State → Bool
  -- `handle.link().get().match_name(name).execute()`, by the indices of the links
  pub match_name : String → State → List (Option ℕ)
  pub RouteMessage : Type 0
  pub discrete : Discrete RouteMessage
  pub header_table : RouteMessage → ℕ
  pub destination_prefix_length : RouteMessage → ℕ
  -- the number of `RouteProtocol::Other`
  pub other_protocol : RouteMessage → Option ℕ
  pub RouteAttribute : Type 0
  pub attributes : RouteMessage → List RouteAttribute
  -- `RouteAttribute::Table(t)`, and `Destination(RouteAddress::Inet(a))` and `Inet6(a)`
  pub as_table : RouteAttribute → Option ℕ
  pub as_inet : RouteAttribute → Option Ipv4Addr
  pub as_inet6 : RouteAttribute → Option Ipv6Addr
  -- `handle.route().get(version).execute()`
  pub get_routes : IpVersion → State → List (Option RouteMessage)
  -- `handle.route().add()`, with the destination and its length, for IPv6 the gateway, then the
  -- output interface, the table and the number of the protocol
  pub add_v4 : Ipv4Addr → ℕ → ℕ → ℕ → ℕ → State → Option State
  pub add_v6 : Ipv6Addr → ℕ → Ipv6Addr → ℕ → ℕ → ℕ → State → Option State
  -- `handle.route().del(route).execute()`
  pub del : RouteMessage → State → Option State
