-- ===== src/Types/Display.antt =====
-- `Display` of the types of src/types.rs, src/route.rs and src/client.rs, and the texts of prefixes and addresses.
use rustbond.Prelude.{ℕ, ◌≡◌, false, [], ◌++◌, Option, none, some}
use rustbond.Types.Address.{
  Ipv6Addr, IpNetLib, Vni, Destination, NextHop, NextHopType, standard, nat, load_balancer_target,
  ConnectionState,
}
use rustbond.Types.Convert.RoundTrip.{IsOctets}
use rustbond.Route.{Route}
use rustbond.Client.Tracker.{ServerId}
use rustbond.Text.{Text, codes, has}
use rustbond.Text.Decimal.{decimal}

-- The texts of prefixes and of addresses: `parse` and `to_string` at `IpNet` and at `Ipv6Addr`. What
-- was written is read, and its characters are digits, letters, `.`, `:` and `/`.
pub record AddressText (ip : IpNetLib) : Type 0 where
  pub parse_net : Text → Option ip.IpNet
  pub show_net : ip.IpNet → Text
  pub parse_addr : Text → Option Ipv6Addr
  pub show_addr : Ipv6Addr → Text
  pub net_roundtrip : (p : ip.IpNet) → parse_net (show_net p) ≡ some p
  pub addr_roundtrip : (a : Ipv6Addr) → IsOctets 16 a.octets → parse_addr (show_addr a) ≡ some a
  pub net_no_hash : (p : ip.IpNet) → has 35 (show_net p) ≡ false
  pub net_no_at : (p : ip.IpNet) → has 64 (show_net p) ≡ false
  pub addr_no_hash : (a : Ipv6Addr) → has 35 (show_addr a) ≡ false

-- The name of each is that of its type.
abbrev pub show_vni : Vni → Text
show_vni vni = decimal vni

-- `server-` and the number, of src/client.rs.
abbrev pub show_server_id : ServerId → Text
show_server_id id = codes "server-" ++ decimal id

abbrev pub show_next_hop_type : NextHopType → Text
show_next_hop_type standard = codes "STANDARD"
show_next_hop_type nat = codes "NAT"
show_next_hop_type load_balancer_target = codes "LOADBALANCER_TARGET"

abbrev pub show_connection_state : ConnectionState → Text
show_connection_state ConnectionState.connecting = codes "CONNECTING"
show_connection_state ConnectionState.hello_sent = codes "HELLO_SENT"
show_connection_state ConnectionState.hello_received = codes "HELLO_RECEIVED"
show_connection_state ConnectionState.established = codes "ESTABLISHED"
show_connection_state ConnectionState.retry = codes "RETRY"
show_connection_state ConnectionState.closed = codes "CLOSED"

-- ` (VNI: …)` of a next hop.
abbrev pub show_target_vni : Option ℕ → Text
show_target_vni none = []
show_target_vni (some vni) = codes " (VNI: " ++ decimal vni ++ codes ")"

-- What stands behind them for the type.
abbrev pub show_kind : NextHopType → ℕ → ℕ → Text
show_kind standard from to = []
show_kind nat from to = codes " [NAT ports " ++ decimal from ++ codes "-" ++ decimal to ++ codes "]"
show_kind load_balancer_target from to = codes " [LB]"

module _ {ip : IpNetLib} (text : AddressText ip) where
  unfoldable pub show_destination : Destination ip.IpNet → Text
  show_destination d = text.show_net d.prefix

  unfoldable pub show_next_hop : NextHop → Text
  show_next_hop hop =
      text.show_addr hop.target_address
      ++ show_target_vni hop.target_vni
      ++ show_kind hop.hop_type hop.nat_port_range_from hop.nat_port_range_to

  unfoldable pub show_route : Route ip.IpNet → Text
  unfolding show_destination show_next_hop
  show_route r = show_destination r.destination ++ codes " via " ++ show_next_hop r.next_hop
