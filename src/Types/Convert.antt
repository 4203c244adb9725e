-- ===== src/Types/Convert.antt =====
-- The conversions of src/types.rs between the program's types and those of the wire.
pub mod RoundTrip
pub mod Accepts
use rustbond.Prelude.{
  ℕ, ◌%◌, ◌^◌, Bool, true, false, List, Option, none, some, length, ◌==◌, if◌then◌else◌,
}
use rustbond.Types.Address.{
  Ipv4Addr, Ipv6Addr, IpAddr, IpNetLib, IpVersion, Action, NextHopType, Destination, NextHop,
}
use rustbond.Types.Proto.{ProtoDestination, ProtoNextHop}

-- The texts of the `Error::Protocol` that a conversion or `Message::decode` returns.
pub data Reason : Type 0 where
  invalid_ipv4_address_length invalid_ipv6_address_length invalid_ip_version : Reason
  invalid_prefix_length invalid_target_address_length invalid_next_hop_type : Reason
  invalid_action missing_destination missing_next_hop : Reason
  message_too_short message_truncated : Reason
  unsupported_protocol_version unknown_message_type message_too_long : ℕ → Reason
  expected_hello_response expected_keepalive_response expected_hello_message : Reason
  expected_hello expected_keepalive : Reason

-- src/error.rs. The errors of `prost`, of `std::io` and of `rtnetlink` carry nothing that the
-- program reads, and the text of a `Netlink` error goes to the log only.
pub data Error : Type 0 where
  connection : Error
  protocol : Reason → Error
  encoding not_established closed timeout connection_timeout : Error
  already_subscribed not_subscribed : ℕ → Error
  route_already_announced route_not_found netlink netlink_connection : Error

-- `std::result::Result`
pub data Result {ℓ} (A : Type ℓ) : Type ℓ where
  ok : A → Result A
  err : Error → Result A

-- `Result<()>`
abbrev pub Done : Type 0
Done = Result {0} Unit

infixl 5 ◌>>=◌
abbrev pub ◌>>=◌ {ℓ κ} : {A : Type ℓ} {B : Type κ} → Result A → (A → Result B) → Result B
ok a >>= f = f a
err e >>= f = err e

-- `r.unwrap_or(d)`
abbrev pub get_or {ℓ} : {A : Type ℓ} → A → Result A → A
get_or d (ok a) = a
get_or d (err e) = d

-- `o.ok_or_else(|| e)` and `map_err(|_| e)`
abbrev pub or_fail {ℓ} : {A : Type ℓ} → Option A → Reason → Result A
or_fail none e = err (protocol e)
or_fail (some a) e = ok a

-- `bytes.try_into()` at an array type: the bytes, if they are as many.
unfoldable pub to_array : ℕ → List ℕ → Option (List ℕ)
to_array n bytes = if length bytes == n then some bytes else none

-- The numbers of the enumerations, and `try_from` of an `i32`.
unfoldable pub ip_version_number : IpVersion → ℕ
ip_version_number IpVersion.v4 = 0
ip_version_number IpVersion.v6 = 1

unfoldable pub ip_version_try_from : ℕ → Option IpVersion
ip_version_try_from n =
    if n == 0 then some IpVersion.v4 else if n == 1 then some IpVersion.v6 else none

unfoldable pub action_number : Action → ℕ
action_number Action.add = 0
action_number Action.remove = 1

unfoldable pub action_try_from : ℕ → Option Action
action_try_from n = if n == 0 then some Action.add else if n == 1 then some Action.remove else none

unfoldable pub hop_type_number : NextHopType → ℕ
hop_type_number NextHopType.standard = 0
hop_type_number NextHopType.nat = 1
hop_type_number NextHopType.load_balancer_target = 2

unfoldable pub hop_type_try_from : ℕ → Option NextHopType
hop_type_try_from n =
    if n == 0
    then some NextHopType.standard
    else if n == 1
    then some NextHopType.nat
    else if n == 2
    then some NextHopType.load_balancer_target
    else none

-- `impl TryFrom<proto::NextHop> for NextHop`
unfoldable pub next_hop_try_from : ProtoNextHop → Result NextHop
unfolding to_array hop_type_try_from
next_hop_try_from nh = do
  bytes ← or_fail (to_array 16 nh.target_address) invalid_target_address_length
  hop_type ← or_fail (hop_type_try_from nh.hop_type) invalid_next_hop_type
  ok (record {
    target_address = record { octets = bytes };
    target_vni = if nh.target_vni == 0 then none else some nh.target_vni;
    hop_type = hop_type;
    nat_port_range_from = nh.nat_port_range_from % 2 ^ 16;
    nat_port_range_to = nh.nat_port_range_to % 2 ^ 16;
  })

-- `self.target_vni.unwrap_or(0)`
unfoldable pub vni_or_zero : Option ℕ → ℕ
vni_or_zero none = 0
vni_or_zero (some v) = v

-- `impl From<&NextHop> for proto::NextHop`
unfoldable pub proto_next_hop : NextHop → ProtoNextHop
unfolding vni_or_zero hop_type_number
proto_next_hop nh = record {
  target_address = nh.target_address.octets;
  target_vni = vni_or_zero nh.target_vni;
  hop_type = hop_type_number nh.hop_type;
  nat_port_range_from = nh.nat_port_range_from;
  nat_port_range_to = nh.nat_port_range_to;
}

-- The `match` on the IP version in `impl TryFrom<proto::Destination> for Destination`.
unfoldable pub parse_addr : ℕ → List ℕ → Result IpAddr
unfolding to_array ip_version_try_from
parse_addr version prefix = elim (ip_version_try_from version) [
  | none ↦ err (protocol invalid_ip_version)
  | some v ↦ elim v [
    | IpVersion.v4 ↦ do
      bytes ← or_fail (to_array 4 prefix) invalid_ipv4_address_length
      ok (IpAddr.v4 (record { octets = bytes }))
    | IpVersion.v6 ↦ do
      bytes ← or_fail (to_array 16 prefix) invalid_ipv6_address_length
      ok (IpAddr.v6 (record { octets = bytes }))
  ]
]

-- `Destination::ip_version`, by the address of the prefix.
unfoldable pub version_of : IpAddr → IpVersion
version_of (IpAddr.v4 a) = IpVersion.v4
version_of (IpAddr.v6 a) = IpVersion.v6

abbrev pub octets_of : IpAddr → List ℕ
octets_of (IpAddr.v4 a) = a.octets
octets_of (IpAddr.v6 a) = a.octets

module _ (lib : IpNetLib) where
  open lib use {IpNet, addr, prefix_len}

  unfoldable pub ip_version : Destination IpNet → IpVersion
  unfolding version_of
  ip_version d = version_of (addr d.prefix)

  -- `IpNet::new(..).expect(..)`, with none for the panic.
  unfoldable pub from_addr : IpAddr → ℕ → Option (Destination IpNet)
  from_addr a len = elim (lib.new a len) [
    | none ↦ none
    | some prefix ↦ some (record { prefix = prefix })
  ]

  unfoldable pub from_ipv4 : Ipv4Addr → ℕ → Option (Destination IpNet)
  unfolding from_addr
  from_ipv4 a len = from_addr (IpAddr.v4 a) len

  unfoldable pub from_ipv6 : Ipv6Addr → ℕ → Option (Destination IpNet)
  unfolding from_addr
  from_ipv6 a len = from_addr (IpAddr.v6 a) len

  -- `impl TryFrom<proto::Destination> for Destination`; `as u8` keeps the low eight bits.
  unfoldable pub destination_try_from : ProtoDestination → Result (Destination IpNet)
  unfolding parse_addr
  destination_try_from d = do
    address ← parse_addr d.ip_version d.prefix
    prefix ← or_fail (lib.new address (d.prefix_length % 2 ^ 8)) invalid_prefix_length
    ok (record { prefix = prefix })

  -- `impl From<&Destination> for proto::Destination`
  unfoldable pub proto_destination : Destination IpNet → ProtoDestination
  unfolding ip_version_number ip_version
  proto_destination d = record {
    ip_version = ip_version_number (ip_version d);
    prefix = octets_of (addr d.prefix);
    prefix_length = prefix_len d.prefix;
  }
