-- ===== src/Types/Convert/RoundTrip.antt =====
-- The conversions of src/types.rs there and back.
use rustbond.Prelude.{
  All, ℕ, ◌%◌, ◌^◌, ◌≤◌, ◌<◌, ◌≡◌, refl, List, Option, none, some, arith, length, ◌==◌,
  if◌then◌else◌,
}
use rustbond.Types.Address.{
  IpAddr, IpNetLib, max_prefix_len, Action, NextHopType, Destination, NextHop,
}
use rustbond.Types.Proto.{IsProtoDestination, IsProtoNextHop}
use rustbond.Types.Convert.{
  ok, to_array, ip_version_number, ip_version_try_from, action_number, action_try_from,
  hop_type_number, hop_type_try_from, next_hop_try_from, vni_or_zero, proto_next_hop, parse_addr,
  version_of, octets_of, ip_version, destination_try_from, proto_destination,
}

-- The octets of an address are four or sixteen.
abbrev pub IsOctets : ℕ → List ℕ → Type 0
IsOctets n xs = (length xs ≡ n) × All (λ b. b < 2 ^ 8) xs

abbrev pub IsIpAddr : IpAddr → Type 0
IsIpAddr (IpAddr.v4 a) = IsOctets 4 a.octets
IsIpAddr (IpAddr.v6 a) = IsOctets 16 a.octets

-- A next hop within the ranges of its types: sixteen octets, a VNI of 32 bits and ports of 16.
pub record IsNextHop (nh : NextHop) : Type 0 where
  pub address : IsOctets 16 nh.target_address.octets
  pub vni : vni_or_zero nh.target_vni < 2 ^ 32
  pub from : nh.nat_port_range_from < 2 ^ 16
  pub to : nh.nat_port_range_to < 2 ^ 16

pub action_roundtrip : (a : Action) → action_try_from (action_number a) ≡ some a
unfolding action_try_from action_number
action_roundtrip Action.add = refl
action_roundtrip Action.remove = refl

hop_type_roundtrip : (t : NextHopType) → hop_type_try_from (hop_type_number t) ≡ some t
unfolding hop_type_try_from hop_type_number
hop_type_roundtrip NextHopType.standard = refl
hop_type_roundtrip NextHopType.nat = refl
hop_type_roundtrip NextHopType.load_balancer_target = refl

-- On the wire the VNI 0 stands for no VNI.
unfoldable pub wire_vni : Option ℕ → Option ℕ
wire_vni none = none
wire_vni (some v) = if v == 0 then none else some v

wire_vni_lem :
    (v : Option ℕ) → (if vni_or_zero v == 0 then none else some (vni_or_zero v)) ≡ wire_vni v
unfolding wire_vni vni_or_zero
wire_vni_lem none = refl
wire_vni_lem (some v) = refl

to_array-length : (n : ℕ) (xs : List ℕ) → length xs ≡ n → to_array n xs ≡ some xs
unfolding to_array
to_array-length n xs p = ground (arith, p)

low16 : (n : ℕ) → n < 2 ^ 16 → n % 2 ^ 16 ≡ n
low16 n p = omega (arith, p)

low8 : (n : ℕ) → n ≤ 128 → n % 2 ^ 8 ≡ n
low8 n p = omega (arith, p)

-- The next hop that the other side sees: a target VNI of 0 comes back as none.
abbrev pub received_hop : NextHop → NextHop
received_hop nh = record nh { target_vni = wire_vni nh.target_vni }

-- A next hop that is within the ranges of its types comes back from the wire as it was sent, but
-- for a target VNI of 0, which comes back as none.
pub next_hop_roundtrip :
    (nh : NextHop) → IsNextHop nh → next_hop_try_from (proto_next_hop nh) ≡ ok (received_hop nh)
unfolding next_hop_try_from proto_next_hop
next_hop_roundtrip nh i = rw (
  to_array-length 16 nh.target_address.octets i.address.0,
  hop_type_roundtrip nh.hop_type,
  wire_vni_lem nh.target_vni,
  low16 nh.nat_port_range_from i.from,
  low16 nh.nat_port_range_to i.to,
)

-- The prefixes that the crate `ipnet` can hold.
pub record IsPrefix (lib : IpNetLib) (p : IpNetLib.IpNet lib) : Type 0 where
  pub address : IsIpAddr (IpNetLib.addr lib p)
  pub bits : IpNetLib.prefix_len lib p ≤ max_prefix_len (IpNetLib.addr lib p)

parse_addr-octets :
    (a : IpAddr) → IsIpAddr a → parse_addr (ip_version_number (version_of a)) (octets_of a) ≡ ok a
unfolding parse_addr ip_version_number version_of ip_version_try_from
parse_addr-octets (IpAddr.v4 a) i = rw (to_array-length 4 a.octets i.0)
parse_addr-octets (IpAddr.v6 a) i = rw (to_array-length 16 a.octets i.0)

max_prefix_len-bound : (a : IpAddr) → max_prefix_len a ≤ 128
max_prefix_len-bound (IpAddr.v4 a) = omega arith
max_prefix_len-bound (IpAddr.v6 a) = omega arith

module _ (lib : IpNetLib) where
  open lib use {IpNet, addr, prefix_len, new_accepts, new_rejects, same_prefix}

  -- A destination whose address has bytes for octets and whose prefix length is within the bits of
  -- the address comes back from the wire as it was sent.
  pub destination_roundtrip :
      (d : Destination IpNet)
      → IsPrefix lib d.prefix
      → destination_try_from lib (proto_destination lib d) ≡ ok d
  unfolding destination_try_from proto_destination ip_version
  destination_roundtrip d i =
      let a = addr d.prefix in
      let (p, made, at, long) = new_accepts a (prefix_len d.prefix) i.bits in
      rw (
        parse_addr-octets a i.address,
        low8 (prefix_len d.prefix) (omega (arith, max_prefix_len-bound a, i.bits)),
        made,
        same_prefix p d.prefix at long,
      )

pub proto_next_hop-IsProtoNextHop :
    (nh : NextHop) → IsNextHop nh → IsProtoNextHop (proto_next_hop nh)
unfolding proto_next_hop hop_type_number
proto_next_hop-IsProtoNextHop nh i = record {
  bytes = i.address.1;
  vni = i.vni;
  type = ground arith;
  from = omega (arith, i.from);
  to = omega (arith, i.to);
}

pub proto_next_hop-size :
    (nh : NextHop) → IsNextHop nh → length (proto_next_hop nh).target_address ≤ 16
unfolding proto_next_hop
proto_next_hop-size nh i = omega (arith, i.address.0)

version-bound : (a : IpAddr) → ip_version_number (version_of a) < 2 ^ 32
unfolding ip_version_number version_of
version-bound (IpAddr.v4 a) = omega arith
version-bound (IpAddr.v6 a) = omega arith

octets-bytes : (a : IpAddr) → IsIpAddr a → All (λ b. b < 2 ^ 8) (octets_of a)
octets-bytes (IpAddr.v4 a) i = i.1
octets-bytes (IpAddr.v6 a) i = i.1

octets-length : (a : IpAddr) → IsIpAddr a → length (octets_of a) ≤ 16
octets-length (IpAddr.v4 a) i = omega (arith, i.0)
octets-length (IpAddr.v6 a) i = omega (arith, i.0)

module _ (lib : IpNetLib) where
  open lib use {IpNet, addr, prefix_len}

  pub proto_destination-IsProtoDestination :
      (d : Destination IpNet) → IsPrefix lib d.prefix → IsProtoDestination (proto_destination lib d)
  unfolding proto_destination ip_version
  proto_destination-IsProtoDestination d i = record {
    version = version-bound (addr d.prefix);
    bytes = octets-bytes (addr d.prefix) i.address;
    bits = omega (arith, i.bits, max_prefix_len-bound (addr d.prefix));
  }

  pub proto_destination-size :
      (d : Destination IpNet) → IsPrefix lib d.prefix → length (proto_destination lib d).prefix ≤ 16
  unfolding proto_destination
  proto_destination-size d i = octets-length (addr d.prefix) i.address
