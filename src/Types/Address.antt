-- ===== src/Types/Address.antt =====
-- The standard library's IP addresses, the prefixes of the crate `ipnet`, and the types of
-- src/types.rs that are built from them.
use rustbond.Prelude.{ℕ, ◌≤◌, ◌<◌, ◌≡◌, List, Option, none, some, ℕ_discrete}

-- `std::net::Ipv4Addr` and `Ipv6Addr`, by their octets: four, and sixteen.
pub record Ipv4Addr : Type 0 where
  pub octets : List ℕ

pub record Ipv6Addr : Type 0 where
  pub octets : List ℕ

pub data IpAddr : Type 0 where
  v4 : Ipv4Addr → IpAddr
  v6 : Ipv6Addr → IpAddr

pub Ipv4Addr-discrete : Discrete Ipv4Addr
Ipv4Addr-discrete = hlevel ℕ_discrete

unfoldable pub Ipv6Addr-discrete : Discrete Ipv6Addr
Ipv6Addr-discrete = hlevel ℕ_discrete

unfoldable pub IpAddr-discrete : Discrete IpAddr
IpAddr-discrete = hlevel ℕ_discrete

-- The longest prefix of an address: its bits.
abbrev pub max_prefix_len : IpAddr → ℕ
max_prefix_len (v4 a) = 32
max_prefix_len (v6 a) = 128

-- The crate `ipnet`, as far as the program uses it. A prefix is an address with a length; `new`
-- refuses a length above the address's bits.
pub record IpNetLib : Type 1 where
  pub IpNet : Type 0
  pub discrete : Discrete IpNet
  pub new : IpAddr → ℕ → Option IpNet
  pub addr : IpNet → IpAddr
  pub prefix_len : IpNet → ℕ
  pub new_accepts :
      (a : IpAddr) (n : ℕ)
      → n ≤ max_prefix_len a
      → (p : IpNet) × (new a n ≡ some p) × (addr p ≡ a) × (prefix_len p ≡ n)
  pub new_rejects : (a : IpAddr) (n : ℕ) → max_prefix_len a < n → new a n ≡ none
  pub same_prefix : (p q : IpNet) → addr p ≡ addr q → prefix_len p ≡ prefix_len q → p ≡ q

-- `struct Vni(pub u32)`
abbrev pub Vni : Type 0
Vni = ℕ

pub data IpVersion : Type 0 where
  v4 v6 : IpVersion

pub data Action : Type 0 where
  add remove : Action

pub data NextHopType : Type 0 where
  standard nat load_balancer_target : NextHopType

-- The prefix type is that of `IpNetLib`.
pub record Destination (N : Type 0) : Type 0 where
  pub prefix : N

pub record NextHop : Type 0 where
  pub target_address : Ipv6Addr
  pub target_vni : Option ℕ
  pub hop_type : NextHopType
  pub nat_port_range_from : ℕ
  pub nat_port_range_to : ℕ

-- The derived `PartialEq`, `Eq` and `Hash`: equality of the fields.
unfoldable pub Destination-discrete : {N : Type 0} → Discrete N → Discrete (Destination N)
Destination-discrete d = hlevel d

unfoldable pub NextHop-discrete : Discrete NextHop
NextHop-discrete = hlevel ℕ_discrete

-- The constructors of `impl NextHop`.
unfoldable pub standard_hop : Ipv6Addr → NextHop
standard_hop target = record {
  target_address = target;
  target_vni = none;
  hop_type = standard;
  nat_port_range_from = 0;
  nat_port_range_to = 0;
}

unfoldable pub standard_with_vni : Ipv6Addr → ℕ → NextHop
standard_with_vni target vni = record {
  target_address = target;
  target_vni = some vni;
  hop_type = standard;
  nat_port_range_from = 0;
  nat_port_range_to = 0;
}

unfoldable pub nat_hop : Ipv6Addr → ℕ → ℕ → NextHop
nat_hop target port_from port_to = record {
  target_address = target;
  target_vni = none;
  hop_type = nat;
  nat_port_range_from = port_from;
  nat_port_range_to = port_to;
}

unfoldable pub load_balancer : Ipv6Addr → NextHop
load_balancer target = record {
  target_address = target;
  target_vni = none;
  hop_type = load_balancer_target;
  nat_port_range_from = 0;
  nat_port_range_to = 0;
}

pub data ConnectionState : Type 0 where
  connecting hello_sent hello_received established retry closed : ConnectionState

pub ConnectionState-discrete : Discrete ConnectionState
ConnectionState-discrete = hlevel
