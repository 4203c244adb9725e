-- ===== src/Examples/Announcement.antt =====
-- `parse_announcement` and `parse_vni_table_map` of examples/client.rs. The texts of the errors are
-- left out, their kinds are kept.
use rustbond.Prelude.{ℕ, ◌-◌, ◌^◌, List, [], ◌∷◌, Option, none, some, if◌then◌else◌, ℕ_discrete}
use rustbond.Collections.Map.{Map, insert}
use rustbond.Types.Address.{
  Ipv6Addr, IpNetLib, Vni, Destination, NextHop, standard_hop, nat_hop, load_balancer,
}
use rustbond.Types.Display.{AddressText}
use rustbond.Text.{Text, codes, split, split_once, to_lowercase, same}
use rustbond.Text.Decimal.{parse_uint}

-- Why a text is refused.
pub data Refusal : Type 0 where
  expected_format invalid_number invalid_prefix invalid_address ports_required unknown_type :
      Refusal

pub data Parsed (A : Type 0) : Type 0 where
  parsed : A → Parsed A
  refused : Refusal → Parsed A

infixl 5 ◌>>=◌
abbrev pub ◌>>=◌ : {A B : Type 0} → Parsed A → (A → Parsed B) → Parsed B
parsed a >>= f = f a
refused e >>= f = refused e

-- `o.ok_or(e)?`
abbrev pub or_refuse : {A : Type 0} → Option A → Refusal → Parsed A
or_refuse none e = refused e
or_refuse (some a) e = parsed a

abbrev pub max_u32 : ℕ
max_u32 = 2 ^ 32 - 1

abbrev pub max_u16 : ℕ
max_u16 = 2 ^ 16 - 1

-- The parts behind the type `nat`.
unfoldable pub with_ports : Ipv6Addr → List Text → Parsed NextHop
with_ports addr (from_text ∷ to_text ∷ []) = do
  port_from ← or_refuse (parse_uint max_u16 from_text) invalid_number
  port_to ← or_refuse (parse_uint max_u16 to_text) invalid_number
  parsed (nat_hop addr port_from port_to)
with_ports addr _ = refused ports_required

-- The parts behind the addresses. Parts behind the types `lb` and `std` are not looked at.
unfoldable pub with_type : Ipv6Addr → List Text → Parsed NextHop
with_type addr [] = parsed (standard_hop addr)
with_type addr (type_text ∷ ports) =
    let word = to_lowercase type_text in
    if same word (codes "nat")
    then with_ports addr ports
    else if same word (codes "lb")
    then parsed (load_balancer addr)
    else if same word (codes "std")
    then parsed (standard_hop addr)
    else refused unknown_type

module _ {ip : IpNetLib} (text : AddressText ip) where
  unfoldable pub parse_parts : List Text → Parsed (Vni × Destination ip.IpNet × NextHop)
  parse_parts (vni_text ∷ route_text ∷ options) = do
    vni ← or_refuse (parse_uint max_u32 vni_text) invalid_number
    strs ← or_refuse (split_once 64 route_text) expected_format
    prefix ← or_refuse (text.parse_net strs.0) invalid_prefix
    addr ← or_refuse (text.parse_addr strs.1) invalid_address
    next_hop ← with_type addr options
    parsed (vni, record { prefix = prefix }, next_hop)
  parse_parts _ = refused expected_format

  unfoldable pub parse_announcement : Text → Parsed (Vni × Destination ip.IpNet × NextHop)
  unfolding parse_parts
  parse_announcement s = parse_parts (split 35 s)

unfoldable pub parse_mapping : List Text → Parsed (Vni × ℕ)
parse_mapping (vni_text ∷ table_text ∷ []) = do
  vni ← or_refuse (parse_uint max_u32 vni_text) invalid_number
  table ← or_refuse (parse_uint max_u32 table_text) invalid_number
  parsed (vni, table)
parse_mapping _ = refused expected_format

-- The loop over the mappings: the first that is refused ends it.
unfoldable pub add_mappings : List Text → Map Vni ℕ → Parsed (Map Vni ℕ)
unfolding parse_mapping
add_mappings [] m = parsed m
add_mappings (mapping ∷ mappings) m = do
  entry ← parse_mapping (split 35 mapping)
  add_mappings mappings (insert ℕ_discrete entry.0 entry.1 m)

unfoldable pub parse_vni_table_map : List Text → Parsed (Map Vni ℕ)
unfolding add_mappings
parse_vni_table_map mappings = add_mappings mappings []
