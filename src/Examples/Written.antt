-- ===== src/Examples/Written.antt =====
-- The texts that `parse_announcement` and `parse_vni_table_map` of examples/client.rs are given, and
-- what they make of them.
use rustbond.Prelude.{
  ℕ, ◌^◌, ◌<◌, ◌≡◌, refl, false, List, [], ◌∷◌, ◌++◌, map, arith, All, ℕ_discrete,
}
use rustbond.Collections.Map.{Map, insert}
use rustbond.Types.Address.{Ipv6Addr, IpNetLib, Vni, NextHop, standard_hop, nat_hop, load_balancer}
use rustbond.Types.Convert.RoundTrip.{IsOctets}
use rustbond.Text.{
  Text, codes, has, to_lowercase, joined, split-joined, split_once-append, has-append,
  has-lowercase,
}
use rustbond.Text.Decimal.{decimal, has-decimal, parse_uint-decimal}
use rustbond.Types.Display.{AddressText}
use rustbond.Examples.Announcement.{
  parsed, with_type, with_ports, parse_parts, parse_announcement, parse_mapping, add_mappings,
  max_u16, max_u32,
}

-- The parts that say which next hop is meant, by the format `[#type[#fromPort#toPort]]` that the
-- program documents, the type in letters of any case.
pub data IsWritten : NextHop → List Text → Type 0 where
  short : (a : Ipv6Addr) → IsWritten (standard_hop a) []
  std :
      (a : Ipv6Addr) (t : Text) → to_lowercase t ≡ codes "std" → IsWritten (standard_hop a) (t ∷ [])
  lb :
      (a : Ipv6Addr) (t : Text) → to_lowercase t ≡ codes "lb" → IsWritten (load_balancer a) (t ∷ [])
  nat :
      (a : Ipv6Addr) (t : Text) (from to : ℕ)
      → to_lowercase t ≡ codes "nat"
      → from < 2 ^ 16
      → to < 2 ^ 16
      → IsWritten (nat_hop a from to) (t ∷ decimal from ∷ decimal to ∷ [])

-- A part of a text that was split.
abbrev IsPart : Text → Type 0
IsPart p = has 35 p ≡ false

no_hash : (t : Text) (s : Text) → to_lowercase t ≡ s → has 35 s ≡ false → has 35 t ≡ false
no_hash t s e h = has-lowercase t (rw e h)

IsWritten-no_hash :
    (hop : NextHop) (options : List Text) → IsWritten hop options → All IsPart options
IsWritten-no_hash _ _ (IsWritten.short a) = tt
IsWritten-no_hash _ _ (IsWritten.std a t e) = (no_hash t _ e refl, tt)
IsWritten-no_hash _ _ (IsWritten.lb a t e) = (no_hash t _ e refl, tt)
IsWritten-no_hash _ _ (IsWritten.nat a t from to e _ _) =
    (no_hash t _ e refl, (has-decimal 35 from (omega arith), (has-decimal 35 to (omega arith), tt)))

with_type-IsWritten :
    (hop : NextHop) (options : List Text)
    → IsWritten hop options
    → with_type hop.target_address options ≡ parsed hop
unfolding with_type with_ports standard_hop load_balancer nat_hop
with_type-IsWritten _ _ (IsWritten.short a) = refl
with_type-IsWritten _ _ (IsWritten.std a t e) = rw e refl
with_type-IsWritten _ _ (IsWritten.lb a t e) = rw e refl
with_type-IsWritten _ _ (IsWritten.nat a t from to e f g) =
    rw (
      e,
      parse_uint-decimal max_u16 from (omega arith),
      parse_uint-decimal max_u16 to (omega arith),
    )

-- `VNI#prefix@nexthop`, with further parts.
abbrev pub written : {ip : IpNetLib} → AddressText ip → Vni → ip.IpNet → Ipv6Addr → List Text → Text
written text vni prefix a options =
    joined 35 (decimal vni) ((text.show_net prefix ++ (64 ∷ text.show_addr a)) ∷ options)

module _ {ip : IpNetLib} (text : AddressText ip) where
  route_no_hash :
      (prefix : ip.IpNet) (a : Ipv6Addr)
      → has 35 (text.show_net prefix ++ (64 ∷ text.show_addr a)) ≡ false
  route_no_hash prefix a =
      has-append 35 (text.show_net prefix) (64 ∷ text.show_addr a) (text.net_no_hash prefix)
        (text.addr_no_hash a)

  parse_parts-IsWritten :
      (vni : Vni) (prefix : ip.IpNet) (hop : NextHop) (options : List Text)
      → vni < 2 ^ 32
      → IsOctets 16 hop.target_address.octets
      → IsWritten hop options
      → parse_parts text (
          decimal vni
          ∷ (text.show_net prefix ++ (64 ∷ text.show_addr hop.target_address))
          ∷ options)
        ≡ parsed (vni, record { prefix = prefix }, hop)
  unfolding parse_parts
  parse_parts-IsWritten vni prefix hop options small octets h =
      let a = hop.target_address in
      let at =
        split_once-append 64 (text.show_net prefix) (text.show_addr a) (text.net_no_at prefix) in
      rw (
        parse_uint-decimal max_u32 vni (omega arith),
        at,
        text.net_roundtrip prefix,
        text.addr_roundtrip a octets,
        with_type-IsWritten hop options h,
      )

  -- A text in the documented format, the type in letters of any case, of a VNI, a prefix, and a
  -- next hop whose numbers are within the ranges of their types, is read as this VNI, prefix and
  -- next hop.
  pub parse_announcement-written :
      (vni : Vni) (prefix : ip.IpNet) (hop : NextHop) (options : List Text)
      → vni < 2 ^ 32
      → IsOctets 16 hop.target_address.octets
      → IsWritten hop options
      → parse_announcement text (written text vni prefix hop.target_address options)
        ≡ parsed (vni, record { prefix = prefix }, hop)
  unfolding parse_announcement
  parse_announcement-written vni prefix hop options small octets h =
      let a = hop.target_address in
      let route = text.show_net prefix ++ (64 ∷ text.show_addr a) in
      let parts : All IsPart (decimal vni ∷ route ∷ options) = (
        has-decimal 35 vni (omega arith),
        (route_no_hash prefix a, IsWritten-no_hash hop options h),
      ) in
      rw (split-joined 35 (decimal vni) (route ∷ options) parts)
        (parse_parts-IsWritten vni prefix hop options small octets h)

-- `VNI#TABLE`
abbrev pub written_mapping : Vni × ℕ → Text
written_mapping (vni, table) = joined 35 (decimal vni) (decimal table ∷ [])

abbrev pub IsMapping : Vni × ℕ → Type 0
IsMapping (vni, table) = (vni < 2 ^ 32) × (table < 2 ^ 32)

-- The mappings, each in place of an earlier one of its VNI.
abbrev pub insert_all : List (Vni × ℕ) → Map Vni ℕ → Map Vni ℕ
insert_all [] m = m
insert_all ((vni, table) ∷ entries) m = insert_all entries (insert ℕ_discrete vni table m)

parse_mapping-written :
    (vni table : ℕ)
    → vni < 2 ^ 32
    → table < 2 ^ 32
    → parse_mapping (decimal vni ∷ decimal table ∷ []) ≡ parsed (vni, table)
unfolding parse_mapping
parse_mapping-written vni table h k =
    rw
      (parse_uint-decimal max_u32 vni (omega arith), parse_uint-decimal max_u32 table (omega arith))

-- Mappings as they are documented are all taken.
pub add_mappings-written :
    (entries : List (Vni × ℕ)) (m : Map Vni ℕ)
    → All IsMapping entries
    → add_mappings (map written_mapping entries) m ≡ parsed (insert_all entries m)
unfolding add_mappings
add_mappings-written [] m _ = refl
add_mappings-written ((vni, table) ∷ entries) m ((h, k), hs) =
    let parts : All IsPart (decimal vni ∷ decimal table ∷ []) =
      (has-decimal 35 vni (omega arith), (has-decimal 35 table (omega arith), tt)) in
    rw (
      split-joined 35 (decimal vni) (decimal table ∷ []) parts,
      parse_mapping-written vni table h k,
      add_mappings-written entries (insert ℕ_discrete vni table m) hs,
    )
