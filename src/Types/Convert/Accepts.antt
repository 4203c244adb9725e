-- ===== src/Types/Convert/Accepts.antt =====
-- What the conversions of src/types.rs from the wire accept.
use rustbond.Prelude.{
  All, ◌<◌, ℕ, ◌%◌, ◌^◌, ◌≡◌, sym, ap, ◌∙◌, Bool, true, false, ◌&&◌, ◌||◌, List, Option, none, some,
  inl, refl, inr, arith, length, ◌==◌, leb, if◌then◌else◌, Option-cases, Bool-cases,
}
use mathlib.Core.Path.{subst}
use rustbond.Types.Address.{IpAddr, IpNetLib, max_prefix_len, NextHopType, Destination, NextHop}
use rustbond.Types.Proto.{ProtoDestination, ProtoNextHop, IsProtoNextHop}
use rustbond.Types.Convert.{
  Result, ok, err, ◌>>=◌, or_fail, to_array, ip_version_try_from, hop_type_number,
  hop_type_try_from, get_or, vni_or_zero, next_hop_try_from, parse_addr, destination_try_from,
  from_addr, invalid_prefix_length,
}
use rustbond.Types.Convert.RoundTrip.{IsNextHop, wire_vni}

abbrev pub is_ok {ℓ} : {A : Type ℓ} → Result A → Bool
is_ok (ok a) = true
is_ok (err e) = false

-- A next hop on the wire that has sixteen octets and one of the three types.
abbrev pub good_next_hop : ProtoNextHop → Bool
good_next_hop p = length p.target_address == 16 && leb p.hop_type 2

-- Exactly those next hops are accepted that have sixteen octets and a known type, whatever their
-- other numbers are.
pub next_hop_try_from-accepts : (p : ProtoNextHop) → is_ok (next_hop_try_from p) ≡ good_next_hop p
unfolding next_hop_try_from to_array hop_type_try_from
next_hop_try_from-accepts p = ground arith

to_array-some : (n : ℕ) (xs ys : List ℕ) → to_array n xs ≡ some ys → (ys ≡ xs) × (length xs ≡ n)
unfolding to_array
to_array-some n xs ys h = (ground (arith, h), ground (arith, h))

hop_type_number-try :
    (n : ℕ) (t : NextHopType) → hop_type_try_from n ≡ some t → hop_type_number t ≡ n
unfolding hop_type_try_from hop_type_number
hop_type_number-try n NextHopType.standard h = ground (arith, h)
hop_type_number-try n NextHopType.nat h = ground (arith, h)
hop_type_number-try n NextHopType.load_balancer_target h = ground (arith, h)

-- What the program has made of a next hop on the wire.
pub record IsReadOf (p : ProtoNextHop) (nh : NextHop) : Type 0 where
  pub valid : IsNextHop nh
  pub same_vni : wire_vni nh.target_vni ≡ nh.target_vni
  pub same_octets : nh.target_address.octets ≡ p.target_address
  pub same_type : hop_type_number nh.hop_type ≡ p.hop_type

-- Whatever next hop is accepted, its fields within the ranges of the wire, has its numbers within
-- range, the octets and the type that were sent, and no target VNI of 0.
pub next_hop_try_from-IsReadOf :
    (p : ProtoNextHop) (nh : NextHop)
    → IsProtoNextHop p
    → next_hop_try_from p ≡ ok nh
    → IsReadOf p nh
unfolding next_hop_try_from wire_vni vni_or_zero
next_hop_try_from-IsReadOf p nh i h = elim (Option-cases (to_array 16 p.target_address)) [
  | inl a ↦ ground (arith, a, h)
  | inr (bytes, a) ↦ elim (Option-cases (hop_type_try_from p.hop_type)) [
    | inl t ↦ ground (arith, a, t, h)
    | inr (hop_type, t) ↦
        let made : NextHop = record {
          target_address = record { octets = bytes };
          target_vni = if p.target_vni == 0 then none else some p.target_vni;
          hop_type = hop_type;
          nat_port_range_from = p.nat_port_range_from % 2 ^ 16;
          nat_port_range_to = p.nat_port_range_to % 2 ^ 16;
        } in
        let (same, long) = to_array-some 16 p.target_address bytes a in
        let reads : next_hop_try_from p ≡ ok made = rw (a, t) in
        subst (IsReadOf p) (ap (get_or made) (sym reads ∙ h)) (record {
          valid = record {
            address = (ap length same ∙ long, subst (All (λ b. b < 2 ^ 8)) (sym same) i.bytes);
            vni = ground (arith, i.vni);
            from = omega arith;
            to = omega arith;
          };
          same_vni = ground arith;
          same_octets = same;
          same_type = hop_type_number-try p.hop_type hop_type t;
        })
  ]
]

-- An address of as many octets as its version has, and no more bits than those of the address; of
-- the number of bits only the low eight count.
abbrev pub good_destination : ProtoDestination → Bool
good_destination p =
    p.ip_version == 0 && (length p.prefix == 4 && leb (p.prefix_length % 2 ^ 8) 32)
    || p.ip_version == 1 && (length p.prefix == 16 && leb (p.prefix_length % 2 ^ 8) 128)

module _ (lib : IpNetLib) where
  open lib use {IpNet, addr, prefix_len, new_accepts, new_rejects}

  abbrev holding : IpNet → Result (Destination IpNet)
  holding p = ok (record { prefix = p })

  new-accepts :
      (a : IpAddr) (n : ℕ)
      → is_ok (or_fail (lib.new a n) invalid_prefix_length >>= holding) ≡ leb n (max_prefix_len a)
  new-accepts a n = elim (Bool-cases (leb n (max_prefix_len a))) [
    | inl p ↦ let (net, made, at, long) = new_accepts a n (ground (arith, p)) in rw (made, p)
    | inr p ↦ rw (new_rejects a n (ground (arith, p)), p)
  ]

  -- Exactly those destinations are accepted whose version is known, whose octets are as many as
  -- the version has, and whose prefix length, of which the low eight bits are read, is within the
  -- bits of the address.
  pub destination_try_from-accepts :
      (p : ProtoDestination) → is_ok (destination_try_from lib p) ≡ good_destination p
  unfolding destination_try_from parse_addr to_array ip_version_try_from
  destination_try_from-accepts p = ground (
    arith,
    new-accepts (IpAddr.v4 (record { octets = p.prefix })) (p.prefix_length % 2 ^ 8),
    new-accepts (IpAddr.v6 (record { octets = p.prefix })) (p.prefix_length % 2 ^ 8),
  )

  abbrev is_some : {A : Type 0} → Option A → Bool
  is_some none = false
  is_some (some a) = true

  from_addr_taken :
      (a : IpAddr) (n : ℕ) (p : IpNet)
      → lib.new a n ≡ some p
      → from_addr lib a n ≡ some (record { prefix = p })
  unfolding from_addr
  from_addr_taken a n p h = rw (from_addr, h) refl

  from_addr_refused : (a : IpAddr) (n : ℕ) → lib.new a n ≡ none → from_addr lib a n ≡ none
  unfolding from_addr
  from_addr_refused a n h = rw (from_addr, h) refl

  -- A prefix length above the bits of the address panics, any other is taken as it is.
  pub from_addr_lem :
      (a : IpAddr) (n : ℕ)
      → (is_some (from_addr lib a n) ≡ leb n (max_prefix_len a))
        × ((d : Destination IpNet)
            → from_addr lib a n ≡ some d
            → (addr d.prefix ≡ a) × (prefix_len d.prefix ≡ n))
  from_addr_lem a n = elim (Bool-cases (leb n (max_prefix_len a))) [
    | inl p ↦
        let (net, made, at, long) = new_accepts a n (ground (arith, p)) in
        let taken = from_addr_taken a n net made in
        (rw (taken, p) refl, λ d. rw taken λ h. ground (arith, at, long, h))
    | inr p ↦
        let refused = from_addr_refused a n (new_rejects a n (ground (arith, p))) in
        (rw (refused, p) refl, λ d. rw refused λ h. cc)
  ]
