-- ===== src/Tests/Announcements.antt =====
-- The texts of examples/client.rs at concrete values.
use rustbond.Prelude.{
  ℕ, ◌+◌, ◌-◌, ◌<◌, ◌≡◌, ◌≢◌, refl, ap, true, false, List, [], ◌∷◌, map, Option, none, some, arith,
  any, ◌||◌, ◌==◌, if◌then◌else◌,
}
use rustbond.Types.Address.{IpAddr, load_balancer, nat_hop, standard_hop, established}
use rustbond.Text.{Text, codes, has, split, split_once, to_lowercase}
use rustbond.Text.Decimal.{decimal, digits, parse_uint}
use rustbond.Types.Display.{AddressText}
use rustbond.Examples.Announcement.{parsed, parse_announcement, parse_parts, with_type}
use rustbond.Examples.Written.{written, IsWritten, parse_announcement-written}
use rustbond.Types.Convert.{ok}
use rustbond.Collections.Map.{get}
use rustbond.Route
use rustbond.Route.{next_hop_exists}
use rustbond.Route.History.{same}
use rustbond.Client.Api.{Client}
use rustbond.Examples.Program.{announce_each}
use rustbond.Examples.Announced.{Meant, is_same, is_known, all_new}
use rustbond.Examples.Documented.{Announcement, text_of, route_of, announce_each-documented}
use rustbond.Tests.Data.{nets, host}
use rustbond.Tests.WireData.{host-IsOctets}

-- One character for each number.
abbrev pub above : List ℕ → Text
above = map (λ n. 128 + n)

abbrev pub numbers : Text → List ℕ
numbers = map (λ n. n - 128)

pub numbers-above : (ns : List ℕ) → numbers (above ns) ≡ ns
numbers-above [] = refl
numbers-above (n ∷ ns) = grind (arith, numbers-above ns)

pub has-above : (c : ℕ) (ns : List ℕ) → c < 128 → has c (above ns) ≡ false
has-above c [] h = refl
has-above c (n ∷ ns) h = ground (arith, has-above c ns)

abbrev pub show_plain : nets.IpNet → Text
show_plain (IpAddr.v4 a, n) = 52 ∷ above (n ∷ a.octets)
show_plain (IpAddr.v6 a, n) = 54 ∷ above (n ∷ a.octets)

abbrev pub read_numbers : ℕ → List ℕ → Option (nets.IpNet)
read_numbers v [] = none
read_numbers v (n ∷ octets) =
    if v == 52
    then some (IpAddr.v4 (record { octets = octets }), n)
    else some (IpAddr.v6 (record { octets = octets }), n)

abbrev pub read_plain : Text → Option (nets.IpNet)
read_plain [] = none
read_plain (v ∷ s) = read_numbers v (numbers s)

pub plain_roundtrip : (p : nets.IpNet) → read_plain (show_plain p) ≡ some p
plain_roundtrip (IpAddr.v4 a, n) = ap (read_numbers 52) (numbers-above (n ∷ a.octets))
plain_roundtrip (IpAddr.v6 a, n) = ap (read_numbers 54) (numbers-above (n ∷ a.octets))

pub plain_has : (c : ℕ) (p : nets.IpNet) → c < 128 → c ≢ 52 → c ≢ 54 → has c (show_plain p) ≡ false
plain_has c (IpAddr.v4 a, n) h p _ =
    let other : (52 == c) ≡ false = ground (arith, p) in rw other (has-above c (n ∷ a.octets) h)
plain_has c (IpAddr.v6 a, n) h _ p =
    let other : (54 == c) ≡ false = ground (arith, p) in rw other (has-above c (n ∷ a.octets) h)

abbrev pub texts : AddressText nets
texts = record {
  parse_net = read_plain;
  show_net = show_plain;
  parse_addr = λ s. some (record { octets = numbers s });
  show_addr = λ a. above a.octets;
  net_roundtrip = plain_roundtrip;
  addr_roundtrip = λ a h. ap (λ ns. some (record { octets = ns })) (numbers-above a.octets);
  net_no_hash = λ p. plain_has 35 p (omega arith) (omega arith) (omega arith);
  net_no_at = λ p. plain_has 64 p (omega arith) (omega arith) (omega arith);
  addr_no_hash = λ a. has-above 35 a.octets (omega arith);
}

abbrev pub network : nets.IpNet
network = (IpAddr.v6 (host 0), 64)

abbrev pub nat_options : List Text
nat_options = codes "NAT" ∷ codes "1024" ∷ codes "2048" ∷ []

-- Parts behind the types that take none are not looked at.
further_parts :
    parse_announcement texts
      (written texts 100 network (host 1) (codes "lb" ∷ codes "1024" ∷ codes "2048" ∷ []))
    ≡ parsed (100, record { prefix = network }, load_balancer (host 1))
unfolding parse_announcement parse_parts with_type split split_once to_lowercase decimal digits
    parse_uint load_balancer
further_parts = refl

parse_announcement-written_example :
    parse_announcement texts (written texts 200 network (host 1) nat_options)
    ≡ parsed (200, record { prefix = network }, nat_hop (host 1) 1024 2048)
unfolding nat_hop to_lowercase decimal
parse_announcement-written_example =
    parse_announcement-written texts 200 network (nat_hop (host 1) 1024 2048) nat_options
      (omega arith) host-IsOctets
      (IsWritten.nat (host 1) (codes "NAT") 1024 2048 refl (omega arith) (omega arith))

-- Two announcements, one of them a NAT target.
abbrev pub announcements : List (Announcement nets.IpNet)
announcements =
    record { vni = 200; prefix = network; hop = nat_hop (host 1) 1024 2048; options = nat_options }
    ∷ record { vni = 100; prefix = network; hop = standard_hop (host 1); options = [] }
    ∷ []

-- A client with one peer, which is established.
abbrev pub connected : Client nets.IpNet
connected = record {
  peers = (0, record { state = established; is_open = true; commands = [] }) ∷ [];
  subscriptions = [];
  announced_routes = Route.new;
}

announcements-new : all_new texts (is_known texts connected) (map route_of announcements) ≡ true
unfolding next_hop_exists get same
announcements-new = ground arith

announce_each-documented_example :
    let after =
      announce_each texts (λ k peers. peers) 1 connected (map (text_of texts) announcements) in
    (after.1 ≡ ok tt)
    × ((q : Meant nets.IpNet)
        → is_known texts after.0 q ≡ (
            any (λ r. is_same texts r q) (map route_of announcements)
            || is_known texts connected q))
unfolding nat_hop standard_hop to_lowercase decimal
announce_each-documented_example =
    announce_each-documented texts (λ k peers. peers) 1 connected announcements
      (
        (
          omega arith,
          host-IsOctets,
          IsWritten.nat (host 1) (codes "NAT") 1024 2048 refl (omega arith) (omega arith),
        ),
        ((omega arith, host-IsOctets, IsWritten.short (host 1)), tt),
      )
      (λ i peers h. h) (ground arith) announcements-new
