-- ===== src/Tests/Wires.antt =====
-- Applications of the theorems on src/types.rs and src/wire.rs.
use rustbond.Prelude.{ℕ, ◌≤◌, ◌≡◌, refl, ap, true, false, none, List, [], ◌∷◌, ◌++◌, arith, length}
use rustbond.Tests.Data.{codes, hop, host, nets}
use rustbond.Tests.WireData.{
  announcement, announcement-IsMessage, announcement_bytes, encode-announcement, hop-IsNextHop,
  host-IsOctets, network, prefix-IsPrefix,
}
use rustbond.Types.Address.{NextHop, NextHopType}
use rustbond.Types.Convert.{
  Error, destination_try_from, err, hop_type_try_from, next_hop_try_from, ok, proto_destination,
  proto_next_hop, to_array,
}
use rustbond.Types.Convert.Accepts.{
  IsReadOf, destination_try_from-accepts, good_destination, is_ok, next_hop_try_from-IsReadOf,
}
use rustbond.Types.Convert.RoundTrip.{destination_roundtrip, next_hop_roundtrip, received_hop}
use rustbond.Types.Proto.{IsProtoNextHop, ProtoDestination, ProtoNextHop}
use rustbond.Wire.Codec.{
  decode, decode_payload, encode, encode_payload, header_size, type_number, type_try_from,
}
use rustbond.Wire.Codec.Extend.{decode-extend, decode-truncated, is_final, is_incomplete}
use rustbond.Wire.Codec.RoundTrip.{decode-encode, encode_lem, received}
use rustbond.Wire.Message.{Message, message_type}

abbrev sent_next_hop : ProtoNextHop
sent_next_hop = record {
  target_address = (host 1).octets;
  target_vni = 0;
  hop_type = 1;
  nat_port_range_from = 70000;
  nat_port_range_to = 9;
}

sent_next_hop-IsProtoNextHop : IsProtoNextHop sent_next_hop
sent_next_hop-IsProtoNextHop = record {
  bytes = host-IsOctets.1;
  vni = omega arith;
  type = omega arith;
  from = omega arith;
  to = omega arith;
}

-- The low sixteen bits of a port are kept.
abbrev read_next_hop : NextHop
read_next_hop = record {
  target_address = host 1;
  target_vni = none;
  hop_type = NextHopType.nat;
  nat_port_range_from = 4464;
  nat_port_range_to = 9;
}

next_hop-reads : next_hop_try_from sent_next_hop ≡ ok read_next_hop
unfolding next_hop_try_from to_array hop_type_try_from
next_hop-reads = refl

-- A prefix length of 280 is read as 24.
abbrev sent_destination : ProtoDestination
sent_destination = record { ip_version = 0; prefix = 10 ∷ 0 ∷ 0 ∷ 0 ∷ []; prefix_length = 280 }

abbrev keepalive_bytes : List ℕ
keepalive_bytes = 1 ∷ 0 ∷ 0 ∷ 2 ∷ []

keepalive-decode : decode nets codes keepalive_bytes ≡ ok (Message.keepalive, 4)
unfolding decode type_try_from decode_payload
keepalive-decode = refl

nothing-open : is_final nets codes (decode nets codes []) ≡ false
unfolding decode
nothing-open = refl

keepalive-final : is_final nets codes (decode nets codes keepalive_bytes) ≡ true
keepalive-final = ap (is_final nets codes) keepalive-decode

subscribe-encode : encode nets codes (Message.subscribe 7) ≡ ok ((1 ∷ 0 ∷ 1 ∷ []) ++ (3 ∷ 7 ∷ []))
unfolding encode encode_payload message_type type_number
subscribe-encode = refl

next_hop_roundtrip_example : next_hop_try_from (proto_next_hop (hop 1)) ≡ ok (received_hop (hop 1))
next_hop_roundtrip_example = next_hop_roundtrip (hop 1) hop-IsNextHop

destination_roundtrip_example :
    destination_try_from nets (proto_destination nets network) ≡ ok network
destination_roundtrip_example = destination_roundtrip nets network prefix-IsPrefix

next_hop_try_from-IsReadOf_example : IsReadOf sent_next_hop read_next_hop
next_hop_try_from-IsReadOf_example =
    next_hop_try_from-IsReadOf sent_next_hop read_next_hop sent_next_hop-IsProtoNextHop
      next_hop-reads

destination_try_from-accepts_example :
    is_ok (destination_try_from nets sent_destination) ≡ good_destination sent_destination
destination_try_from-accepts_example = destination_try_from-accepts nets sent_destination

encode_lem_example :
    (buf : List ℕ) × (encode nets codes announcement ≡ ok buf)
    × (header_size ≤ length buf)
    × (length buf ≤ 132)
encode_lem_example = encode_lem nets codes announcement announcement-IsMessage

decode-encode_example :
    decode nets codes (announcement_bytes ++ keepalive_bytes)
    ≡ ok (received nets codes announcement, length announcement_bytes)
decode-encode_example =
    decode-encode nets codes announcement announcement_bytes keepalive_bytes announcement-IsMessage
      encode-announcement

decode-extend_example :
    decode nets codes (keepalive_bytes ++ announcement_bytes) ≡ decode nets codes keepalive_bytes
decode-extend_example = decode-extend nets codes keepalive_bytes announcement_bytes keepalive-final

decode-truncated_example :
    (e : Error) × (decode nets codes (1 ∷ 0 ∷ 1 ∷ []) ≡ err e) × (is_incomplete e ≡ true)
decode-truncated_example =
    decode-truncated nets codes (Message.subscribe 7) (1 ∷ 0 ∷ 1 ∷ []) (3 ∷ 7 ∷ []) (omega arith)
      subscribe-encode (omega arith)
