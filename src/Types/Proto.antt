-- ===== src/Types/Proto.antt =====
-- proto/metalbond.proto, included by src/proto.rs: the messages as `prost` makes Rust types of
-- them. An `i32` that holds an enumeration is kept as its 32-bit pattern.
use rustbond.Prelude.{ℕ, ◌^◌, ◌<◌, ◌≤◌, ◌≡◌, Bool, List, Option, some, length, All}

pub record Hello : Type 0 where
  pub keepalive_interval : ℕ
  pub is_server : Bool

pub record Subscription : Type 0 where
  pub vni : ℕ

pub record ProtoDestination : Type 0 where
  pub ip_version : ℕ
  pub prefix : List ℕ
  pub prefix_length : ℕ

pub record ProtoNextHop : Type 0 where
  pub target_address : List ℕ
  pub target_vni : ℕ
  pub hop_type : ℕ
  pub nat_port_range_from : ℕ
  pub nat_port_range_to : ℕ

pub record Update : Type 0 where
  pub action : ℕ
  pub vni : ℕ
  pub destination : Option ProtoDestination
  pub next_hop : Option ProtoNextHop

-- The values that the fields can hold: `uint32`, the pattern of an `i32`, bytes.
pub record IsProtoDestination (d : ProtoDestination) : Type 0 where
  pub version : d.ip_version < 2 ^ 32
  pub bytes : All (λ b. b < 2 ^ 8) d.prefix
  pub bits : d.prefix_length < 2 ^ 32

pub record IsProtoNextHop (nh : ProtoNextHop) : Type 0 where
  pub bytes : All (λ b. b < 2 ^ 8) nh.target_address
  pub vni : nh.target_vni < 2 ^ 32
  pub type : nh.hop_type < 2 ^ 32
  pub from : nh.nat_port_range_from < 2 ^ 32
  pub to : nh.nat_port_range_to < 2 ^ 32

-- The crate `prost` at the messages of the protocol. Decoding what was encoded gives the message
-- back. The protobuf encoding bounds the sizes: a number takes ten bytes at most with a tag of one
-- byte, and the address bytes of an update are sixteen at most, each with a tag and a length.
pub record Prost : Type 0 where
  pub encode_hello : Hello → List ℕ
  pub decode_hello : List ℕ → Option Hello
  pub encode_subscription : Subscription → List ℕ
  pub decode_subscription : List ℕ → Option Subscription
  pub encode_update : Update → List ℕ
  pub decode_update : List ℕ → Option Update
  pub decode_encode_hello :
      (h : Hello) → h.keepalive_interval < 2 ^ 32 → decode_hello (encode_hello h) ≡ some h
  pub decode_encode_subscription :
      (s : Subscription) → s.vni < 2 ^ 32 → decode_subscription (encode_subscription s) ≡ some s
  pub decode_encode_update :
      (action vni : ℕ) (d : ProtoDestination) (nh : ProtoNextHop)
      → action < 2 ^ 32
      → vni < 2 ^ 32
      → IsProtoDestination d
      → IsProtoNextHop nh
      → let u : Update = record {
        action = action;
        vni = vni;
        destination = some d;
        next_hop = some nh;
      } in
        decode_update (encode_update u) ≡ some u
  pub hello_size : (h : Hello) → length (encode_hello h) ≤ 16
  pub subscription_size : (s : Subscription) → length (encode_subscription s) ≤ 16
  pub update_size :
      (action vni : ℕ) (d : ProtoDestination) (nh : ProtoNextHop)
      → length d.prefix ≤ 16
      → length nh.target_address ≤ 16
      → let u : Update = record {
        action = action;
        vni = vni;
        destination = some d;
        next_hop = some nh;
      } in
        length (encode_update u) ≤ 128
