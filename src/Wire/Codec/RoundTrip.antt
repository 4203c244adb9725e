-- ===== src/Wire/Codec/RoundTrip.antt =====
-- `Message::encode` followed by `Message::decode` of src/wire.rs.
use rustbond.Prelude.{
  ℕ, ◌+◌, ◌*◌, ◌/◌, ◌%◌, ◌^◌, ◌≤◌, ◌<◌, ◌≡◌, refl, sym, ap, ◌∙◌, List, [], ◌∷◌, ◌++◌, some, arith,
  length, take, length-append, ltb-false,
}
use mathlib.Core.Path.{subst}
use rustbond.Types.Address.{IpNetLib, Action}
use rustbond.Types.Proto.{Hello, Subscription, Update, Prost}
use rustbond.Types.Convert.{ok, get_or, action_number, proto_next_hop, proto_destination}
use rustbond.Types.Convert.RoundTrip.{
  IsNextHop, IsPrefix, received_hop, action_roundtrip, next_hop_roundtrip, destination_roundtrip,
  proto_next_hop-IsProtoNextHop, proto_destination-IsProtoDestination, proto_next_hop-size,
  proto_destination-size,
}
use rustbond.Wire.Message.{MessageType, Message, message_type}
use rustbond.Wire.Codec.{
  protocol_version, header_size, max_payload_size, type_number, type_try_from, encode_payload,
  encode, decode_payload, decode,
}

pub type_roundtrip : (t : MessageType) → type_try_from (type_number t) ≡ ok t
unfolding type_try_from type_number
type_roundtrip MessageType.hello = refl
type_roundtrip MessageType.keepalive = refl
type_roundtrip MessageType.subscribe = refl
type_roundtrip MessageType.unsubscribe = refl
type_roundtrip MessageType.update = refl

action-bound : (a : Action) → action_number a < 2 ^ 32
unfolding action_number
action-bound Action.add = omega arith
action-bound Action.remove = omega arith

length-bytes : (n : ℕ) → n ≤ max_payload_size → n / 2 ^ 8 % 2 ^ 8 * 2 ^ 8 + n % 2 ^ 8 ≡ n
length-bytes n p = omega (arith, p)

pub take-append : {A : Type 0} (xs ys : List A) → take (length xs) (xs ++ ys) ≡ xs
take-append [] ys = refl
take-append (x ∷ xs) ys = ap (λ zs. x ∷ zs) (take-append xs ys)

module _ (lib : IpNetLib) (prost : Prost) where
  open lib use {IpNet, addr, prefix_len}

  -- A message within the ranges of its types.
  abbrev pub IsMessage : Message IpNet → Type 0
  IsMessage (Message.hello interval is_server) = interval < 2 ^ 32
  IsMessage Message.keepalive = Unit
  IsMessage (Message.subscribe vni) = vni < 2 ^ 32
  IsMessage (Message.unsubscribe vni) = vni < 2 ^ 32
  IsMessage (Message.update action vni destination next_hop) =
      (vni < 2 ^ 32) × IsPrefix lib destination.prefix × IsNextHop next_hop

  -- The message that the other side sees: that of an update's next hop.
  abbrev pub received : Message IpNet → Message IpNet
  received (Message.update action vni destination next_hop) =
      Message.update action vni destination (received_hop next_hop)
  received msg = msg

  pub record IsPayloadOf (msg : Message IpNet) (payload : List ℕ) : Type 0 where
    encodes : encode_payload lib prost msg ≡ ok payload
    decodes : decode_payload lib prost (message_type msg) payload ≡ ok (received msg)
    size : length payload ≤ 128

  encode_payload-IsPayloadOf :
      (msg : Message IpNet) → IsMessage msg → (payload : List ℕ) × IsPayloadOf msg payload
  unfolding encode_payload decode_payload message_type
  encode_payload-IsPayloadOf (Message.hello interval is_server) i =
      let msg : Hello = record { keepalive_interval = interval; is_server = is_server } in
      let bytes = prost.encode_hello msg in
      (
        bytes,
        record {
          encodes = refl;
          decodes = rw (prost.decode_encode_hello msg i);
          size = omega (arith, prost.hello_size msg);
        },
      )
  encode_payload-IsPayloadOf Message.keepalive i =
      ([], record { encodes = refl; decodes = refl; size = omega arith })
  encode_payload-IsPayloadOf (Message.subscribe vni) i =
      let msg : Subscription = record { vni = vni } in
      (
        prost.encode_subscription msg,
        record {
          encodes = refl;
          decodes = rw (prost.decode_encode_subscription msg i);
          size = omega (arith, prost.subscription_size msg);
        },
      )
  encode_payload-IsPayloadOf (Message.unsubscribe vni) i =
      let msg : Subscription = record { vni = vni } in
      (
        prost.encode_subscription msg,
        record {
          encodes = refl;
          decodes = rw (prost.decode_encode_subscription msg i);
          size = omega (arith, prost.subscription_size msg);
        },
      )
  encode_payload-IsPayloadOf (Message.update action vni destination next_hop) (v, d, h) =
      let dest = proto_destination lib destination in
      let hop = proto_next_hop next_hop in
      let msg : Update = record {
        action = action_number action;
        vni = vni;
        destination = some dest;
        next_hop = some hop;
      } in
      let read =
        prost.decode_encode_update (action_number action) vni dest hop (action-bound action) v
          (proto_destination-IsProtoDestination lib destination d)
          (proto_next_hop-IsProtoNextHop next_hop h) in
      (
        prost.encode_update msg,
        record {
          encodes = refl;
          decodes = rw (
            read,
            action_roundtrip action,
            destination_roundtrip lib destination d,
            next_hop_roundtrip next_hop h,
          );
          size =
              prost.update_size (action_number action) vni dest hop
                (proto_destination-size lib destination d) (proto_next_hop-size next_hop h);
        },
      )

  -- What `encode` makes of a payload.
  abbrev frame : MessageType → List ℕ → List ℕ
  frame type payload =
      protocol_version
      ∷ length payload / 2 ^ 8 % 2 ^ 8
      ∷ length payload % 2 ^ 8
      ∷ type_number type
      ∷ payload

  decode-frame :
      (type : MessageType) (payload rest : List ℕ) (msg : Message IpNet)
      → length payload ≤ max_payload_size
      → decode_payload lib prost type payload ≡ ok msg
      → decode lib prost (frame type payload ++ rest) ≡ ok (msg, length (frame type payload))
  unfolding decode
  decode-frame type payload rest msg p reads =
      rw
        (
          type_roundtrip type,
          length-bytes (length payload) p,
          ltb-false (header_size + length (payload ++ rest)) (header_size + length payload)
              (omega (arith, length-append payload rest)),
          take-append payload rest,
          reads,
        )
        (ap (λ n. ok (msg, n)) (omega arith))

  encode-frame :
      (msg : Message IpNet) (payload : List ℕ)
      → IsPayloadOf msg payload
      → encode lib prost msg ≡ ok (frame (message_type msg) payload)
  unfolding encode
  encode-frame msg payload i =
      rw (i.encodes, ltb-false max_payload_size (length payload) (omega (arith, i.size)))

  -- A message that is within the ranges of its types can be encoded, into four to 132 bytes.
  pub encode_lem :
      (msg : Message IpNet)
      → IsMessage msg
      → (buf : List ℕ) × (encode lib prost msg ≡ ok buf)
        × (header_size ≤ length buf)
        × (length buf ≤ 132)
  encode_lem msg i =
      let (payload, p) = encode_payload-IsPayloadOf msg i in
      let size = p.size in
      (
        frame (message_type msg) payload,
        encode-frame msg payload p,
        omega arith,
        omega (arith, size),
      )

  -- Whatever follows its bytes, an encoded message that is within the ranges of its types is
  -- decoded to what the other side should see, and all its bytes and no others are consumed.
  pub decode-encode :
      (msg : Message IpNet) (buf rest : List ℕ)
      → IsMessage msg
      → encode lib prost msg ≡ ok buf
      → decode lib prost (buf ++ rest) ≡ ok (received msg, length buf)
  decode-encode msg buf rest i made =
      let (payload, p) = encode_payload-IsPayloadOf msg i in
      let same : frame (message_type msg) payload ≡ buf =
        ap (get_or []) (sym (encode-frame msg payload p) ∙ made) in
      let reads =
        decode-frame (message_type msg) payload rest (received msg) (omega (arith, p.size))
          p.decodes in
      subst (λ b. decode lib prost (b ++ rest) ≡ ok (received msg, length b)) same reads
