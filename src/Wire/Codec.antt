-- ===== src/Wire/Codec.antt =====
-- `Message::encode` and `Message::decode` of src/wire.rs. Bytes are numbers below 256.
pub mod RoundTrip
pub mod Extend
use rustbond.Prelude.{
  ℕ, ◌+◌, ◌*◌, ◌/◌, ◌%◌, ◌^◌, Bool, true, false, List, [], ◌∷◌, Option, none, some, length, take,
  ltb, ◌==◌, if◌then◌else◌,
}
use rustbond.Types.Address.{IpNetLib, Action, Destination, NextHop}
use rustbond.Types.Proto.{Hello, Subscription, Update, Prost}
use rustbond.Types.Convert.{
  Error, protocol, encoding, Result, ok, err, ◌>>=◌, or_fail, action_number, action_try_from,
  next_hop_try_from, proto_next_hop, destination_try_from, proto_destination, invalid_action,
  missing_destination, missing_next_hop, message_too_short, message_truncated,
  unsupported_protocol_version, unknown_message_type, message_too_long,
}
use rustbond.Wire.Message.{MessageType, Message, message_type}

abbrev pub protocol_version : ℕ
protocol_version = 1

abbrev pub header_size : ℕ
header_size = 4

abbrev pub max_payload_size : ℕ
max_payload_size = 1188

-- `MessageType as u8`
unfoldable pub type_number : MessageType → ℕ
type_number MessageType.hello = 1
type_number MessageType.keepalive = 2
type_number MessageType.subscribe = 3
type_number MessageType.unsubscribe = 4
type_number MessageType.update = 5

-- `impl TryFrom<u8> for MessageType`
unfoldable pub type_try_from : ℕ → Result MessageType
type_try_from value =
    if value == 1
    then ok MessageType.hello
    else if value == 2
    then ok MessageType.keepalive
    else if value == 3
    then ok MessageType.subscribe
    else if value == 4
    then ok MessageType.unsubscribe
    else if value == 5
    then ok MessageType.update
    else err (protocol (unknown_message_type value))

-- `?` on the result of a decoder of `prost`.
abbrev pub or_encoding {ℓ} : {A : Type ℓ} → Option A → Result A
or_encoding none = err encoding
or_encoding (some a) = ok a

module _ (lib : IpNetLib) (prost : Prost) where
  open lib use {IpNet}

  unfoldable pub encode_payload : Message IpNet → Result (List ℕ)
  encode_payload (Message.hello interval is_server) =
      ok (prost.encode_hello (record { keepalive_interval = interval; is_server = is_server }))
  encode_payload Message.keepalive = ok []
  encode_payload (Message.subscribe vni) = ok (prost.encode_subscription (record { vni = vni }))
  encode_payload (Message.unsubscribe vni) = ok (prost.encode_subscription (record { vni = vni }))
  encode_payload (Message.update action vni destination next_hop) = ok (
      prost.encode_update (record {
        action = action_number action;
        vni = vni;
        destination = some (proto_destination lib destination);
        next_hop = some (proto_next_hop next_hop);
      }))

  unfoldable pub encode : Message IpNet → Result (List ℕ)
  encode msg = do
    payload ← encode_payload msg
    if ltb max_payload_size (length payload)
        then err (protocol (message_too_long (length payload)))
        else ok (
            protocol_version
            ∷ length payload / 2 ^ 8 % 2 ^ 8
            ∷ length payload % 2 ^ 8
            ∷ type_number (message_type msg)
            ∷ payload)

  unfoldable pub decode_payload : MessageType → List ℕ → Result (Message IpNet)
  decode_payload MessageType.hello payload = do
    msg ← or_encoding (prost.decode_hello payload)
    ok (Message.hello msg.keepalive_interval msg.is_server)
  decode_payload MessageType.keepalive payload = ok Message.keepalive
  decode_payload MessageType.subscribe payload = do
    msg ← or_encoding (prost.decode_subscription payload)
    ok (Message.subscribe msg.vni)
  decode_payload MessageType.unsubscribe payload = do
    msg ← or_encoding (prost.decode_subscription payload)
    ok (Message.unsubscribe msg.vni)
  decode_payload MessageType.update payload = do
    msg ← or_encoding (prost.decode_update payload)
    action ← or_fail (action_try_from msg.action) invalid_action
    proto_dest ← or_fail msg.destination missing_destination
    destination ← destination_try_from lib proto_dest
    proto_hop ← or_fail msg.next_hop missing_next_hop
    next_hop ← next_hop_try_from proto_hop
    ok (Message.update action msg.vni destination next_hop)

  -- The message and the number of bytes consumed. `payload_len` is `(buf[1] << 8) | buf[2]`.
  unfoldable pub decode : List ℕ → Result (Message IpNet × ℕ)
  decode (version ∷ high ∷ low ∷ type ∷ rest) =
      if version == protocol_version
      then (do
        msg_type ← type_try_from type
        let payload_len = high * 2 ^ 8 + low
        let total_len = header_size + payload_len
        if ltb (header_size + length rest) total_len then err (protocol message_truncated) else (do
          message ← decode_payload msg_type (take payload_len rest)
          ok (message, total_len)))
      else err (protocol (unsupported_protocol_version version))
  decode _ = err (protocol message_too_short)
