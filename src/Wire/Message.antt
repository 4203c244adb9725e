-- ===== src/Wire/Message.antt =====
-- `MessageType` and `Message` of src/wire.rs.
use rustbond.Prelude.{ℕ, Bool}
use rustbond.Types.Address.{Vni, Action, Destination, NextHop}

pub data MessageType : Type 0 where
  hello keepalive subscribe unsubscribe update : MessageType

pub data Message (N : Type 0) : Type 0 where
  hello : ℕ → Bool → Message N
  keepalive : Message N
  subscribe unsubscribe : Vni → Message N
  update : Action → Vni → Destination N → NextHop → Message N

-- `Message::message_type`
unfoldable pub message_type : {N : Type 0} → Message N → MessageType
message_type (Message.hello interval is_server) = MessageType.hello
message_type Message.keepalive = MessageType.keepalive
message_type (Message.subscribe vni) = MessageType.subscribe
message_type (Message.unsubscribe vni) = MessageType.unsubscribe
message_type (Message.update action vni destination next_hop) = MessageType.update
