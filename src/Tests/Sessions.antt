-- ===== src/Tests/Sessions.antt =====
-- The theorems on the connections of the server of src/server.rs at concrete values.
use rustbond.Prelude.{ℕ, ◌+◌, ◌≡◌, refl, true, false, List, [], ◌∷◌, ◌++◌, map, arith, length, All}
use rustbond.Types.Address.{IpAddr, connecting}
use rustbond.Types.Convert.{ok}
use rustbond.Route.{RouteTable, get_all_routes, list_all, list_hops, list_vni}
use rustbond.Wire.Message.{Message, message_type}
use rustbond.Wire.Codec.{encode, encode_payload, type_number}
use rustbond.Wire.Codec.RoundTrip.{IsMessage, received}
use rustbond.Wire.Framing.{and_then, process_reads, handle_all}
use rustbond.Peer.Session.{Peer, connects, reads, resubscribe, reannounce}
use rustbond.Peer.Received.{nothing_received}
use rustbond.Peer.Task
use rustbond.Server.Channel.{Mpsc}
use rustbond.Server.Batch.{write_batches}
use rustbond.Server.Batch.Delivery.{process_reads-write_batches}
use rustbond.Server.Session.{ServerState, accepted, register, default_config}
use rustbond.Server.Session
use rustbond.Server.Sessions.{start, ServerEvent, accepts, happens, serve_all}
use rustbond.Server.Served.Everyone.{IsServer, serve_all-start-IsServer}
use rustbond.Handshake.Established.{IsEstablished, handshake_lem}
use rustbond.Tests.Data.{alice, bob, codes, nets, hop, queues}
use rustbond.Tests.WireData.{
  announcement-IsMessage, announcement_bytes, count, messages, messages-IsMessage, network,
}

abbrev chan : Mpsc (Message (IpAddr × ℕ))
chan = queues (Message (IpAddr × ℕ))

-- The bytes of the handshake's messages.
abbrev hello_bytes : List ℕ
hello_bytes = 1 ∷ 0 ∷ 2 ∷ 1 ∷ 5 ∷ 0 ∷ []

abbrev answer_bytes : List ℕ
answer_bytes = 1 ∷ 0 ∷ 2 ∷ 1 ∷ 5 ∷ 1 ∷ []

abbrev keepalive_bytes : List ℕ
keepalive_bytes = 1 ∷ 0 ∷ 0 ∷ 2 ∷ []

hello-encoded : encode nets codes (Message.hello 5 false) ≡ ok hello_bytes
unfolding encode encode_payload message_type type_number
hello-encoded = refl

answer-encoded : encode nets codes (Message.hello 5 true) ≡ ok answer_bytes
unfolding encode encode_payload message_type type_number
answer-encoded = refl

keepalive-encoded : encode nets codes Message.keepalive ≡ ok keepalive_bytes
unfolding encode encode_payload message_type type_number
keepalive-encoded = refl

-- A client connects and announces a route, another connects and then leaves.
abbrev events : List (ServerEvent (IpAddr × ℕ) (List (Message (IpAddr × ℕ))))
events =
    accepts alice
    ∷ happens alice (Session.reads hello_bytes 9)
    ∷ accepts bob
    ∷ happens alice (Session.reads keepalive_bytes 9)
    ∷ happens bob (Session.reads hello_bytes 9)
    ∷ happens alice (Session.reads announcement_bytes 9)
    ∷ happens bob (Session.reads keepalive_bytes 9)
    ∷ happens bob (Session.reads [] 0)
    ∷ []

serve_all-start-IsServer_example :
    IsServer nets codes chan (serve_all nets codes chan (start default_config) events)
serve_all-start-IsServer_example = serve_all-start-IsServer nets codes chan default_config events

process_reads-write_batches_example :
    process_reads nets codes count (write_batches nets codes (length messages) messages) [] 0
    ≡ and_then
        (handle_all nets codes count (map (received nets codes) messages) 0)
        (λ s'. (s', ok []))
process_reads-write_batches_example =
    process_reads-write_batches nets codes count messages 0 messages-IsMessage

abbrev announced_routes : RouteTable (IpAddr × ℕ)
announced_routes = record { routes = (7, (network, hop 1 ∷ []) ∷ []) ∷ [] }

abbrev peer : Peer (IpAddr × ℕ)
peer = record {
  state = connecting;
  subscriptions = 7 ∷ [];
  received = nothing_received;
  msg_buf = [];
  written = [];
  room = 0;
  negotiated = 5;
}

abbrev state : ServerState (IpAddr × ℕ) (List (Message (IpAddr × ℕ)))
state = (start default_config).state

again-IsMessage :
    All (IsMessage nets codes) (resubscribe peer.subscriptions ++ reannounce announced_routes)
unfolding resubscribe reannounce get_all_routes list_all list_vni list_hops
again-IsMessage = (omega arith, (announcement-IsMessage, tt))

handshake_lem_example :
    let again = length (resubscribe peer.subscriptions ++ reannounce announced_routes) + 3 in
    let p₁ = Task.step nets codes announced_routes peer (connects 2) in
    let (st₁, s₁) =
      Session.step nets codes chan alice state accepted (Session.reads hello_bytes 2) in
    let p₂ = Task.step nets codes announced_routes p₁ (reads answer_bytes 2) in
    let (st₂, s₂) = Session.step nets codes chan alice st₁ s₁ (Session.reads keepalive_bytes 2) in
    let p₃ = Task.step nets codes announced_routes p₂ (reads keepalive_bytes again) in
    IsEstablished peer p₃ announced_routes 5 s₁ st₂ s₂ (register nets codes chan alice state)
handshake_lem_example =
    handshake_lem nets codes chan announced_routes peer alice state hello_bytes answer_bytes
      keepalive_bytes 1 1 3 refl (omega arith) again-IsMessage hello-encoded answer-encoded
      keepalive-encoded
