-- ===== src/Tests/Peers.antt =====
-- Applications of the theorems on the message loop, src/peer.rs, and the connections of
-- src/server.rs.
use rustbond.Prelude.{ℕ, ◌+◌, ◌≡◌, refl, false, List, [], ◌∷◌, ◌++◌, map, arith, length, All}
use rustbond.Server.Actor
use rustbond.Server.Events
use rustbond.Peer.Invariant.{IsPeer}
use rustbond.Peer.Invariant.Run.{run-new-IsPeer}
use rustbond.Peer.Received.{handle_message, nothing_received}
use rustbond.Peer.Resume.{establish_lem}
use rustbond.Peer.Session.{Event, Peer, connects, new, reads, reannounce, resubscribe}
use rustbond.Peer.Stream.{process_reads-received, told_all}
use rustbond.Peer.Sync.{has}
use rustbond.Peer.Task.{establish, run}
use rustbond.Route.{RouteKey, RouteTable, get_all_routes, list_all, list_hops, list_vni}
use rustbond.Server.Channel.{Mpsc}
use rustbond.Server.Connection.{Connection, on_message}
use rustbond.Server.Connection.Requests.{commands, process_reads-commands}
use rustbond.Tests.Data.{alice, codes, hop, nets, queues}
use rustbond.Tests.WireData.{
  announcement-IsMessage, announcement_bytes, count, encode_all-messages, messages,
  messages-IsMessage, network, reads_of,
}
use rustbond.Types.Address.{Action, IpAddr, established, hello_received}
use rustbond.Types.Convert.{ok}
use rustbond.Wire.Codec.{decode}
use rustbond.Wire.Codec.Extend.{is_final}
use rustbond.Wire.Codec.RoundTrip.{IsMessage, received}
use rustbond.Wire.Framing.{and_then, handle_all, process_reads}
use rustbond.Wire.Framing.Chunks.Stream.{process_reads-encode_all}
use rustbond.Wire.Message.{Message}

nothing-open : is_final nets codes (decode nets codes []) ≡ false
unfolding decode
nothing-open = refl

abbrev key : RouteKey (IpAddr × ℕ)
key = (7, network, hop 1)

abbrev chan : Mpsc (Message (IpAddr × ℕ))
chan = queues (Message (IpAddr × ℕ))

abbrev connection : Connection (IpAddr × ℕ) (List (Message (IpAddr × ℕ)))
connection = record { actor = Actor.new; written = []; room = 3 }

abbrev announced_routes : RouteTable (IpAddr × ℕ)
announced_routes = record { routes = (7, (network, hop 1 ∷ []) ∷ []) ∷ [] }

-- A connection with its handshake, the server's messages, and its end.
abbrev events : List (RouteTable (IpAddr × ℕ) × Event (IpAddr × ℕ))
events =
    (announced_routes, connects 9)
    ∷ (announced_routes, reads (1 ∷ 0 ∷ 2 ∷ 1 ∷ 5 ∷ 1 ∷ []) 9)
    ∷ (announced_routes, reads (1 ∷ 0 ∷ 0 ∷ 2 ∷ []) 9)
    ∷ (announced_routes, reads announcement_bytes 0)
    ∷ []

abbrev subscribed : Peer (IpAddr × ℕ)
subscribed = record {
  state = hello_received;
  subscriptions = 7 ∷ [];
  received = nothing_received;
  msg_buf = [];
  written = [];
  room = 3;
  negotiated = 5;
}

resumed-IsMessage :
    All (IsMessage nets codes) (resubscribe subscribed.subscriptions ++ reannounce announced_routes)
unfolding resubscribe reannounce get_all_routes list_all list_vni list_hops
resumed-IsMessage = (omega arith, (announcement-IsMessage, tt))

resumed-room :
    subscribed.room
    ≡ length (resubscribe subscribed.subscriptions ++ reannounce announced_routes) + 1
unfolding resubscribe reannounce get_all_routes list_all list_vni list_hops
resumed-room = omega arith

process_reads-encode_all_example :
    process_reads nets codes count reads_of [] 0
    ≡ and_then
        (handle_all nets codes count (map (received nets codes) messages) 0)
        (λ s'. (s', ok []))
process_reads-encode_all_example =
    process_reads-encode_all nets codes count messages reads_of 0 messages-IsMessage
      encode_all-messages

process_reads-received_example :
    let after =
      process_reads nets codes (handle_message nets.discrete) reads_of [] nothing_received in
    (has nets.discrete after.0.received_routes key
      ≡ told_all nets.discrete key false (map (received nets codes) messages))
    × (after.1 ≡ ok [])
process_reads-received_example =
    process_reads-received nets codes messages reads_of key messages-IsMessage encode_all-messages

process_reads-commands_example :
    let after =
      process_reads nets codes (on_message nets codes chan alice) reads_of [] connection in
    (after.0.actor
      ≡ Events.run nets.discrete chan connection.actor
          (commands alice (map (received nets codes) messages)))
    × (after.1 ≡ ok [])
process_reads-commands_example =
    process_reads-commands nets codes chan alice messages reads_of connection messages-IsMessage
      encode_all-messages

run-new-IsPeer_example : IsPeer nets codes (run nets codes new events)
run-new-IsPeer_example = run-new-IsPeer nets codes events

establish_lem_example : establish nets codes announced_routes subscribed ≡ (
  record subscribed {
    state = established;
    msg_buf = [];
    written =
        subscribed.written
        ++ (map (λ vni. Message.subscribe vni) subscribed.subscriptions
            ++ map
                (λ e. Message.update Action.add e.0 e.1.destination e.1.next_hop)
                (get_all_routes announced_routes));
    room = 1;
  },
  ok tt,
)
establish_lem_example =
    establish_lem nets codes announced_routes subscribed 1 resumed-IsMessage resumed-room
