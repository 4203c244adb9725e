-- ===== src/Peer/Task.antt =====
-- The steps of `peer_task` and `run_connection` of src/peer.rs.
use rustbond.Prelude.{ℕ, false, List, [], ◌∷◌, ◌++◌, Option, none, some, min, ℕ_discrete}
use rustbond.Collections.Set
use rustbond.Types.Address.{
  IpNetLib, ConnectionState, connecting, hello_sent, hello_received, established, retry, closed,
}
use rustbond.Types.Proto.{Prost}
use rustbond.Types.Convert.{
  protocol, Result, Done, ok, err, expected_hello_response, expected_keepalive_response,
}
use rustbond.Route.{RouteTable}
use rustbond.Wire.Message.{Message}
use rustbond.Wire.Framing.{and_then, process}
use rustbond.Peer.Received.{handle_message}
use rustbond.Peer.Session.{
  Peer, PeerCommand, subscribe, unsubscribe, send_update, shutdown, Event, connects, connect_fails,
  reads, read_fails, times_out, ticks, receives, delay_ends, set_state, default_keepalive_interval,
  remove_received_vni, after_connection, settle, resubscribe, reannounce, send_message, send_all,
  receive_hello, receive_message,
}

module _ (lib : IpNetLib) (prost : Prost) where
  open lib use {IpNet, discrete}

  -- `Send HELLO` on the new connection.
  unfoldable pub start : Peer IpNet → Peer IpNet × Done
  start p =
      and_then (send_message lib prost p (Message.hello default_keepalive_interval false))
        (λ p'. (set_state hello_sent p', ok tt))

  -- `Wait for HELLO response`, `Use the minimum keepalive interval`, and the initial KEEPALIVE.
  unfoldable pub on_hello : Peer IpNet → Result (Option ℕ) → Peer IpNet × Done
  on_hello p (ok (some interval)) =
      let negotiated = min default_keepalive_interval interval in
      send_message lib prost (record p { state = hello_received; negotiated = negotiated })
        Message.keepalive
  on_hello p (ok none) = (p, err (protocol expected_hello_response))
  on_hello p (err e) = (p, err e)

  -- The established connection: subscriptions and announced routes are sent again.
  unfoldable pub establish : RouteTable IpNet → Peer IpNet → Peer IpNet × Done
  establish announced p =
      send_all lib prost (resubscribe p.subscriptions ++ reannounce announced)
        (record p { state = established; msg_buf = [] })

  -- `Wait for KEEPALIVE response to establish connection`.
  unfoldable pub on_keepalive :
      RouteTable IpNet → Peer IpNet → Result (Message IpNet) → Peer IpNet × Done
  unfolding establish
  on_keepalive announced p (ok Message.keepalive) = establish announced p
  on_keepalive announced p (ok _) = (p, err (protocol expected_keepalive_response))
  on_keepalive announced p (err e) = (p, err e)

  -- `Incoming data`, of which there is some.
  unfoldable pub on_data : Peer IpNet → List ℕ → Peer IpNet × Done
  on_data p bytes =
      let (received', left) =
        process lib prost (handle_message discrete) (p.msg_buf ++ bytes) p.received in
      elim left [
        | ok rest ↦ (record p { received = received'; msg_buf = rest }, ok tt)
        | err e ↦ (record p { received = received' }, err e)
      ]

  -- `Commands from client`. `Shutdown` returns, and nothing is done when the connection is closed.
  unfoldable pub on_command : Peer IpNet → PeerCommand IpNet → Peer IpNet × Done
  on_command p (subscribe vni) =
      and_then (send_message lib prost p (Message.subscribe vni))
        (λ p'. (record p' { subscriptions = Set.insert ℕ_discrete vni p'.subscriptions }, ok tt))
  on_command p (unsubscribe vni) =
      and_then (send_message lib prost p (Message.unsubscribe vni)) (λ p'. (
        record p' {
          subscriptions = Set.remove ℕ_discrete vni p'.subscriptions;
          received = remove_received_vni vni p'.received;
        },
        ok tt,
      ))
  on_command p (send_update msg) = send_message lib prost p msg
  on_command p shutdown = (set_state closed p, ok tt)

  -- The connection's own events.
  unfoldable pub on_event : Peer IpNet → Event IpNet → Peer IpNet
  unfolding on_command
  on_event p (ticks n) = settle (send_message lib prost (record p { room = n }) Message.keepalive)
  on_event p (reads [] n) = after_connection p
  on_event p (reads (b ∷ bytes) n) = settle (on_data p (b ∷ bytes))
  on_event p (receives c n) = settle (on_command (record p { room = n }) c)
  on_event p read_fails = after_connection p
  on_event p times_out = after_connection p
  on_event p _ = p

  -- One event; `announced` is the client's route table when it happens. Commands wait in their
  -- channel until the connection is established, and while the task waits to connect again they
  -- end the delay.
  unfoldable pub step : RouteTable IpNet → Peer IpNet → Event IpNet → Peer IpNet
  unfolding start on_hello on_keepalive on_event
  step announced p e = elim p.state [
    | ConnectionState.connecting ↦ elim e [
      | connects n ↦ settle (start (record p { written = []; room = n }))
      | connect_fails ↦ set_state retry p
      | _ ↦ p
    ]
    | ConnectionState.hello_sent ↦ elim e [
      | reads bytes n ↦ settle (on_hello (record p { room = n }) (receive_hello lib prost bytes))
      | read_fails ↦ after_connection p
      | _ ↦ p
    ]
    | ConnectionState.hello_received ↦ elim e [
      | reads bytes n ↦
          settle (on_keepalive announced (record p { room = n }) (receive_message lib prost bytes))
      | read_fails ↦ after_connection p
      | times_out ↦ after_connection p
      | _ ↦ p
    ]
    | ConnectionState.established ↦ on_event p e
    | ConnectionState.retry ↦ elim e [
      | delay_ends ↦ set_state connecting p
      | receives c n ↦ elim c [ shutdown ↦ set_state closed p | _ ↦ set_state connecting p ]
      | _ ↦ p
    ]
    | ConnectionState.closed ↦ p
  ]

  -- The events one after the other, each with the announced routes of its time.
  unfoldable pub run : Peer IpNet → List (RouteTable IpNet × Event IpNet) → Peer IpNet
  run p [] = p
  run p ((announced, e) ∷ es) = run (step announced p e) es
