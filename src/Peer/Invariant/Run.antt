-- ===== src/Peer/Invariant/Run.antt =====
-- The invariant of `peer_task` of src/peer.rs through all its steps.
use rustbond.Prelude.{
  ℕ, min, zero, suc, ◌≡◌, refl, sym, ap, false, List, [], ◌∷◌, ◌++◌, Option, none, some, inl, inr,
}
use mathlib.Core.Path.{subst}
use rustbond.Types.Address.{
  IpNetLib, ConnectionState, connecting, hello_sent, hello_received, established, retry, closed,
}
use rustbond.Types.Proto.{Prost}
use rustbond.Types.Convert.{Result, Done, ok, err}
use rustbond.Route.{RouteTable, RouteKey}
use rustbond.Handler.{installed}
use rustbond.Wire.Message.{Message}
use rustbond.Wire.Codec.{encode}
use rustbond.Wire.Framing.{and_then}
use rustbond.Wire.Framing.Enough.{Result-cases}
use rustbond.Peer.Received.{Received}
use rustbond.Peer.Session.{
  Peer, shutdown, Event, connects, connect_fails, reads, read_fails, times_out, ticks, receives,
  delay_ends, new, set_state, default_keepalive_interval, resubscribe, reannounce, write_message,
  send_message, receive_hello, receive_message,
}
use rustbond.Peer.Task.{
  start, on_hello, establish, on_keepalive, on_data, on_command, on_event, step, run,
}
use rustbond.Peer.Sync.{InSync, nothing_received-InSync}
use rustbond.Peer.Invariant.{
  may_hold, IsPeer, IsStep, after_connection-IsPeer, settle-IsPeer, send-IsStep, send_all-IsStep,
  data-IsStep, command-IsStep,
}

module _ (lib : IpNetLib) (prost : Prost) where
  open lib use {IpNet, discrete}

  event-IsPeer :
      (p : Peer IpNet) (e : Event IpNet)
      → p.state ≡ established
      → IsPeer lib prost p
      → IsPeer lib prost (on_event lib prost p e)
  unfolding on_event
  event-IsPeer p (ticks n) at i =
      settle-IsPeer lib prost (send_message lib prost (record p { room = n }) Message.keepalive) (
        send-IsStep lib prost (record p { room = n }) Message.keepalive
          (record { sync = i.sync; idle = i.idle }))
  event-IsPeer p (reads [] n) at i = after_connection-IsPeer lib prost p i.sync
  event-IsPeer p (reads (b ∷ bytes) n) at i =
      settle-IsPeer lib prost (on_data lib prost p (b ∷ bytes))
        (data-IsStep lib prost p (b ∷ bytes) at i)
  event-IsPeer p (receives c n) at i =
      settle-IsPeer lib prost (on_command lib prost (record p { room = n }) c) (
        command-IsStep lib prost (record p { room = n }) c
          (record { sync = i.sync; idle = i.idle }))
  event-IsPeer p read_fails at i = after_connection-IsPeer lib prost p i.sync
  event-IsPeer p times_out at i = after_connection-IsPeer lib prost p i.sync
  event-IsPeer p _ at i = i

  -- Nothing is installed before the connection is established.
  idle-IsPeer :
      (p : Peer IpNet) (state' : ConnectionState)
      → may_hold p.state ≡ false
      → IsPeer lib prost p
      → IsPeer lib prost (set_state state' p)
  idle-IsPeer p state' h i = record { sync = i.sync; idle = λ h'. i.idle h }

  write-received :
      (n : ℕ) (p : Peer IpNet) (msg : Message IpNet)
      → p.room ≡ n
      → (write_message lib prost p msg).0.received ≡ p.received
  unfolding write_message
  write-received zero p msg h = rw (h, write_message)
  write-received (suc n) p msg h = rw (h, write_message)

  send-received :
      (p : Peer IpNet) (msg : Message IpNet)
      → (send_message lib prost p msg).0.received ≡ p.received
  unfolding send_message
  send-received p msg = elim (Result-cases (encode lib prost msg)) [
    | inl (bytes, h) ↦ rw (h, send_message) (write-received p.room p msg refl)
    | inr (e, h) ↦ rw (h, send_message)
  ]

  -- Agreement with nothing installed.
  abbrev IsQuiet : Received IpNet → Type 0
  IsQuiet r = InSync discrete r × ((q : RouteKey IpNet) → installed discrete q r.calls ≡ false)

  hello_sent-IsStep :
      (r : Peer IpNet × Done)
      → IsQuiet r.0.received
      → IsStep lib prost (and_then r (λ p. (set_state hello_sent p, ok tt)))
  hello_sent-IsStep (p, ok done) (sync', quiet) = record { sync = sync'; idle = λ h. quiet }
  hello_sent-IsStep (p, err e) (sync', quiet) = sync'

  start-IsStep :
      (p : Peer IpNet)
      → may_hold p.state ≡ false
      → IsPeer lib prost p
      → IsStep lib prost (start lib prost p)
  unfolding start
  start-IsStep p h i =
      let hello : Message IpNet = Message.hello default_keepalive_interval false in
      hello_sent-IsStep (send_message lib prost p hello)
        (subst IsQuiet (sym (send-received p hello)) (i.sync, i.idle h))

  hello-IsStep :
      (p : Peer IpNet) (r : Result (Option ℕ))
      → may_hold p.state ≡ false
      → IsPeer lib prost p
      → IsStep lib prost (on_hello lib prost p r)
  unfolding on_hello
  hello-IsStep p (ok (some interval)) h i =
      let negotiated = min default_keepalive_interval interval in
      send-IsStep lib prost (record p { state = hello_received; negotiated = negotiated })
        Message.keepalive (record { sync = i.sync; idle = λ h'. i.idle h })
  hello-IsStep p (ok none) h i = i.sync
  hello-IsStep p (err e) h i = i.sync

  establish-IsStep :
      (announced : RouteTable IpNet) (p : Peer IpNet)
      → may_hold p.state ≡ false
      → IsPeer lib prost p
      → IsStep lib prost (establish lib prost announced p)
  unfolding establish
  establish-IsStep announced p h i =
      send_all-IsStep lib prost (resubscribe p.subscriptions ++ reannounce announced)
        (record p { state = established; msg_buf = [] })
        (record { sync = i.sync; idle = λ h'. i.idle h })

  keepalive-IsStep :
      (announced : RouteTable IpNet) (p : Peer IpNet) (r : Result (Message IpNet))
      → may_hold p.state ≡ false
      → IsPeer lib prost p
      → IsStep lib prost (on_keepalive lib prost announced p r)
  unfolding on_keepalive
  keepalive-IsStep announced p (ok Message.keepalive) h i = establish-IsStep announced p h i
  keepalive-IsStep announced p (ok _) h i = i.sync
  keepalive-IsStep announced p (err e) h i = i.sync

  step_at-IsPeer :
      (announced : RouteTable IpNet) (p : Peer IpNet) (state' : ConnectionState) (e : Event IpNet)
      → p.state ≡ state'
      → IsPeer lib prost p
      → IsPeer lib prost (step lib prost announced p e)
  unfolding step
  step_at-IsPeer announced p ConnectionState.connecting (connects n) at i =
      let fresh : Peer IpNet = record p { written = []; room = n } in
      rw (at, step)
        (settle-IsPeer lib prost (start lib prost fresh)
          (start-IsStep fresh (ap may_hold at) (record { sync = i.sync; idle = i.idle })))
  step_at-IsPeer announced p ConnectionState.connecting connect_fails at i =
      rw (at, step) (idle-IsPeer p retry (ap may_hold at) i)
  step_at-IsPeer announced p ConnectionState.connecting _ at i = rw (at, step) i
  step_at-IsPeer announced p ConnectionState.hello_sent (reads bytes n) at i =
      let read = receive_hello lib prost bytes in
      rw (at, step)
        (settle-IsPeer lib prost (on_hello lib prost (record p { room = n }) read) (
          hello-IsStep (record p { room = n }) read (ap may_hold at)
            (record { sync = i.sync; idle = i.idle })))
  step_at-IsPeer announced p ConnectionState.hello_sent read_fails at i =
      rw (at, step) (after_connection-IsPeer lib prost p i.sync)
  step_at-IsPeer announced p ConnectionState.hello_sent _ at i = rw (at, step) i
  step_at-IsPeer announced p ConnectionState.hello_received (reads bytes n) at i =
      let read = receive_message lib prost bytes in
      rw (at, step)
        (settle-IsPeer lib prost (on_keepalive lib prost announced (record p { room = n }) read) (
          keepalive-IsStep announced (record p { room = n }) read (ap may_hold at)
            (record { sync = i.sync; idle = i.idle })))
  step_at-IsPeer announced p ConnectionState.hello_received read_fails at i =
      rw (at, step) (after_connection-IsPeer lib prost p i.sync)
  step_at-IsPeer announced p ConnectionState.hello_received times_out at i =
      rw (at, step) (after_connection-IsPeer lib prost p i.sync)
  step_at-IsPeer announced p ConnectionState.hello_received _ at i = rw (at, step) i
  step_at-IsPeer announced p ConnectionState.established e at i =
      rw (at, step) (event-IsPeer p e at i)
  step_at-IsPeer announced p ConnectionState.retry delay_ends at i =
      rw (at, step) (idle-IsPeer p connecting (ap may_hold at) i)
  step_at-IsPeer announced p ConnectionState.retry (receives shutdown n) at i =
      rw (at, step) (idle-IsPeer p closed (ap may_hold at) i)
  step_at-IsPeer announced p ConnectionState.retry (receives _ n) at i =
      rw (at, step) (idle-IsPeer p connecting (ap may_hold at) i)
  step_at-IsPeer announced p ConnectionState.retry _ at i = rw (at, step) i
  step_at-IsPeer announced p ConnectionState.closed e at i = rw (at, step) i

  run-IsPeer :
      (p : Peer IpNet) (es : List (RouteTable IpNet × Event IpNet))
      → IsPeer lib prost p
      → IsPeer lib prost (run lib prost p es)
  unfolding run
  run-IsPeer p [] i = i
  run-IsPeer p ((announced, e) ∷ es) i =
      run-IsPeer (step lib prost announced p e) es (step_at-IsPeer announced p p.state e refl i)

  -- Whatever the network, the server and the client do, a peer's handler has installed exactly the
  -- routes that were received, by calls that each changed something; and while the connection is
  -- not established, nothing is installed, unless the peer was shut down.
  pub run-new-IsPeer :
      (es : List (RouteTable IpNet × Event IpNet)) → IsPeer lib prost (run lib prost new es)
  unfolding installed
  run-new-IsPeer es =
      run-IsPeer new es (record { sync = nothing_received-InSync discrete; idle = λ h q. refl })
