-- ===== src/Peer/Invariant.antt =====
-- The invariant of `peer_task` of src/peer.rs.
pub mod Run
use rustbond.Prelude.{
  ℕ, zero, suc, ◌≡◌, refl, sym, ap, ite, Bool, true, false, List, [], ◌∷◌, ◌++◌, Option, none, some,
  inl, inr, arith, ℕ_discrete,
}
use mathlib.Core.Path.{subst}
use rustbond.Collections.Set
use rustbond.Types.Address.{
  IpNetLib, ConnectionState, ConnectionState-discrete, connecting, hello_sent, hello_received,
  established, retry, closed,
}
use rustbond.Types.Proto.{Prost}
use rustbond.Types.Convert.{Result, Done, ok, err}
use rustbond.Route.{RouteTable, RouteKey}
use rustbond.Handler.{installed}
use rustbond.Wire.Message.{Message}
use rustbond.Wire.Codec.{encode}
use rustbond.Wire.Framing.{and_then, process}
use rustbond.Wire.Framing.Enough.{Result-cases}
use rustbond.Wire.Framing.Keeps.{process-keeps}
use rustbond.Peer.Received.{Received, handle_message}
use rustbond.Peer.Session.{
  Peer, PeerCommand, subscribe, unsubscribe, send_update, shutdown, Event, connects, connect_fails,
  reads, read_fails, times_out, ticks, receives, delay_ends, new, set_state,
  default_keepalive_interval, clear_received, remove_received_vni, after_connection, settle,
  resubscribe, reannounce, write_message, send_message, send_all, receive_hello, receive_message,
}
use rustbond.Peer.Task.{
  start, on_hello, establish, on_keepalive, on_data, on_command, on_event, step, run,
}
use rustbond.Peer.Sync.{
  InSync, nothing_received-InSync, handle_message-InSync, clear_received_lem,
  remove_received_vni_lem,
}

-- The states in which a server's routes can be installed.
abbrev pub may_hold : ConnectionState → Bool
may_hold ConnectionState.established = true
may_hold ConnectionState.closed = true
may_hold _ = false

ite-cases :
    {A B : Type 0} (P : B → Type 0) (d : Dec A) (x y : B)
    → (A → P x)
    → ((A → ⊥) → P y)
    → P (ite d x y)
ite-cases P (yes a) x y f g = f a
ite-cases P (no a) x y f g = g a

module _ (lib : IpNetLib) (prost : Prost) where
  open lib use {IpNet, discrete}

  -- The handler agrees with the routes that were received, and without an established connection
  -- nothing is installed, unless the peer was shut down.
  pub record IsPeer (p : Peer IpNet) : Type 0 where
    pub sync : InSync discrete p.received
    pub idle :
        may_hold p.state ≡ false
        → (q : RouteKey IpNet) → installed discrete q p.received.calls ≡ false

  -- Of a step that can fail: after an error the connection ends, and only agreement is needed.
  abbrev pub IsStep : Peer IpNet × Done → Type 0
  IsStep (p, ok done) = IsPeer p
  IsStep (p, err e) = InSync discrete p.received

  pub after_connection-IsPeer :
      (p : Peer IpNet) → InSync discrete p.received → IsPeer (after_connection p)
  unfolding after_connection
  after_connection-IsPeer p i =
      let (sync', gone) = clear_received_lem discrete p.received i in
      ite-cases IsPeer (ConnectionState-discrete p.state closed) p
        (record p { state = retry; received = clear_received p.received })
        (λ q. record { sync = i; idle = λ h. ground (arith, q, h) })
        (λ q. record { sync = sync'; idle = λ h. gone })

  pub settle-IsPeer : (r : Peer IpNet × Done) → IsStep r → IsPeer (settle r)
  settle-IsPeer (p, ok done) i = i
  settle-IsPeer (p, err e) i = after_connection-IsPeer p i

  pub and_then-IsStep :
      (r : Peer IpNet × Done) (f : Peer IpNet → Peer IpNet × Done)
      → IsStep r
      → ((p : Peer IpNet) → IsPeer p → IsStep (f p))
      → IsStep (and_then r f)
  and_then-IsStep (p, ok done) f i rest = rest p i
  and_then-IsStep (p, err e) f i rest = i

  pub write-IsStep :
      (n : ℕ) (p : Peer IpNet) (msg : Message IpNet)
      → p.room ≡ n
      → IsPeer p
      → IsStep (write_message lib prost p msg)
  unfolding write_message
  write-IsStep zero p msg h i = rw (h, write_message) i.sync
  write-IsStep (suc n) p msg h i = rw (h, write_message) (record { sync = i.sync; idle = i.idle })

  pub send-IsStep :
      (p : Peer IpNet) (msg : Message IpNet) → IsPeer p → IsStep (send_message lib prost p msg)
  unfolding send_message
  send-IsStep p msg i = elim (Result-cases (encode lib prost msg)) [
    | inl (bytes, h) ↦ rw (h, send_message) (write-IsStep p.room p msg refl i)
    | inr (e, h) ↦ rw (h, send_message) i.sync
  ]

  pub send_all-IsStep :
      (msgs : List (Message IpNet)) (p : Peer IpNet) → IsPeer p → IsStep (send_all lib prost msgs p)
  unfolding send_all
  send_all-IsStep [] p i = i
  send_all-IsStep (msg ∷ msgs) p i =
      and_then-IsStep (send_message lib prost p msg) (send_all lib prost msgs) (send-IsStep p msg i)
        (send_all-IsStep msgs)

  pub data-IsStep :
      (p : Peer IpNet) (bytes : List ℕ)
      → p.state ≡ established
      → IsPeer p
      → IsStep (on_data lib prost p bytes)
  unfolding on_data
  data-IsStep p bytes at i =
      let sync' =
        process-keeps lib prost (handle_message discrete) (InSync discrete)
          (handle_message-InSync discrete) (p.msg_buf ++ bytes) p.received i.sync in
      elim (Result-cases
        (process lib prost (handle_message discrete) (p.msg_buf ++ bytes) p.received).1) [
          | inl (rest, h) ↦
              rw (h, on_data) (record { sync = sync'; idle = λ q. ground (arith, q, at) })
          | inr (e, h) ↦ rw (h, on_data) sync'
        ]

  pub command-IsStep :
      (p : Peer IpNet) (c : PeerCommand IpNet) → IsPeer p → IsStep (on_command lib prost p c)
  unfolding on_command
  command-IsStep p (subscribe vni) i =
      and_then-IsStep (send_message lib prost p (Message.subscribe vni))
        (λ p'. (record p' { subscriptions = Set.insert ℕ_discrete vni p'.subscriptions }, ok tt))
        (send-IsStep p (Message.subscribe vni) i) (λ p' j. record { sync = j.sync; idle = j.idle })
  command-IsStep p (unsubscribe vni) i =
      and_then-IsStep (send_message lib prost p (Message.unsubscribe vni))
        (λ p'. (
          record p' {
            subscriptions = Set.remove ℕ_discrete vni p'.subscriptions;
            received = remove_received_vni vni p'.received;
          },
          ok tt,
        ))
        (send-IsStep p (Message.unsubscribe vni) i)
        (λ p' j.
          let (sync', gone) = remove_received_vni_lem discrete vni p'.received j.sync in
          record { sync = sync'; idle = λ h q. ground (arith, gone q, j.idle h q) })
  command-IsStep p (send_update msg) i = send-IsStep p msg i
  command-IsStep p shutdown i = record { sync = i.sync; idle = λ h. ground (arith, h) }
