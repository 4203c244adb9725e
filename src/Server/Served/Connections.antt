-- ===== src/Server/Served/Connections.antt =====
-- What one step of a connection of src/server.rs leaves of the peers that are served.
use rustbond.Prelude.{
  ℕ, zero, suc, ◌≡◌, sym, ◌∙◌, ite, Bool, true, false, List, [], ◌∷◌, ◌++◌, arith, inl, inr,
}
use mathlib.Core.Path.{subst}
use rustbond.Collections.Map.{get, get-insert, get-remove}
use rustbond.Collections.Map.Size.{is_some}
use rustbond.Types.Address.{IpNetLib, established}
use rustbond.Types.Proto.{Prost}
use rustbond.Types.Convert.{Done, ok, err}
use rustbond.Wire.Message.{Message}
use rustbond.Wire.Framing.{process}
use rustbond.Wire.Framing.Keeps.{process-keeps}
use rustbond.Wire.Framing.Enough.{Result-cases}
use rustbond.Server.Channel.{Mpsc}
use rustbond.Server.Peers.{SocketAddr, SocketAddr-discrete}
use rustbond.Server.Actor.{RoutingActor}
use rustbond.Server.Events.{peer_connected, subscribe, unsubscribe, update, run, step}
use rustbond.Server.Connection.{Connection, on_message}
use rustbond.Server.Connection.Requests.{commands_of, message-actor}
use rustbond.Server.Session.{
  PeerHandle, max_pending_messages, ServerState, Session, SessionEvent, shuts_down, times_out,
  read_fails, reads, receives, register, close, on_data, on_event, connection_of,
}
use rustbond.Server.Sessions.{is_running}
use rustbond.Server.Served.{IsOf, step-IsOf, peer_disconnected-IsOf}

module _ {N : Type 0} (net : Discrete N) (chan : Mpsc (Message N)) where
  open chan use {Sender}

  pub IsOf-weaken :
      (P Q : SocketAddr → Bool) (a : RoutingActor N Sender)
      → ((x : SocketAddr) → P x ≡ true → Q x ≡ true)
      → IsOf net chan P a
      → IsOf net chan Q a
  IsOf-weaken P Q a w i = record {
    agree = i.agree;
    subscriptions = i.subscriptions;
    owners = λ q x h. w x (i.owners q x h);
    subscribed = λ v x h. w x (i.subscribed v x h);
    channels = λ x h. w x (i.channels x h);
  }

-- A predicate that is set for one address.
abbrev pub updated : (SocketAddr → Bool) → SocketAddr → Bool → SocketAddr → Bool
updated P addr now x = ite (SocketAddr-discrete addr x) now (P x)

module _ (lib : IpNetLib) (prost : Prost) (chan : Mpsc (Message (IpNetLib.IpNet lib))) where
  open lib use {IpNet, discrete}
  open chan use {Sender, channel}

  -- What is kept is of the peers that are given, and these are registered.
  pub record IsServing (P : SocketAddr → Bool) (st : ServerState IpNet Sender) : Type 0 where
    pub routing : IsOf discrete chan P st.routing
    pub registered : (x : SocketAddr) → is_some (get SocketAddr-discrete x st.peers) ≡ P x

  commands-IsOf :
      (P : SocketAddr → Bool) (addr : SocketAddr) (a : RoutingActor IpNet Sender)
      (msg : Message IpNet)
      → P addr ≡ true
      → IsOf discrete chan P a
      → IsOf discrete chan P (run discrete chan a (commands_of addr msg))
  unfolding commands_of run
  commands-IsOf P addr a (Message.hello interval is_server) p i = i
  commands-IsOf P addr a Message.keepalive p i = i
  commands-IsOf P addr a (Message.subscribe vni) p i =
      step-IsOf discrete chan P a i (subscribe addr vni) p
  commands-IsOf P addr a (Message.unsubscribe vni) p i =
      step-IsOf discrete chan P a i (unsubscribe addr vni) p
  commands-IsOf P addr a (Message.update action vni dest hop) p i =
      step-IsOf discrete chan P a i (update addr action (vni, dest, hop)) p

  process-IsOf :
      (P : SocketAddr → Bool) (addr : SocketAddr) (buf : List ℕ) (c : Connection IpNet Sender)
      → P addr ≡ true
      → IsOf discrete chan P c.actor
      → IsOf discrete chan P (process lib prost (on_message lib prost chan addr) buf c).0.actor
  unfolding on_message
  process-IsOf P addr buf c p i =
      process-keeps lib prost (on_message lib prost chan addr) (λ d. IsOf discrete chan P d.actor)
        (λ d msg j.
          subst (IsOf discrete chan P) (sym (message-actor lib prost chan addr d msg))
            (commands-IsOf P addr d.actor msg p j))
        buf c i

  pub register-IsServing :
      (P : SocketAddr → Bool) (addr : SocketAddr) (st : ServerState IpNet Sender)
      → IsServing P st
      → IsServing (updated P addr true) (register lib prost chan addr st)
  unfolding register step
  register-IsServing P addr st i =
      let Q = updated P addr true in
      let handle : PeerHandle Sender = record {
        tx = channel max_pending_messages;
        state = established;
      } in
      let mine : Q addr ≡ true = ground arith in
      let weaker = IsOf-weaken discrete chan P Q st.routing (λ x h. ground (arith, h)) i.routing in
      record {
        routing =
            step-IsOf discrete chan Q st.routing weaker
              (peer_connected addr (channel max_pending_messages)) mine;
        registered = λ x.
            ground (arith, get-insert SocketAddr-discrete addr x handle st.peers, i.registered x);
      }

  close-IsServing :
      (P : SocketAddr → Bool) (addr : SocketAddr) (st : ServerState IpNet Sender)
      (s : Session IpNet) (result : Done)
      → P addr ≡ true
      → IsServing P st
      → IsServing (updated P addr false) (close lib prost chan addr st s result).0
  unfolding close
  close-IsServing P addr st s result p i = record {
    routing = peer_disconnected-IsOf discrete chan P st.routing i.routing addr p;
    registered =
        λ x. ground (arith, get-remove SocketAddr-discrete addr x st.peers, i.registered x);
  }

  -- The phase after a step decides whether the peer is served.
  abbrev pub IsStepped :
      (P : SocketAddr → Bool) → SocketAddr → ServerState IpNet Sender × Session IpNet → Type 0
  IsStepped P addr (st, s) = IsServing (updated P addr (is_running s.phase)) st

  pub IsServing-same :
      (P : SocketAddr → Bool) (addr : SocketAddr) (st : ServerState IpNet Sender) (now : Bool)
      → P addr ≡ now
      → IsServing P st
      → IsServing (updated P addr now) st
  IsServing-same P addr st now p i = record {
    routing =
        IsOf-weaken discrete chan P (updated P addr now) st.routing (λ x h. ground (arith, p, h))
          i.routing;
    registered = λ x. ground (arith, i.registered x, p);
  }

  on_data-IsStepped :
      (P : SocketAddr → Bool) (addr : SocketAddr) (st : ServerState IpNet Sender)
      (s : Session IpNet) (buf : List ℕ) (n : ℕ)
      → P addr ≡ true
      → IsServing P st
      → IsStepped P addr (on_data lib prost chan addr st s buf n)
  unfolding on_data
  on_data-IsStepped P addr st s buf n p i =
      let c = connection_of lib prost chan st s n in
      let r = process lib prost (on_message lib prost chan addr) buf c in
      let st' : ServerState IpNet Sender = record st { routing = r.0.actor } in
      let j : IsServing P st' = record {
        routing = process-IsOf P addr buf c p i.routing;
        registered = i.registered;
      } in
      elim (Result-cases r.1) [
        | inl (rest, h) ↦ rw (on_data, h) (IsServing-same P addr st' true p j)
        | inr (e, h) ↦ rw (on_data, h) (close-IsServing P addr st' s (err e) p j)
      ]

  pub on_event-IsStepped :
      (P : SocketAddr → Bool) (addr : SocketAddr) (st : ServerState IpNet Sender)
      (s : Session IpNet) (buf : List ℕ) (e : SessionEvent IpNet)
      → P addr ≡ true
      → is_running s.phase ≡ true
      → IsServing P st
      → IsStepped P addr (on_event lib prost chan addr st s buf e)
  unfolding on_event close
  on_event-IsStepped P addr st s buf shuts_down p h i = close-IsServing P addr st s (ok tt) p i
  on_event-IsStepped P addr st s buf times_out p h i = close-IsServing P addr st s (ok tt) p i
  on_event-IsStepped P addr st s buf read_fails p h i = close-IsServing P addr st s (ok tt) p i
  on_event-IsStepped P addr st s buf (reads [] n) p h i = close-IsServing P addr st s (ok tt) p i
  on_event-IsStepped P addr st s buf (reads (b ∷ bytes) n) p h i =
      on_data-IsStepped P addr st s (buf ++ (b ∷ bytes)) n p i
  on_event-IsStepped P addr st s buf (receives [] n) p h i =
      IsServing-same P addr st (is_running s.phase) (p ∙ sym h) i
  on_event-IsStepped P addr st s buf (receives (msg ∷ queue) zero) p h i =
      close-IsServing P addr st s (ok tt) p i
  on_event-IsStepped P addr st s buf (receives (msg ∷ queue) (suc n)) p h i =
      IsServing-same P addr st (is_running s.phase) (p ∙ sym h) i
