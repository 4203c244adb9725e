-- ===== src/Server/Served/Everyone.antt =====
-- Whom the server of src/server.rs serves, whatever happens to its connections in whatever order.
use rustbond.Prelude.{
  ℕ, min, ◌≡◌, refl, sym, ap, ◌∙◌, Bool, true, false, List, [], ◌∷◌, Option, none, some, arith, inl,
  inr, Option-cases, Bool-cases,
}
use rustbond.Collections.Set.{contains}
use rustbond.Collections.Map.{get, get-insert}
use rustbond.Collections.Map.Size.{is_some}
use rustbond.Types.Address.{IpNetLib}
use rustbond.Types.Proto.{Prost}
use rustbond.Types.Convert.{Result, Done, ok, err}
use rustbond.Wire.Message.{Message}
use rustbond.Wire.Framing.Enough.{Result-cases}
use rustbond.Server.Channel.{Mpsc}
use rustbond.Server.Peers.{SocketAddr, SocketAddr-discrete}
use rustbond.Server.Connection.{Connection, send_message}
use rustbond.Server.Session.{
  ServerConfig, ServerState, Session, SessionEvent, reads, read_fails, times_out, shuts_down,
  receives, Phase, waits_for_hello, waits_for_keepalive, running, ended, accepted, connection_of,
  on_hello, on_keepalive, on_handshake, step_in, receive_hello, receive_message,
}
use rustbond.Server.Session
use rustbond.Server.Events.{receive, receives as receives_event}
use rustbond.Server.Events
use rustbond.Server.Ownership.Steps.{new-Agree}
use rustbond.Server.Served.{step-IsOf}
use rustbond.Server.Sessions.{
  is_running, is_served, is_live, MetalBondServer, start, ServerEvent, accepts, happens,
  channel_changes, serve, serve_all,
}
use rustbond.Server.Served.Connections.{
  IsOf-weaken, IsServing, updated, IsServing-same, IsStepped, on_event-IsStepped,
  register-IsServing,
}

module _ (lib : IpNetLib) (prost : Prost) (chan : Mpsc (Message (IpNetLib.IpNet lib))) where
  open lib use {IpNet, discrete}
  open chan use {Sender, channel}

  not_live-not_served : (o : Option (Session IpNet)) → is_live o ≡ false → is_served o ≡ false
  not_live-not_served none h = refl
  not_live-not_served (some s) h = ground (arith, h)

  answered-not_running :
      (st : ServerState IpNet Sender) (s : Session IpNet) (r : Connection IpNet Sender × Done)
      (n : ℕ)
      → is_running (Session.answered lib prost chan st s r (waits_for_keepalive n)).phase ≡ false
  answered-not_running st s (c, ok done) n = refl
  answered-not_running st s (c, err e) n = refl

  on_hello-not_running :
      (st : ServerState IpNet Sender) (s : Session IpNet) (n : ℕ) (r : Result (Option (ℕ × Bool)))
      → is_running (on_hello lib prost chan st s n r).phase ≡ false
  unfolding on_hello
  on_hello-not_running st s n (err e) = refl
  on_hello-not_running st s n (ok none) = refl
  on_hello-not_running st s n (ok (some (interval, is_server))) =
      let own = st.config.keepalive_interval in
      answered-not_running st s
        (send_message lib prost chan (connection_of lib prost chan st s n) (Message.hello own true))
        (min own interval)

  on_keepalive-IsStepped :
      (P : SocketAddr → Bool) (addr : SocketAddr) (st : ServerState IpNet Sender)
      (s : Session IpNet) (n : ℕ) (r : Result (Message IpNet))
      → P addr ≡ false
      → IsServing lib prost chan P st
      → IsStepped lib prost chan P addr (on_keepalive lib prost chan addr st s n r)
  unfolding on_keepalive
  on_keepalive-IsStepped P addr st s n (err e) p i =
      IsServing-same lib prost chan P addr st false p i
  on_keepalive-IsStepped P addr st s n (ok (Message.hello a b)) p i =
      IsServing-same lib prost chan P addr st false p i
  on_keepalive-IsStepped P addr st s n (ok (Message.subscribe v)) p i =
      IsServing-same lib prost chan P addr st false p i
  on_keepalive-IsStepped P addr st s n (ok (Message.unsubscribe v)) p i =
      IsServing-same lib prost chan P addr st false p i
  on_keepalive-IsStepped P addr st s n (ok (Message.update a v d h)) p i =
      IsServing-same lib prost chan P addr st false p i
  on_keepalive-IsStepped P addr st s n (ok Message.keepalive) p i =
      let c = connection_of lib prost chan st s n in
      elim (Result-cases (send_message lib prost chan c Message.keepalive).1) [
        | inl (u, h) ↦ rw (on_keepalive, h) (register-IsServing lib prost chan P addr st i)
        | inr (e, h) ↦ rw (on_keepalive, h) (IsServing-same lib prost chan P addr st false p i)
      ]

  on_handshake-IsStepped :
      (P : SocketAddr → Bool) (addr : SocketAddr) (st : ServerState IpNet Sender)
      (s : Session IpNet) (wait : Option ℕ) (e : SessionEvent IpNet)
      → P addr ≡ false
      → is_running s.phase ≡ false
      → IsServing lib prost chan P st
      → IsStepped lib prost chan P addr (on_handshake lib prost chan addr st s wait e)
  unfolding on_handshake
  on_handshake-IsStepped P addr st s none (reads bytes n) p h i =
      IsServing-same lib prost chan P addr st _
        (p ∙ sym (on_hello-not_running st s n (receive_hello lib prost chan bytes))) i
  on_handshake-IsStepped P addr st s (some interval) (reads bytes n) p h i =
      on_keepalive-IsStepped P addr st s n (receive_message lib prost chan bytes) p i
  on_handshake-IsStepped P addr st s none read_fails p h i =
      IsServing-same lib prost chan P addr st false p i
  on_handshake-IsStepped P addr st s (some interval) read_fails p h i =
      IsServing-same lib prost chan P addr st false p i
  on_handshake-IsStepped P addr st s (some interval) times_out p h i =
      IsServing-same lib prost chan P addr st false p i
  on_handshake-IsStepped P addr st s none times_out p h i =
      IsServing-same lib prost chan P addr st (is_running s.phase) (p ∙ sym h) i
  on_handshake-IsStepped P addr st s none shuts_down p h i =
      IsServing-same lib prost chan P addr st (is_running s.phase) (p ∙ sym h) i
  on_handshake-IsStepped P addr st s (some interval) shuts_down p h i =
      IsServing-same lib prost chan P addr st (is_running s.phase) (p ∙ sym h) i
  on_handshake-IsStepped P addr st s none (receives queue n) p h i =
      IsServing-same lib prost chan P addr st (is_running s.phase) (p ∙ sym h) i
  on_handshake-IsStepped P addr st s (some interval) (receives queue n) p h i =
      IsServing-same lib prost chan P addr st (is_running s.phase) (p ∙ sym h) i

  step_in-IsStepped :
      (P : SocketAddr → Bool) (addr : SocketAddr) (st : ServerState IpNet Sender)
      (s : Session IpNet) (phase : Phase) (e : SessionEvent IpNet)
      → s.phase ≡ phase
      → P addr ≡ is_running phase
      → IsServing lib prost chan P st
      → IsStepped lib prost chan P addr (step_in lib prost chan addr st s phase e)
  unfolding step_in
  step_in-IsStepped P addr st s waits_for_hello e h p i =
      on_handshake-IsStepped P addr st s none e p (ap is_running h) i
  step_in-IsStepped P addr st s (waits_for_keepalive n) e h p i =
      on_handshake-IsStepped P addr st s (some n) e p (ap is_running h) i
  step_in-IsStepped P addr st s (running buf) e h p i =
      on_event-IsStepped lib prost chan P addr st s buf e p (ap is_running h) i
  step_in-IsStepped P addr st s (ended result) e h p i =
      IsServing-same lib prost chan P addr st (is_running s.phase) (p ∙ sym (ap is_running h)) i

  IsServing-cong :
      (P Q : SocketAddr → Bool) (st : ServerState IpNet Sender)
      → ((x : SocketAddr) → P x ≡ Q x)
      → IsServing lib prost chan P st
      → IsServing lib prost chan Q st
  IsServing-cong P Q st same i = record {
    routing = IsOf-weaken discrete chan P Q st.routing (λ x h. sym (same x) ∙ h) i.routing;
    registered = λ x. i.registered x ∙ same x;
  }

  -- The peers that are served are those whose connection is in its main loop.
  abbrev pub IsServer : MetalBondServer IpNet Sender → Type 0
  IsServer s =
      IsServing lib prost chan (λ x. is_served (get SocketAddr-discrete x s.sessions)) s.state

  receive-IsServing :
      (P : SocketAddr → Bool) (addr : SocketAddr) (tx : Sender) (st : ServerState IpNet Sender)
      → IsServing lib prost chan P st
      → IsServing lib prost chan P (record st { routing = receive st.routing addr tx })
  unfolding receive Events.step
  receive-IsServing P addr tx st i =
      elim (Option-cases (get SocketAddr-discrete addr st.routing.peers)) [
        | inl h ↦ rw (receive, h) i
        | inr (old, h) ↦ record {
          routing =
              step-IsOf discrete chan P st.routing i.routing (receives_event addr tx)
                (i.routing.channels addr (ap is_some h));
          registered = i.registered;
        }
      ]

  serve-IsServer :
      (s : MetalBondServer IpNet Sender) (e : ServerEvent IpNet Sender)
      → IsServer s
      → IsServer (serve lib prost chan s e)
  unfolding serve Session.step
  serve-IsServer s (accepts addr) i =
      let P = λ (x : SocketAddr). is_served (get SocketAddr-discrete x s.sessions) in
      elim (Bool-cases (is_live (get SocketAddr-discrete addr s.sessions))) [
        | inl h ↦ rw (serve, h) i
        | inr h ↦
            rw (serve, h)
              (IsServing-cong (updated P addr false) _ s.state
                (λ x.
                  ground (
                    arith,
                    get-insert SocketAddr-discrete addr x (accepted {N = IpNet}) s.sessions,
                  ))
                (IsServing-same lib prost chan P addr s.state false (not_live-not_served _ h) i))
      ]
  serve-IsServer s (happens addr e) i =
      let P = λ (x : SocketAddr). is_served (get SocketAddr-discrete x s.sessions) in
      elim (Option-cases (get SocketAddr-discrete addr s.sessions)) [
        | inl h ↦ rw (serve, h) i
        | inr (session, h) ↦
            let r = Session.step lib prost chan addr s.state session e in
            rw (serve, h)
              (IsServing-cong (updated P addr (is_running r.1.phase)) _ r.0
                (λ x. ground (arith, get-insert SocketAddr-discrete addr x r.1 s.sessions))
                (step_in-IsStepped P addr s.state session session.phase e refl (ap is_served h) i))
      ]
  serve-IsServer s (channel_changes addr tx) i = receive-IsServing _ addr tx s.state i

  serve_all-IsServer :
      (s : MetalBondServer IpNet Sender) (es : List (ServerEvent IpNet Sender))
      → IsServer s
      → IsServer (serve_all lib prost chan s es)
  unfolding serve_all
  serve_all-IsServer s [] i = i
  serve_all-IsServer s (e ∷ es) i =
      serve_all-IsServer (serve lib prost chan s e) es (serve-IsServer s e i)

  start-IsServer : (config : ServerConfig) → IsServer (start config)
  unfolding get contains
  start-IsServer config = record {
    routing = record {
      agree = new-Agree discrete chan;
      subscriptions = record { vnis = tt; peers = tt };
      owners = λ q x h. ground (arith, h);
      subscribed = λ v x h. ground (arith, h);
      channels = λ x h. ground (arith, h);
    };
    registered = λ x. refl;
  }

  -- Whatever happens to the connections of a server, in whatever order, the peers in its map are
  -- those whose connection is in its main loop, and every route that is owned, every subscription
  -- and every channel of the routing actor is one of theirs.
  pub serve_all-start-IsServer :
      (config : ServerConfig) (es : List (ServerEvent IpNet Sender))
      → IsServer (serve_all lib prost chan (start config) es)
  serve_all-start-IsServer config es = serve_all-IsServer (start config) es (start-IsServer config)
